-- ===== src/Backend/Imports/Replay.antt =====
-- A retried upload, and the rows of a file.
use mathlib.Core.Path.{subst}
use ai_finance_controller.Common.{
  ℕ, suc, ◌+◌, ◌≡◌, refl, ap, ◌∙◌, true, false, not, Option, none, some, List, [], ◌∷◌, arith,
  if_elim, Bool-cases, is_empty, length, ltb, inl, inr,
}
use ai_finance_controller.Common.Text.{Text, text_eq_refl, is_blank, or_empty}
use ai_finance_controller.Common.Keys.{text_key}
use ai_finance_controller.Common.Dict.{insert}
use ai_finance_controller.Common.Result.{Result, ok, err, Returns}
use ai_finance_controller.Domain.Workflow.{ImportStatus}
use ai_finance_controller.Domain.Canonical.{CanonicalTransaction}
use ai_finance_controller.Backend.Errors.{unknown_dataset}
use ai_finance_controller.Backend.Store.{User}
use ai_finance_controller.Backend.Store.Dicts.{find-insert}
use ai_finance_controller.Backend.Books.{
  Rejection, ImportError, ImportRecord, Repository, Answer, new_import, save_import,
  find_import_by_key, find_import_by_hash, get_import, add_transactions, audited, option_eq,
}
use ai_finance_controller.Backend.Imports.{
  Reader, max_upload_bytes, Upload, Rows, put_row, read_rows, missing, started, ended, finished,
  load, import_columns, import_content, import_sized, import_unless, create_import,
}

put_row-length :
    (line : ℕ) (o : Result Rejection CanonicalTransaction) (r : Rows)
    → length (put_row line o r).accepted + length (put_row line o r).rejections
      ≡ suc (length r.accepted + length r.rejections)
put_row-length line (ok t) r = omega arith
put_row-length line (err e) r = omega arith

-- Every row is either accepted or rejected.
pub length-read_rows :
    (reader : Reader) (dataset : Text) (line : ℕ) (rows : List reader.Row)
    → length (read_rows reader dataset line rows).accepted
        + length (read_rows reader dataset line rows).rejections
      ≡ length rows
unfolding read_rows
length-read_rows reader dataset line [] = refl
length-read_rows reader dataset line (row ∷ rows) =
    put_row-length line (reader.normalise dataset row) (read_rows reader dataset (suc line) rows)
    ∙ ap suc (length-read_rows reader dataset (suc line) rows)

module _ {W : Type 0} (reader : Reader) (now : ℕ) (import_id event_id : Text) (u : User) where
  -- The record that an answer returns is the one it added, with the id drawn and the key.
  abbrev Adds : (key : Option Text) → Repository W → Answer W ImportRecord → Type 0
  Adds key s a =
      Returns
        (λ (i : ImportRecord).
          (i.import_id ≡ import_id)
          × (i.idempotency_key ≡ key)
          × (a.repository.imports ≡ insert i.import_id i s.imports))
        a.result

  ended-Adds :
      (i : ImportRecord) (status : ImportStatus) (error : ImportError) (s : Repository W)
      → i.import_id ≡ import_id
      → Adds i.idempotency_key s (ended reader now import_id event_id u i status error s)
  unfolding ended save_import
  ended-Adds i status error s e = (e, refl, refl)

  load-Adds :
      (i : ImportRecord) (r : Rows) (total : ℕ) (s : Repository W)
      → i.import_id ≡ import_id
      → Adds i.idempotency_key s (load reader now import_id event_id u i r total s)
  unfolding load finished save_import audited add_transactions
  load-Adds i r total s e = (e, refl, refl)

  import_columns-Adds :
      (i : ImportRecord) (up : Upload) (o : Option (List Text)) (s : Repository W)
      → i.import_id ≡ import_id
      → Adds i.idempotency_key s (import_columns reader now import_id event_id u i up o s)
  unfolding import_columns
  import_columns-Adds i up none s e = ended-Adds i _ _ s e
  import_columns-Adds i up (some names) s e =
      if_elim (Adds i.idempotency_key s) (not (is_empty (missing reader up.dataset names)))
        (λ _. ended-Adds i _ _ s e) (λ _. load-Adds i _ _ s e)

  import_content-Adds :
      (up : Upload) (o : Option ImportRecord) (s : Repository W)
      → Adds up.idempotency_key s (import_content reader now import_id event_id u up o s)
  unfolding import_content started new_import
  import_content-Adds up (some x) s = ended-Adds (started reader now import_id up) _ _ s refl
  import_content-Adds up none s =
      import_columns-Adds (started reader now import_id up) up (reader.header up.raw) s refl

  import_sized-Adds :
      (up : Upload) (s : Repository W)
      → Adds up.idempotency_key s (import_sized reader now import_id event_id u up s)
  unfolding import_sized
  import_sized-Adds up s =
      if_elim (Adds up.idempotency_key s) (ltb max_upload_bytes (length up.raw)) (λ _. tt)
        (λ _. import_content-Adds up (find_import_by_hash (reader.sha256 up.raw) s) s)

  -- What was added is what its key then finds.
  added_found :
      (key : Option Text) (i : ImportRecord) (s r : Repository W)
      → is_blank key ≡ false
      → get_import import_id s ≡ none
      → find_import_by_key (or_empty key) s ≡ none
      → i.import_id ≡ import_id
      → i.idempotency_key ≡ key
      → r.imports ≡ insert i.import_id i s.imports
      → find_import_by_key (or_empty key) r ≡ some i
  unfolding find_import_by_key get_import
  added_found none i s r b n f e k m = cc
  added_found (some t) i s r b n f e k m = rw m (
      find-insert (λ x. option_eq x.idempotency_key t) i.import_id i s.imports (rw e n) f
        (rw k (text_eq_refl t)))

  sized_found :
      (up : Upload) (s : Repository W) (a : Answer W ImportRecord) (i : ImportRecord)
      → is_blank up.idempotency_key ≡ false
      → get_import import_id s ≡ none
      → find_import_by_key (or_empty up.idempotency_key) s ≡ none
      → Adds up.idempotency_key s a
      → a.result ≡ ok i
      → find_import_by_key (or_empty up.idempotency_key) a.repository ≡ some i
  sized_found up s a i b n f g h =
      let (e, k, m) =
        subst
          (Returns (λ (x : ImportRecord).
            (x.import_id ≡ import_id)
            × (x.idempotency_key ≡ up.idempotency_key)
            × (a.repository.imports ≡ insert x.import_id x s.imports)))
          h g in
      added_found up.idempotency_key i s a.repository b n f e k m

  unless_found :
      (o : Option ImportRecord) (up : Upload) (s : Repository W) (i : ImportRecord)
      → is_blank up.idempotency_key ≡ false
      → get_import import_id s ≡ none
      → find_import_by_key (or_empty up.idempotency_key) s ≡ o
      → (import_unless reader now import_id event_id u o up s).result ≡ ok i
      → find_import_by_key
          (or_empty up.idempotency_key)
          (import_unless reader now import_id event_id u o up s).repository
        ≡ some i
  unfolding import_unless
  unless_found (some x) up s i b n f h = let same : x ≡ i = cc in f ∙ ap some same
  unless_found none up s i b n f h = sized_found up s _ i b n f (import_sized-Adds up s) h

  create_found :
      (up : Upload) (s : Repository W) (i : ImportRecord)
      → is_blank up.idempotency_key ≡ false
      → get_import import_id s ≡ none
      → (create_import reader now import_id event_id u up s).result ≡ ok i
      → find_import_by_key
          (or_empty up.idempotency_key)
          (create_import reader now import_id event_id u up s).repository
        ≡ some i
  unfolding create_import
  create_found up s i b n h = elim (Bool-cases (reader.is_known up.dataset)) [
    | inl k ↦
        rw (k, b)
          (unless_found (find_import_by_key (or_empty up.idempotency_key) s) up s i b n refl
            (rw (k, b) at h))
    | inr k ↦ let bad : err unknown_dataset ≡ ok i = rw k at h in cc
  ]

-- An upload whose key finds an import.
replay :
    {W : Type 0} (reader : Reader) (now : ℕ) (import_id event_id : Text) (u : User) (up : Upload)
    (s : Repository W) (i : ImportRecord)
    → is_blank up.idempotency_key ≡ false
    → reader.is_known up.dataset ≡ true
    → find_import_by_key (or_empty up.idempotency_key) s ≡ some i
    → create_import reader now import_id event_id u up s ≡ record { repository = s; result = ok i }
unfolding create_import import_unless
replay reader now import_id event_id u up s i b k f = rw (k, b, f) refl

-- After a request with a key got an answer, any request with that key, for a known dataset and with
-- the same body or another, gets the same answer, and nothing is imported.
pub create_import-replays :
    {W : Type 0} (reader : Reader) (now later : ℕ) (import_id event_id import_id' event_id' : Text)
    (u v : User) (up again : Upload) (s : Repository W) (i : ImportRecord)
    → is_blank up.idempotency_key ≡ false
    → again.idempotency_key ≡ up.idempotency_key
    → reader.is_known again.dataset ≡ true
    → get_import import_id s ≡ none
    → (create_import reader now import_id event_id u up s).result ≡ ok i
    → create_import reader later import_id' event_id' v again
        (create_import reader now import_id event_id u up s).repository
      ≡ record {
        repository = (create_import reader now import_id event_id u up s).repository;
        result = ok i;
      }
create_import-replays reader now later import_id event_id import_id' event_id' u v up again s i b e
      k n h =
    replay reader later import_id' event_id' v again _ i (rw e b) k
      (rw e (create_found reader now import_id event_id u up s i b n h))
