-- ===== src/Backend/Imports/Once.antt =====
-- No content is imported twice, and every row of a file is accepted or rejected.
use mathlib.Core.Path.{subst}
use mathlib.Core.Option.{some-injective}
use ai_finance_controller.Common.{
  ℕ, ◌≡◌, refl, sym, ◌∙◌, ◌⊎◌, inl, inr, true, false, not, ◌&&◌, Option, none, some, List, arith,
  if◌then◌else◌, if_elim, is_empty, length, ltb,
}
use ai_finance_controller.Common.Text.{Text, text_eq, text_eq_refl}
use ai_finance_controller.Common.Keys.{text_key, text_cases}
use ai_finance_controller.Common.Dict.{lookup-insert}
use ai_finance_controller.Domain.Workflow.{ImportStatus, completed, failed, duplicate}
use ai_finance_controller.Backend.Store.{User}
use ai_finance_controller.Backend.Store.Dicts.{lookup-unfound}
use ai_finance_controller.Backend.Books.{
  ImportError, ImportRecord, Repository, Answer, new_import, save_import, find_import_by_hash,
  get_import, add_transactions, audited, is_completed, is_failed, no_header_row,
}
use ai_finance_controller.Backend.Imports.{
  Reader, max_upload_bytes, Upload, Rows, missing, started, ended, finished, load, import_columns,
  import_content, import_sized, import_unless, replayed, create_import,
}

-- Two completed imports are of different content.
abbrev pub IsImportedOnce : {W : Type 0} → Repository W → Type 0
IsImportedOnce s =
    (k j : Text) (a b : ImportRecord)
    → get_import k s ≡ some a
    → get_import j s ≡ some b
    → is_completed a.status ≡ true
    → is_completed b.status ≡ true
    → a.content_sha256 ≡ b.content_sha256
    → k ≡ j

-- What a stored record, in front of the others, adds to the invariant: it is not completed, or no
-- record of its content that did not fail was there.
abbrev IsNew : {W : Type 0} → ImportRecord → Repository W → Type 0
IsNew i s = (is_completed i.status ≡ false) ⊎ (find_import_by_hash i.content_sha256 s ≡ none)

completed_not_failed :
    (status : ImportStatus) → is_completed status ≡ true → is_failed status ≡ false
completed_not_failed ImportStatus.pending h = cc
completed_not_failed ImportStatus.validating h = cc
completed_not_failed completed h = refl
completed_not_failed failed h = cc
completed_not_failed duplicate h = cc

module _ {W : Type 0} where
  unfound :
      (sha k : Text) (b : ImportRecord) (s : Repository W)
      → find_import_by_hash sha s ≡ none
      → get_import k s ≡ some b
      → is_completed b.status ≡ true
      → sha ≡ b.content_sha256
      → ⊥
  unfolding find_import_by_hash get_import
  unfound sha k b s f g c e =
      let fails =
        lookup-unfound (λ i. text_eq i.content_sha256 sha && not (is_failed i.status)) k b s.imports
          f g in
      let alike : text_eq b.content_sha256 sha ≡ true = rw e (text_eq_refl b.content_sha256) in
      absurd (ground (arith, fails, alike, completed_not_failed b.status c))

  get_import-save :
      (i : ImportRecord) (k : Text) (s : Repository W)
      → get_import k (save_import i s) ≡ (if text_eq i.import_id k then some i else get_import k s)
  unfolding get_import save_import
  get_import-save i k s = lookup-insert i.import_id k i s.imports

  -- A record that is found after the write is the one written, at its id, or one of before.
  found_after :
      (i : ImportRecord) (k : Text) (a : ImportRecord) (s : Repository W)
      → get_import k (save_import i s) ≡ some a
      → ((i.import_id ≡ k) × (a ≡ i)) ⊎ (get_import k s ≡ some a)
  found_after i k a s g = elim (text_cases i.import_id k) [
    | inl e ↦
        inl (e, some-injective _ _ (sym g ∙ get_import-save i k s ∙ rw (e, text_eq_refl k) refl))
    | inr e ↦ inr (sym (get_import-save i k s ∙ rw e refl) ∙ g)
  ]

  -- The written record and one of before are not both completed with the same content.
  apart :
      (i a b : ImportRecord) (j : Text) (s : Repository W)
      → IsNew i s
      → a ≡ i
      → get_import j s ≡ some b
      → is_completed a.status ≡ true
      → is_completed b.status ≡ true
      → a.content_sha256 ≡ b.content_sha256
      → ⊥
  apart i a b j s (inl n) e g ca cb q =
      let clash : is_completed i.status ≡ true =
        subst (λ (x : ImportRecord). is_completed x.status ≡ true) e ca in
      absurd (ground (arith, n, clash))
  apart i a b j s (inr n) e g ca cb q =
      unfound i.content_sha256 j b s n g cb
        (subst (λ (x : ImportRecord). x.content_sha256 ≡ b.content_sha256) e q)

  save_import-IsImportedOnce :
      (i : ImportRecord) (s : Repository W)
      → IsNew i s
      → IsImportedOnce s
      → IsImportedOnce (save_import i s)
  save_import-IsImportedOnce i s n h k j a b g f ca cb q = elim (found_after i k a s g) [
    | inl (e, ai) ↦ elim (found_after i j b s f) [
      | inl (e', _) ↦ sym e ∙ e'
      | inr f' ↦ absurd (apart i a b j s n ai f' ca cb q)
    ]
    | inr g' ↦ elim (found_after i j b s f) [
      | inl (_, bi) ↦ absurd (apart i b a k s n bi g' cb ca (sym q))
      | inr f' ↦ h k j a b g' f' ca cb q
    ]
  ]

module _ {W : Type 0} (reader : Reader) (now : ℕ) (import_id event_id : Text) (u : User) where
  ended-IsImportedOnce :
      (i : ImportRecord) (status : ImportStatus) (error : ImportError) (s : Repository W)
      → is_completed status ≡ false
      → IsImportedOnce s
      → IsImportedOnce (ended reader now import_id event_id u i status error s).repository
  unfolding ended
  ended-IsImportedOnce i status error s n h = save_import-IsImportedOnce _ s (inl n) h

  load-IsImportedOnce :
      (i : ImportRecord) (r : Rows) (total : ℕ) (s : Repository W)
      → find_import_by_hash i.content_sha256 s ≡ none
      → IsImportedOnce s
      → IsImportedOnce (load reader now import_id event_id u i r total s).repository
  unfolding load finished audited add_transactions get_import save_import find_import_by_hash
  load-IsImportedOnce i r total s n h = save_import-IsImportedOnce (finished i r total) s (inr n) h

  import_columns-IsImportedOnce :
      (i : ImportRecord) (up : Upload) (o : Option (List Text)) (s : Repository W)
      → find_import_by_hash i.content_sha256 s ≡ none
      → IsImportedOnce s
      → IsImportedOnce (import_columns reader now import_id event_id u i up o s).repository
  unfolding import_columns
  import_columns-IsImportedOnce i up none s n h =
      ended-IsImportedOnce i failed no_header_row s refl h
  import_columns-IsImportedOnce i up (some names) s n h =
      if_elim (λ (x : Answer W ImportRecord). IsImportedOnce x.repository)
        (not (is_empty (missing reader up.dataset names)))
        (λ _. ended-IsImportedOnce i failed _ s refl h) (λ _. load-IsImportedOnce i _ _ s n h)

  import_content-IsImportedOnce :
      (up : Upload) (o : Option ImportRecord) (s : Repository W)
      → find_import_by_hash (reader.sha256 up.raw) s ≡ o
      → IsImportedOnce s
      → IsImportedOnce (import_content reader now import_id event_id u up o s).repository
  unfolding import_content started new_import
  import_content-IsImportedOnce up (some x) s n h = ended-IsImportedOnce _ duplicate _ s refl h
  import_content-IsImportedOnce up none s n h =
      import_columns-IsImportedOnce _ up (reader.header up.raw) s n h

  import_sized-IsImportedOnce :
      (up : Upload) (s : Repository W)
      → IsImportedOnce s
      → IsImportedOnce (import_sized reader now import_id event_id u up s).repository
  unfolding import_sized
  import_sized-IsImportedOnce up s h =
      if_elim (λ (x : Answer W ImportRecord). IsImportedOnce x.repository)
        (ltb max_upload_bytes (length up.raw)) (λ _. h)
        (λ _.
          import_content-IsImportedOnce up (find_import_by_hash (reader.sha256 up.raw) s) s refl h)

  import_unless-IsImportedOnce :
      (o : Option ImportRecord) (up : Upload) (s : Repository W)
      → IsImportedOnce s
      → IsImportedOnce (import_unless reader now import_id event_id u o up s).repository
  unfolding import_unless
  import_unless-IsImportedOnce (some x) up s h = h
  import_unless-IsImportedOnce none up s h = import_sized-IsImportedOnce up s h

  -- An upload keeps it so that no two completed imports have the same content, by its digest.
  pub create_import-IsImportedOnce :
      (up : Upload) (s : Repository W)
      → IsImportedOnce s
      → IsImportedOnce (create_import reader now import_id event_id u up s).repository
  unfolding create_import
  create_import-IsImportedOnce up s h =
      if_elim (λ (x : Answer W ImportRecord). IsImportedOnce x.repository)
        (not (reader.is_known up.dataset)) (λ _. h)
        (λ _. import_unless-IsImportedOnce (replayed up.idempotency_key s) up s h)
