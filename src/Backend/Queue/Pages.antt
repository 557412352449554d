-- ===== src/Backend/Queue/Pages.antt =====
-- The pages of the queue, one behind the other, are the queue.
use mathlib.Core.Path.{subst}
use ai_finance_controller.Common.{
  ℕ, zero, suc, ◌+◌, ◌≤◌, ◌<◌, ◌≡◌, refl, sym, ap, ◌∙◌, Option, none, some, List, [], ◌∷◌, ◌++◌,
  arith, length, take, map, ltb, Bool-cases, inl, inr,
}
use ai_finance_controller.Common.Text.{Text}
use ai_finance_controller.Common.Result.{Result, ok, err}
use ai_finance_controller.Recon.Models.{ExceptionCase, RunResult}
use ai_finance_controller.Backend.Errors.{ApiError}
use ai_finance_controller.Backend.Books.{CaseDecision, Repository}
use ai_finance_controller.Backend.Queue.{
  CursorCodec, IsFaithful, decode_cursor, Page, drop, page_at, Filters, select, current_run,
  with_decision, show_page, list_exceptions,
}

module _ {A : Type 0} where
  drop_all : (n : ℕ) (xs : List A) → length xs ≤ n → drop n xs ≡ []
  drop_all zero [] h = refl
  drop_all zero (x ∷ xs) h = absurd (omega arith)
  drop_all (suc n) [] h = refl
  drop_all (suc n) (x ∷ xs) h = drop_all n xs (omega (arith, h))

  drop_nil : (n : ℕ) → drop {A = A} n [] ≡ []
  drop_nil zero = refl
  drop_nil (suc n) = refl

  drop-add : (n l : ℕ) (xs : List A) → drop (n + l) xs ≡ drop l (drop n xs)
  drop-add zero l xs = let e : 0 + l ≡ l = omega arith in rw e refl
  drop-add (suc n) l [] = drop_nil (suc n + l) ∙ sym (drop_nil l)
  drop-add (suc n) l (x ∷ xs) =
      let e : suc n + l ≡ suc (n + l) = omega arith in rw e (drop-add n l xs)

  append-take : (l : ℕ) (ys : List A) → take l ys ++ drop l ys ≡ ys
  append-take zero ys = refl
  append-take (suc l) [] = refl
  append-take (suc l) (y ∷ ys) = ap (λ r. y ∷ r) (append-take l ys)

  map-append : {B : Type 0} (g : A → B) (xs ys : List A) → map g (xs ++ ys) ≡ map g xs ++ map g ys
  map-append g [] ys = refl
  map-append g (x ∷ xs) ys = ap (λ r. g x ∷ r) (map-append g xs ys)

  -- A page and what stands behind it.
  joined :
      {B : Type 0} (g : A → B) (n l : ℕ) (xs : List A)
      → map g (take l (drop n xs)) ++ map g (drop (n + l) xs) ≡ map g (drop n xs)
  joined g n l xs =
      sym (map-append g (take l (drop n xs)) (drop (n + l) xs))
      ∙ ap (map g) (ap (λ r. take l (drop n xs) ++ r) (drop-add n l xs) ∙ append-take l (drop n xs))

  -- What a client gets that starts at a cursor and follows the next ones, at most `fuel` pages.
  abbrev pub follow : (Option Text → List A) → Result ApiError (Page A) → List A
  follow rest (err e) = []
  follow rest (ok p) = p.items ++ elim p.next_cursor [ none ↦ [] | some c ↦ rest (some c) ]

  unfoldable pub read_pages :
      (fetch : Option Text → Result ApiError (Page A))
      → (fuel : ℕ) → (cursor : Option Text) → List A
  read_pages fetch zero cursor = []
  read_pages fetch (suc fuel) cursor = follow (read_pages fetch fuel) (fetch cursor)

-- The request for a page, with its cursor left open.
abbrev pub fetch :
    {W : Type 0}
    → CursorCodec
    → (run_id : Option Text) → Filters
    → (limit : ℕ) → Repository W
    → (cursor : Option Text) → Result ApiError (Page (ExceptionCase W × Option CaseDecision))
fetch codec run_id f limit s cursor = list_exceptions codec run_id f cursor limit s

module _ {W : Type 0} (codec : CursorCodec) (faithful : IsFaithful codec) (run_id : Option Text)
    (f : Filters) (limit : ℕ) (s : Repository W) (result : RunResult W)
    (found : current_run run_id s ≡ ok result) (some_limit : 1 ≤ limit) where
  fetched :
      (cursor : Option Text) (offset : ℕ)
      → decode_cursor codec cursor ≡ ok offset
      → fetch codec run_id f limit s cursor
        ≡ ok (show_page s (page_at codec limit (select f result.cases) offset))
  unfolding list_exceptions
  fetched cursor offset d = rw (found, d) refl

  next_decodes : (n : ℕ) → decode_cursor codec (some (codec.encode n)) ≡ ok n
  unfolding decode_cursor
  next_decodes n = rw (faithful.encode_nonempty n, faithful.decode-encode n) refl

  followed :
      (rest : Option Text → List (ExceptionCase W × Option CaseDecision)) (offset : ℕ)
      → (offset + limit < length (select f result.cases)
          → rest (some (codec.encode (offset + limit)))
            ≡ map (with_decision s) (drop (offset + limit) (select f result.cases)))
      → follow rest (ok (show_page s (page_at codec limit (select f result.cases) offset)))
        ≡ map (with_decision s) (drop offset (select f result.cases))
  unfolding page_at
  followed rest offset h =
      elim (Bool-cases (ltb (offset + limit) (length (select f result.cases)))) [
        | inl e ↦
            rw (e, h (ground (arith, e)))
              (joined (with_decision s) offset limit (select f result.cases))
        | inr e ↦ rw e (
            subst
              (λ r.
                map (with_decision s) (take limit (drop offset (select f result.cases)))
                  ++ map (with_decision s) r
                ≡ map (with_decision s) (drop offset (select f result.cases)))
              (drop_all (offset + limit) (select f result.cases) (ground (arith, e)))
              (joined (with_decision s) offset limit (select f result.cases)))
      ]

  read_from :
      (fuel : ℕ) (cursor : Option Text) (offset : ℕ)
      → decode_cursor codec cursor ≡ ok offset
      → length (select f result.cases) < offset + fuel
      → read_pages (fetch codec run_id f limit s) fuel cursor
        ≡ map (with_decision s) (drop offset (select f result.cases))
  unfolding read_pages
  read_from zero cursor offset d h =
      sym (ap (map (with_decision s)) (drop_all offset (select f result.cases) (omega (arith, h))))
  read_from (suc fuel) cursor offset d h = rw (fetched cursor offset d) (
      followed (read_pages (fetch codec run_id f limit s) fuel) offset (λ more.
        read_from fuel (some (codec.encode (offset + limit))) (offset + limit)
          (next_decodes (offset + limit)) (omega (arith, h, some_limit))))

  first_decodes : decode_cursor codec none ≡ ok 0
  unfolding decode_cursor
  first_decodes = refl

  -- Where a run has a result, a client that reads the first page and follows the cursors gets, in as
  -- many requests as there are selected cases and one more, exactly these cases in the order of the
  -- queue, each once and with its decision. The limit is at least one, and a cursor is read back as
  -- the offset that it was written for.
  pub read_pages-list_exceptions :
      read_pages (fetch codec run_id f limit s) (suc (length (select f result.cases))) none
      ≡ map (with_decision s) (select f result.cases)
  read_pages-list_exceptions =
      read_from (suc (length (select f result.cases))) none 0 first_decodes (omega arith)
