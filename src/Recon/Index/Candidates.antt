-- ===== src/Recon/Index/Candidates.antt =====
-- The candidate window: the nested loops with their early return give the first twenty plausible
-- records of the window.
use mathlib.Core.Path.{subst}
use mathlib.Core.List.{append_assoc, append-nil}
use ai_finance_controller.Common.{
  ℕ, zero, suc, ◌+◌, ◌≤◌, ◌<◌, ◌≡◌, refl, sym, ap, ◌∙◌, Bool, true, false, List, [], ◌∷◌, ◌++◌,
  arith, if◌then◌else◌, filter, take, length, length-append, filter-append, ltb, Bool-cases, inl,
  inr, snoc_if,
}
use ai_finance_controller.Common.Int.{ℤ}
use ai_finance_controller.Common.Dict.{get_list}
use ai_finance_controller.Domain.Enums.{EntityType}
use ai_finance_controller.Domain.Canonical.{CanonicalTransaction}
use ai_finance_controller.Recon.Index.{
  TransactionIndex, max_candidates, Scan, collecting, returned, visit, scan_bucket, scan_amounts,
  scan_days, scanned, amounts_around, is_plausible, candidates,
}
use ai_finance_controller.Recon.Index.Keys.{amount_date_key}

-- The records of the window in the order of the loops: by day, then by amount.
abbrev pub on_day : TransactionIndex → (day : ℕ) → List ℤ → List CanonicalTransaction
on_day ix day [] = []
on_day ix day (a ∷ rest) = get_list (a, day) ix.by_amount_date ++ on_day ix day rest

abbrev pub in_window : TransactionIndex → List ℤ → (day left : ℕ) → List CanonicalTransaction
in_window ix amounts day zero = []
in_window ix amounts day (suc left) = on_day ix day amounts ++ in_window ix amounts (day + 1) left

module _ {A : Type 0} where
  take-append : (n : ℕ) (xs ys : List A) → n ≤ length xs → take n (xs ++ ys) ≡ take n xs
  take-append zero xs ys h = refl
  take-append (suc n) [] ys h = absurd (omega arith)
  take-append (suc n) (x ∷ xs) ys h = ap (λ r. x ∷ r) (take-append n xs ys (omega arith))

  take_all : (n : ℕ) (xs : List A) → length xs ≤ n → take n xs ≡ xs
  take_all zero [] h = refl
  take_all zero (x ∷ xs) h = absurd (omega arith)
  take_all (suc n) [] h = refl
  take_all (suc n) (x ∷ xs) h = ap (λ r. x ∷ r) (take_all n xs (omega arith))

-- A scan that has met the plausible records `met` so far.
abbrev pub HasMet : Scan → List CanonicalTransaction → Type 0
HasMet (collecting out) met = (out ≡ met) × (length met ≤ max_candidates)
HasMet (returned out) met = (out ≡ take max_candidates met) × (max_candidates < length met)

visit-HasMet :
    (b : Bool) (c : CanonicalTransaction) (s : Scan) (met : List CanonicalTransaction)
    → HasMet s met
    → HasMet (visit b c s) (if b then met ++ c ∷ [] else met)
unfolding visit
visit-HasMet false c (collecting out) met h = h
visit-HasMet false c (returned out) met h = h
visit-HasMet true c (returned out) met h = (
  h.0 ∙ sym (take-append max_candidates met (c ∷ []) (omega arith)),
  omega (arith, length-append met (c ∷ [])),
)
visit-HasMet true c (collecting out) met h =
    elim (Bool-cases (ltb max_candidates (length (out ++ c ∷ [])))) [
      | inl e ↦ rw e (ap (λ xs. take max_candidates (xs ++ c ∷ [])) h.0, rw h.0 at (above _ e))
      | inr e ↦ rw e (ap (λ xs. xs ++ c ∷ []) h.0, rw h.0 at (within _ e))
    ]
  where
    above : (n : ℕ) → ltb max_candidates n ≡ true → max_candidates < n
    above n e = ground arith

    within : (n : ℕ) → ltb max_candidates n ≡ false → n ≤ max_candidates
    within n e = ground arith

module _ (ix : TransactionIndex) (test : CanonicalTransaction → Bool) where
  scan_bucket-HasMet :
      (cs : List CanonicalTransaction) (s : Scan) (met : List CanonicalTransaction)
      → HasMet s met
      → HasMet (scan_bucket test cs s) (met ++ filter test cs)
  unfolding scan_bucket
  scan_bucket-HasMet [] s met h = rw (append-nil met) h
  scan_bucket-HasMet (c ∷ cs) s met h =
      subst (HasMet (scan_bucket test cs (visit (test c) c s)))
        (snoc_if (test c) met (filter test cs) c)
        (scan_bucket-HasMet cs (visit (test c) c s) _ (visit-HasMet (test c) c s met h))

  scan_amounts-HasMet :
      (day : ℕ) (amounts : List ℤ) (s : Scan) (met : List CanonicalTransaction)
      → HasMet s met
      → HasMet (scan_amounts ix test day amounts s) (met ++ filter test (on_day ix day amounts))
  unfolding scan_amounts
  scan_amounts-HasMet day [] s met h = rw (append-nil met) h
  scan_amounts-HasMet day (a ∷ rest) s met h =
      let bucket = get_list (a, day) ix.by_amount_date in
      rw (filter-append test bucket (on_day ix day rest), ← append_assoc met)
        (scan_amounts-HasMet day rest _ _ (scan_bucket-HasMet bucket s met h))

  pub scan_days-HasMet :
      (amounts : List ℤ) (day left : ℕ) (s : Scan) (met : List CanonicalTransaction)
      → HasMet s met
      → HasMet
          (scan_days ix test amounts day left s)
          (met ++ filter test (in_window ix amounts day left))
  unfolding scan_days
  scan_days-HasMet amounts day zero s met h = rw (append-nil met) h
  scan_days-HasMet amounts day (suc left) s met h =
      rw
        (
          filter-append test (on_day ix day amounts) (in_window ix amounts (day + 1) left),
          ← append_assoc met,
        )
        (scan_days-HasMet amounts (day + 1) left _ _ (scan_amounts-HasMet day amounts s met h))

HasMet-scanned :
    (s : Scan) (met : List CanonicalTransaction)
    → HasMet s met
    → scanned s ≡ take max_candidates met
HasMet-scanned (collecting out) met h = h.0 ∙ sym (take_all max_candidates met h.1)
HasMet-scanned (returned out) met h = h.0

pub candidates_lem :
    (ix : TransactionIndex) (subject : CanonicalTransaction) (types : List EntityType) (window : ℕ)
    (tolerance : ℤ) (include_consumed : Bool)
    → candidates ix subject types window tolerance include_consumed
      ≡ take max_candidates (
          filter (is_plausible ix subject types include_consumed) (
            in_window ix
              (amounts_around subject.net_amount_minor tolerance)
              subject.business_date
              (suc window)))
unfolding candidates
candidates_lem ix subject types window tolerance include_consumed = HasMet-scanned _ _ (
    scan_days-HasMet ix (is_plausible ix subject types include_consumed)
      (amounts_around subject.net_amount_minor tolerance) subject.business_date (suc window)
      (collecting []) [] (refl, omega arith))
