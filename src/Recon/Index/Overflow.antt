-- ===== src/Recon/Index/Overflow.antt =====
-- Where `candidates` of packages/reconciliation/ledgergraph_reconciliation/index.py raises: it adds
-- days to a business date, and a day behind 9999-12-31 is an OverflowError. A business date is its
-- `toordinal()`.
use ai_finance_controller.Common.{
  ℕ, zero, suc, ◌+◌, ◌≤◌, ◌≡◌, refl, ap, ◌∙◌, Bool, true, false, ◌&&◌, ◌||◌, List, [], ◌∷◌, arith,
  filter, length, ltb, leb,
}
use ai_finance_controller.Common.Int.{ℤ}
use ai_finance_controller.Common.Dict.{get_list}
use ai_finance_controller.Domain.Enums.{EntityType}
use ai_finance_controller.Domain.Canonical.{CanonicalTransaction}
use ai_finance_controller.Recon.Index.{
  TransactionIndex, max_candidates, Scan, collecting, returned, visit, scan_bucket, scan_amounts,
  scan_days, amounts_around, is_plausible,
}
use ai_finance_controller.Recon.Index.Keys.{amount_date_key}
use ai_finance_controller.Recon.Index.Candidates.{in_window, HasMet, scan_days-HasMet}

-- `date.max.toordinal()`
abbrev pub max_ordinal : ℕ
max_ordinal = 3_652_059

-- The loop over the days, which raises where it comes to such a day before it returns.
unfoldable pub scan_overflows :
    TransactionIndex → (CanonicalTransaction → Bool) → List ℤ → (day left : ℕ) → Scan → Bool
scan_overflows ix test amounts day zero s = false
scan_overflows ix test amounts day (suc left) (returned out) = false
scan_overflows ix test amounts day (suc left) (collecting out) =
    ltb max_ordinal day
    || scan_overflows ix test amounts (day + 1) left
        (scan_amounts ix test day amounts (collecting out))

unfoldable pub candidates_overflow :
    TransactionIndex
    → (subject : CanonicalTransaction) (entity_types : List EntityType) (window_days : ℕ)
      (amount_tolerance_minor : ℤ) (include_consumed : Bool)
    → Bool
candidates_overflow ix subject entity_types window_days tolerance include_consumed =
    scan_overflows ix (is_plausible ix subject entity_types include_consumed)
      (amounts_around subject.net_amount_minor tolerance) subject.business_date (suc window_days)
      (collecting [])

-- A window that ends by 9999-12-31 is scanned to its end.
pub scan-fits :
    (ix : TransactionIndex) (test : CanonicalTransaction → Bool) (amounts : List ℤ) (day left : ℕ)
    (s : Scan)
    → day + left ≤ max_ordinal + 1
    → scan_overflows ix test amounts day left s ≡ false
unfolding scan_overflows
scan-fits ix test amounts day zero s h = refl
scan-fits ix test amounts day (suc left) (returned out) h = refl
scan-fits ix test amounts day (suc left) (collecting out) h = ground (
  arith,
  scan-fits ix test amounts (day + 1) left (scan_amounts ix test day amounts (collecting out))
      (omega arith),
)

abbrev is_collecting : Scan → Bool
is_collecting (collecting out) = true
is_collecting (returned out) = false

HasMet-is_collecting :
    (s : Scan) (met : List CanonicalTransaction)
    → HasMet s met
    → is_collecting s ≡ leb (length met) max_candidates
HasMet-is_collecting (collecting out) met h = ground (arith, h.1)
HasMet-is_collecting (returned out) met h = ground (arith, h.1)

module _ (ix : TransactionIndex) (test : CanonicalTransaction → Bool) where
  scan_bucket-returned :
      (out cs : List CanonicalTransaction) → scan_bucket test cs (returned out) ≡ returned out
  unfolding scan_bucket visit
  scan_bucket-returned out [] = refl
  scan_bucket-returned out (c ∷ cs) = scan_bucket-returned out cs

  scan_amounts-returned :
      (day : ℕ) (amounts : List ℤ) (out : List CanonicalTransaction)
      → scan_amounts ix test day amounts (returned out) ≡ returned out
  unfolding scan_amounts
  scan_amounts-returned day [] out = refl
  scan_amounts-returned day (a ∷ rest) out =
      rw (scan_bucket-returned out (get_list (a, day) ix.by_amount_date))
        (scan_amounts-returned day rest out)

  scan_days-returned :
      (amounts : List ℤ) (day left : ℕ) (out : List CanonicalTransaction)
      → scan_days ix test amounts day left (returned out) ≡ returned out
  unfolding scan_days
  scan_days-returned amounts day zero out = refl
  scan_days-returned amounts day (suc left) out =
      rw (scan_amounts-returned day amounts out) (scan_days-returned amounts (day + 1) left out)

  -- With `n` days left in the calendar the loop raises where it has more days to go and is not done
  -- after those `n`.
  scan_overflows_lem :
      (amounts : List ℤ) (day n left : ℕ) (s : Scan)
      → day + n ≡ max_ordinal + 1
      → scan_overflows ix test amounts day left s
        ≡ (ltb n left && is_collecting (scan_days ix test amounts day n s))
  unfolding scan_overflows scan_days
  scan_overflows_lem amounts day n zero s h = ground arith
  scan_overflows_lem amounts day n (suc left) (returned out) h =
      rw (scan_days-returned amounts day n out) (ground arith)
  scan_overflows_lem amounts day zero (suc left) (collecting out) h = ground arith
  scan_overflows_lem amounts day (suc n) (suc left) (collecting out) h = ground (
    arith,
    scan_overflows_lem amounts (day + 1) n left (scan_amounts ix test day amounts (collecting out))
        (omega arith),
  )

-- The search for candidates raises exactly if its window is longer than the days that are left in
-- the calendar and at most twenty plausible records lie on those days; `n` is the number of days
-- from the subject's date to 9999-12-31, both counted.
pub candidates_overflow_lem :
    (ix : TransactionIndex) (subject : CanonicalTransaction) (types : List EntityType)
    (window n : ℕ) (tolerance : ℤ) (include_consumed : Bool)
    → subject.business_date + n ≡ max_ordinal + 1
    → candidates_overflow ix subject types window tolerance include_consumed ≡ (
        ltb n (suc window)
        && leb
            (length (
              filter (is_plausible ix subject types include_consumed) (
                in_window ix
                  (amounts_around subject.net_amount_minor tolerance)
                  subject.business_date
                  n)))
            max_candidates)
unfolding candidates_overflow
candidates_overflow_lem ix subject types window n tolerance include_consumed h =
    let test = is_plausible ix subject types include_consumed in
    let amounts = amounts_around subject.net_amount_minor tolerance in
    scan_overflows_lem ix test amounts subject.business_date n (suc window) (collecting []) h
    ∙ ap (λ b. ltb n (suc window) && b)
        (HasMet-is_collecting (scan_days ix test amounts subject.business_date n (collecting [])) _
          (scan_days-HasMet ix test amounts subject.business_date n (collecting []) []
            (refl, omega arith)))
