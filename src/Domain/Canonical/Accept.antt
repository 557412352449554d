-- ===== src/Domain/Canonical/Accept.antt =====
-- What a canonical transaction that was constructed satisfies.
use ai_finance_controller.Common.{
  ◌≡◌, sym, ap, inl, inr, refl, true, false, not, Option, none, some, List, [], ◌∷◌, ◌++◌, any, ◌⊎◌,
  arith, Bool-cases, is_empty,
}
use ai_finance_controller.Common.Int.{ℤ, pos, ◌-ℤ◌, ◌≤ℤ◌, ==ℤ_iff}
use ai_finance_controller.Common.Text.{Text, strip, text_eq, text_eq_refl}
use ai_finance_controller.Common.Result.{ok}
use ai_finance_controller.Domain.Canonical.{
  CanonicalTransaction, lacks_id, has_bad_currency, has_negative_amount, violates_identity,
  has_fee_out_of_scope, norm, fee_bearing, currency_matches, is_utc, post_init, with_flag,
}

-- The invariants that `__post_init__` enforces.
pub record IsCanonical (t : CanonicalTransaction) : Type 0 where
  pub named : is_empty (strip t.external_id) ≡ false
  pub keyed : t.external_id_norm ≡ norm t.external_id
  pub currency_ok : currency_matches t.currency ≡ true
  pub gross_nonneg : pos 0 ≤ℤ t.gross_amount_minor
  pub fee_nonneg : pos 0 ≤ℤ t.fee_amount_minor
  pub tax_nonneg : pos 0 ≤ℤ t.tax_amount_minor
  pub identity :
      t.net_amount_minor ≡ t.gross_amount_minor -ℤ t.fee_amount_minor -ℤ t.tax_amount_minor
  pub fee_scope :
      (fee_bearing t.entity_type ≡ true)
      ⊎ ((t.fee_amount_minor ≡ pos 0) × (t.tax_amount_minor ≡ pos 0))
  pub utc : t.event_at.utcoffset ≡ some (pos 0)

abbrev pub keyed_copy : CanonicalTransaction → CanonicalTransaction
keyed_copy t = record t { external_id_norm = norm t.external_id }

module _ (t : CanonicalTransaction) where
  named_of_test : lacks_id t ≡ false → is_empty (strip t.external_id) ≡ false
  unfolding lacks_id
  named_of_test h = h

  currency_of_test : has_bad_currency t ≡ false → currency_matches t.currency ≡ true
  unfolding has_bad_currency
  currency_of_test h = ground arith

  signs_of_test :
      has_negative_amount t ≡ false
      → (pos 0 ≤ℤ t.gross_amount_minor)
        × (pos 0 ≤ℤ t.fee_amount_minor)
        × (pos 0 ≤ℤ t.tax_amount_minor)
  unfolding has_negative_amount
  signs_of_test h = ground arith

  identity_of_test :
      violates_identity t ≡ false
      → t.net_amount_minor ≡ t.gross_amount_minor -ℤ t.fee_amount_minor -ℤ t.tax_amount_minor
  unfolding violates_identity
  identity_of_test h = ground (
    arith,
    ==ℤ_iff t.net_amount_minor (t.gross_amount_minor -ℤ t.fee_amount_minor -ℤ t.tax_amount_minor),
  )

  scope_of_test :
      has_fee_out_of_scope t ≡ false
      → (fee_bearing t.entity_type ≡ true)
        ⊎ ((t.fee_amount_minor ≡ pos 0) × (t.tax_amount_minor ≡ pos 0))
  unfolding has_fee_out_of_scope
  scope_of_test h = elim (Bool-cases (fee_bearing t.entity_type)) [
    | inl e ↦ inl e
    | inr e ↦
        inr (ground (arith, ==ℤ_iff t.fee_amount_minor (pos 0), ==ℤ_iff t.tax_amount_minor (pos 0)))
  ]

utc_of_test : (o : Option ℤ) → not (is_utc o) ≡ false → o ≡ some (pos 0)
utc_of_test none h = cc
utc_of_test (some x) h = ground (arith, ==ℤ_iff x (pos 0))

module _ (t : CanonicalTransaction) {u : CanonicalTransaction} (made : post_init t ≡ ok u) where
  post_init-tests :
      (lacks_id t ≡ false)
      × (has_bad_currency t ≡ false)
      × (has_negative_amount t ≡ false)
      × (violates_identity t ≡ false)
      × (has_fee_out_of_scope t ≡ false)
      × (not (is_utc t.event_at.utcoffset) ≡ false)
      × (keyed_copy t ≡ u)
  unfolding post_init
  post_init-tests = ground arith

-- A construction that succeeds returns the given fields with the join key filled in, and these
-- satisfy every invariant.
pub post_init-IsCanonical :
    (t : CanonicalTransaction) {u : CanonicalTransaction}
    → post_init t ≡ ok u
    → (keyed_copy t ≡ u) × IsCanonical (keyed_copy t)
post_init-IsCanonical t h =
    let (named, currency, signs, identity, scope, utc, same) = post_init-tests t h in
    let (gross, fee, tax) = signs_of_test t signs in
    (
      same,
      record {
        named = named_of_test t named;
        keyed = refl;
        currency_ok = currency_of_test t currency;
        gross_nonneg = gross;
        fee_nonneg = fee;
        tax_nonneg = tax;
        identity = identity_of_test t identity;
        fee_scope = scope_of_test t scope;
        utc = utc_of_test _ utc;
      },
    )

module _ (t : CanonicalTransaction) (c : IsCanonical t) where
  tests_pass : (lacks_id t ≡ false) × (has_bad_currency t ≡ false) × (has_negative_amount t ≡ false)
  unfolding lacks_id has_bad_currency has_negative_amount
  tests_pass =
      (c.named, rw c.currency_ok, ground (arith, c.gross_nonneg, c.fee_nonneg, c.tax_nonneg))

  identity_passes : violates_identity t ≡ false
  unfolding violates_identity
  identity_passes = rw (
      (==ℤ_iff t.net_amount_minor
          (t.gross_amount_minor -ℤ t.fee_amount_minor -ℤ t.tax_amount_minor)).1
        c.identity)

  scope_passes : has_fee_out_of_scope t ≡ false
  unfolding has_fee_out_of_scope
  scope_passes = elim c.fee_scope [ inl e ↦ rw e | inr (fee, tax) ↦ ground (arith, fee, tax) ]

  keyed_copy_self : keyed_copy t ≡ t
  keyed_copy_self = λ i. record t { external_id_norm = sym c.keyed i }

-- Every transaction that satisfies the invariants is accepted as it is.
pub post_init-accepts : (t : CanonicalTransaction) → IsCanonical t → post_init t ≡ ok t
unfolding post_init
post_init-accepts t c =
    let (a, b, d) = tests_pass t c in
    simp (a, b, d, identity_passes t c, scope_passes t c, c.utc) (ap ok (keyed_copy_self t c))

flagged : Text → CanonicalTransaction → CanonicalTransaction
flagged flag t = record t { data_quality_flags = t.data_quality_flags ++ flag ∷ [] }

flagged-IsCanonical :
    (flag : Text) (t : CanonicalTransaction) → IsCanonical t → IsCanonical (flagged flag t)
unfolding flagged
flagged-IsCanonical flag t c = record {
  named = c.named;
  keyed = c.keyed;
  currency_ok = c.currency_ok;
  gross_nonneg = c.gross_nonneg;
  fee_nonneg = c.fee_nonneg;
  tax_nonneg = c.tax_nonneg;
  identity = c.identity;
  fee_scope = c.fee_scope;
  utc = c.utc;
}

any-append_self : (flag : Text) (flags : List Text) → any (text_eq flag) (flags ++ flag ∷ []) ≡ true
any-append_self flag [] = rw (text_eq_refl flag)
any-append_self flag (f ∷ fs) = ground (arith, any-append_self flag fs)

-- Flagging a valid transaction never raises: it gives a valid one that carries the flag, has the
-- same flags otherwise, and is the same one where the flag was there.
pub with_flag_lem :
    (flag : Text) (t : CanonicalTransaction)
    → IsCanonical t
    → (u : CanonicalTransaction) × (with_flag flag t ≡ ok u)
      × IsCanonical u
      × (any (text_eq flag) u.data_quality_flags ≡ true)
      × ((u ≡ t) ⊎ (u ≡ record t { data_quality_flags = t.data_quality_flags ++ flag ∷ [] }))
unfolding with_flag flagged
with_flag_lem flag t c = elim (Bool-cases (any (text_eq flag) t.data_quality_flags)) [
  | inl e ↦ (t, rw e, c, e, inl refl)
  | inr e ↦ (
    flagged flag t,
    rw e (post_init-accepts (flagged flag t) (flagged-IsCanonical flag t c)),
    flagged-IsCanonical flag t c,
    any-append_self flag t.data_quality_flags,
    inr refl,
  )
]
