-- ===== src/Domain/Money/Allocate/Total.antt =====
-- No unit is lost or invented by the split, and no share is off by a unit or more.
use ai_finance_controller.Common.{
  ◌↔◌, ◌≢◌, ℕ, suc, ◌+◌, ◌-◌, ◌*◌, ◌/◌, ◌≤◌, ◌<◌, ◌≡◌, refl, ◌∙◌, ap, sym, Bool, true, false, some,
  List, [], ◌∷◌, map, arith, length, get_elem?, any, All, length-take, length-map, All-take,
  get_elem?-map,
}
use native.Mathlib.Decide.{dec_lt}
use mathlib.Core.Option.{some-injective}
use ai_finance_controller.Common.Int.{
  ℤ, pos, pos_part, neg_part, abs, sum, ltb_ℤ, ◌-ℤ◌, ◌==ℤ◌, ==ℤ_iff, int_laws,
}
use ai_finance_controller.Common.Sort.{sort, length-sort, sort-All}
use ai_finance_controller.Common.Result.{ok, err}
use ai_finance_controller.Domain.Money.{
  allocation_empty, allocation_negative_weight, allocation_zero_weight,
}
use ai_finance_controller.Domain.Money.Allocate.{
  floors, remainders, larger_first, total, shares, increments, with_sign, allocate_minor,
}
use ai_finance_controller.Domain.Money.Allocate.Shares.{
  weight_total, floors-remainders, length-floors, length-remainders, remainder_total-le, named,
  named-sort, named-take-le, named-remainders, remainders-All, length-add_ones, total-add_ones,
  get_elem?-add_ones, get_elem?-floors,
}

-- Where no weight is negative their sum is that of their magnitudes.
sum-weight_total :
    (ws : List ℤ)
    → any (λ w. ltb_ℤ w (pos 0)) ws ≡ false
    → (pos_part (sum ws) ≡ weight_total ws) × (neg_part (sum ws) ≡ 0)
sum-weight_total [] h = omega arith
sum-weight_total (w ∷ ws) h = grind (int_laws, sum-weight_total ws)

mul_mono : (w a b : ℕ) → a ≤ b → w * a ≤ w * b
mul_mono w a b h = grind arith

-- A product of `w` that is split into `w * f` and a rest of less than `w` for each of `n` parts.
split_bounds : (w f r m n : ℕ) → w * f + r ≡ m * w → r + n ≤ w * n → 0 < w → (f ≤ m) × (m - f ≤ n)
split_bounds w f r m n e h p = (
  elim (dec_lt m f) [ yes l ↦ absurd (omega (arith, mul_mono w (suc m) f l)) | no l ↦ omega arith ],
  elim (dec_lt (f + n) m) [
    | yes l ↦ absurd (omega (arith, mul_mono w (suc (f + n)) m l))
    | no l ↦ omega arith
  ],
)

module _ (m : ℕ) (ws : List ℤ) (tw_pos : 0 < weight_total ws) where
  -- What the floors leave over is less than one unit for each weight.
  shortfall-le :
      (total (floors m (weight_total ws) ws) ≤ m)
      × (m - total (floors m (weight_total ws) ws) ≤ length ws)
  shortfall-le =
      split_bounds (weight_total ws) _ _ m (length ws)
        (floors-remainders m (weight_total ws) 0 ws tw_pos)
        (remainder_total-le m (weight_total ws) 0 ws tw_pos) tw_pos

  length-increments :
      length (increments m (weight_total ws) ws) ≡ m - total (floors m (weight_total ws) ws)
  unfolding increments
  length-increments = length-take _ _ (
      rw
        (
          length-sort larger_first (remainders m (weight_total ws) 0 ws),
          length-remainders m (weight_total ws) 0 ws,
        )
        shortfall-le.1)

  in_range :
      All (λ p. p.1 < length (floors m (weight_total ws) ws)) (increments m (weight_total ws) ws)
  unfolding increments
  in_range = All-take _ _ _ (
      sort-All larger_first _ _ (
        remainders-All m (weight_total ws) 0 _ ws
          (omega (arith, length-floors m (weight_total ws) ws))))

  named_once : (k : ℕ) → named k (increments m (weight_total ws) ws) ≤ 1
  unfolding increments
  named_once k = omega (
    arith,
    named-take-le k (m - total (floors m (weight_total ws) ws))
        (sort larger_first (remainders m (weight_total ws) 0 ws)),
    named-sort k (remainders m (weight_total ws) 0 ws),
    (named-remainders k m (weight_total ws) 0 ws).0,
  )

  total-shares : total (shares m (weight_total ws) ws) ≡ m
  unfolding shares
  total-shares = omega (
    arith,
    shortfall-le,
    length-increments,
    total-add_ones (increments m (weight_total ws) ws) (floors m (weight_total ws) ws) in_range,
  )

  length-shares : length (shares m (weight_total ws) ws) ≡ length ws
  unfolding shares
  length-shares =
      length-add_ones (increments m (weight_total ws) ws) (floors m (weight_total ws) ws)
      ∙ length-floors m (weight_total ws) ws

  shares_near :
      (k : ℕ) {w : ℤ} {x : ℕ}
      → get_elem? ws k ≡ some w
      → get_elem? (shares m (weight_total ws) ws) k ≡ some x
      → (m * pos_part w / weight_total ws ≤ x) × (x ≤ m * pos_part w / weight_total ws + 1)
  unfolding shares
  shares_near k {w} {x} hw hx =
      let base = get_elem?-floors m (weight_total ws) k ws hw in
      let grown = get_elem?-add_ones (increments m (weight_total ws) ws) k _ base in
      let same : x
          ≡ m * pos_part w / weight_total ws + named k (increments m (weight_total ws) ws) =
        some-injective _ _ (sym hx ∙ grown) in
      omega (arith, named_once k)

abs-with_sign : (n : Bool) (x : ℕ) → abs (with_sign n x) ≡ x
unfolding ◌-ℤ◌
abs-with_sign n x = ground arith

sum-with_sign : (n : Bool) (xs : List ℕ) → sum (map (with_sign n) xs) ≡ with_sign n (total xs)
sum-with_sign true [] = omega int_laws
sum-with_sign false [] = refl
sum-with_sign true (x ∷ xs) = rw (sum-with_sign true xs) (omega int_laws)
sum-with_sign false (x ∷ xs) = rw (sum-with_sign false xs) (omega int_laws)

with_sign-abs : (t : ℤ) → with_sign (ltb_ℤ t (pos 0)) (abs t) ≡ t
unfolding ◌-ℤ◌
with_sign-abs t = ground arith

module _ (t : ℤ) (ws : List ℤ) {out : List ℤ} (returned : allocate_minor t ws ≡ ok out) where
  allocate_minor-tests :
      (any (λ w. ltb_ℤ w (pos 0)) ws ≡ false)
      × ((sum ws ==ℤ pos 0) ≡ false)
      × (map (with_sign (ltb_ℤ t (pos 0))) (shares (abs t) (pos_part (sum ws)) ws) ≡ out)
  unfolding allocate_minor
  allocate_minor-tests = ground arith

  weights-pos : (pos_part (sum ws) ≡ weight_total ws) × (0 < weight_total ws)
  weights-pos =
      let (signs, nonzero, _) = allocate_minor-tests in ground (arith, sum-weight_total ws signs)

  -- The shares of a successful allocation add up to the amount, and there is one for each weight.
  pub allocate_minor-total : (sum out ≡ t) × (length out ≡ length ws)
  allocate_minor-total =
      let (_, _, same) = allocate_minor-tests in
      let (is_total, is_pos) = weights-pos in
      rw (← same, is_total)
        (
          sum-with_sign _ _ ∙ ap (with_sign _) (total-shares (abs t) ws is_pos) ∙ with_sign-abs t,
          length-map _ (shares (abs t) (weight_total ws) ws) ∙ length-shares (abs t) ws is_pos,
        )

  -- The magnitude of each share of a successful allocation is its exact proportion of the amount,
  -- rounded down, or one unit more.
  pub allocate_minor_near :
      (k : ℕ) {w share : ℤ}
      → get_elem? ws k ≡ some w
      → get_elem? out k ≡ some share
      → let floor = abs t * pos_part w / pos_part (sum ws) in
        (floor ≤ abs share) × (abs share ≤ floor + 1)
  allocate_minor_near k {w} {share} hw ho =
      let (_, _, same) = allocate_minor-tests in
      let (is_total, is_pos) = weights-pos in
      let found : get_elem?
            (map (with_sign (ltb_ℤ t (pos 0))) (shares (abs t) (weight_total ws) ws)) k
          ≡ some share =
        rw (← is_total, same) ho in
      let (x, here, value) = get_elem?-map _ _ k found in
      rw (is_total, ← value, abs-with_sign) (shares_near (abs t) ws is_pos k hw here)

signed_shares : ℤ → List ℤ → List ℤ
signed_shares t ws = map (with_sign (ltb_ℤ t (pos 0))) (shares (abs t) (pos_part (sum ws)) ws)

ne_test : (a b : ℤ) → a ≢ b → (a ==ℤ b) ≡ false
ne_test a b h = ground (arith, ==ℤ_iff a b)

returned_empty : (t : ℤ) (ws out : List ℤ) → ws ≡ [] → allocate_minor t ws ≡ ok out → ⊥
unfolding allocate_minor
returned_empty t [] out e h = cc
returned_empty t (w ∷ ws) out e h = cc

returned_tests :
    (t w : ℤ) (ws out : List ℤ)
    → allocate_minor t (w ∷ ws) ≡ ok out
    → ((w ∷ ws) ≢ []) × (any (λ w. ltb_ℤ w (pos 0)) (w ∷ ws) ≡ false) × (sum (w ∷ ws) ≢ pos 0)
unfolding allocate_minor
returned_tests t w ws out h =
    ((λ e. cc), ground arith, ground (arith, ==ℤ_iff (sum (w ∷ ws)) (pos 0)))

-- An allocation raises exactly where there are no weights, where a weight is negative, or where
-- the weights sum to zero, in this order; it returns exactly in every other case.
pub allocate_minor_errors :
    (t : ℤ) (ws : List ℤ)
    → ((allocate_minor t ws ≡ err allocation_empty) ↔ (ws ≡ []))
      × ((allocate_minor t ws ≡ err allocation_negative_weight)
          ↔ (any (λ w. ltb_ℤ w (pos 0)) ws ≡ true))
      × ((allocate_minor t ws ≡ err allocation_zero_weight)
          ↔ ((ws ≢ []) × (any (λ w. ltb_ℤ w (pos 0)) ws ≡ false) × (sum ws ≡ pos 0)))
      × (((out : List ℤ) × (allocate_minor t ws ≡ ok out))
          ↔ ((ws ≢ []) × (any (λ w. ltb_ℤ w (pos 0)) ws ≡ false) × (sum ws ≢ pos 0)))
unfolding allocate_minor signed_shares
allocate_minor_errors t [] = (
  ((λ _. refl), (λ _. refl)),
  ((λ h. cc), (λ h. cc)),
  ((λ h. cc), (λ h. absurd (h.0 refl))),
  ((λ h. absurd (returned_empty t [] h.0 refl h.1)), (λ h. absurd (h.0 refl))),
)
allocate_minor_errors t (w ∷ ws) = (
  ground arith,
  ground arith,
  ground (arith, ==ℤ_iff (sum (w ∷ ws)) (pos 0)),
  (
    (λ h. returned_tests t w ws h.0 h.1),
    (λ h. (signed_shares t (w ∷ ws), rw (h.1, ne_test (sum (w ∷ ws)) (pos 0) h.2))),
  ),
)
