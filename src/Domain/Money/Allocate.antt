-- ===== src/Domain/Money/Allocate.antt =====
-- `allocate_minor` of packages/domain/ledgergraph_domain/money.py: the largest-remainder method.
pub mod Shares
pub mod Total
use ai_finance_controller.Common.{
  ℕ, zero, suc, ◌+◌, ◌-◌, ◌*◌, ◌/◌, ◌%◌, Bool, List, [], ◌∷◌, map, ltb, ◌==◌, ◌||◌, ◌&&◌,
  if◌then◌else◌, take, any, is_empty,
}
use ai_finance_controller.Common.Int.{ℤ, pos, pos_part, ◌-ℤ◌, ◌==ℤ◌, ltb_ℤ, abs, sum}
use ai_finance_controller.Common.Sort.{sort}
use ai_finance_controller.Common.Result.{Result, ok, err, ◌>>=◌, ◌>>◌, raise_if}
use ai_finance_controller.Domain.Money.{
  MoneyError, allocation_empty, allocation_negative_weight, allocation_zero_weight,
}

-- The loop over the weights, which are not negative here: the floors, and the remainder
-- numerators with the index that each belongs to.
unfoldable pub floors : (magnitude total_weight : ℕ) → List ℤ → List ℕ
floors magnitude total_weight [] = []
floors magnitude total_weight (w ∷ ws) =
    magnitude * pos_part w / total_weight ∷ floors magnitude total_weight ws

unfoldable pub remainders : (magnitude total_weight index : ℕ) → List ℤ → List (ℕ × ℕ)
remainders magnitude total_weight i [] = []
remainders magnitude total_weight i (w ∷ ws) =
    (magnitude * pos_part w % total_weight, i) ∷ remainders magnitude total_weight (suc i) ws

-- The key `(-remainder, index)`.
unfoldable pub larger_first : ℕ × ℕ → ℕ × ℕ → Bool
larger_first (r, i) (s, j) = ltb s r || (r == s && (ltb i j || i == j))

-- `floors[idx] += 1`
unfoldable pub add_one_at : ℕ → List ℕ → List ℕ
add_one_at i [] = []
add_one_at zero (x ∷ xs) = suc x ∷ xs
add_one_at (suc i) (x ∷ xs) = x ∷ add_one_at i xs

-- `for _, idx in ...: floors[idx] += 1`
unfoldable pub add_ones : List (ℕ × ℕ) → List ℕ → List ℕ
unfolding add_one_at
add_ones [] xs = xs
add_ones ((r, i) ∷ rest) xs = add_ones rest (add_one_at i xs)

abbrev pub total : List ℕ → ℕ
total [] = 0
total (x ∷ xs) = x + total xs

-- `remainders[:shortfall]` after the sort.
unfoldable pub increments : (magnitude total_weight : ℕ) → List ℤ → List (ℕ × ℕ)
increments magnitude total_weight weights =
    let shortfall = magnitude - total (floors magnitude total_weight weights) in
    take shortfall (sort larger_first (remainders magnitude total_weight 0 weights))

-- The magnitudes of the shares.
unfoldable pub shares : (magnitude total_weight : ℕ) → List ℤ → List ℕ
shares magnitude total_weight weights =
    add_ones (increments magnitude total_weight weights) (floors magnitude total_weight weights)

-- `sign * amount`
abbrev pub with_sign : Bool → ℕ → ℤ
with_sign negative amount = if negative then pos 0 -ℤ pos amount else pos amount

unfoldable pub allocate_minor : ℤ → List ℤ → Result MoneyError (List ℤ)
allocate_minor total_minor weights = do
  raise_if (is_empty weights) allocation_empty
  raise_if (any (λ w. ltb_ℤ w (pos 0)) weights) allocation_negative_weight
  raise_if (sum weights ==ℤ pos 0) allocation_zero_weight
  ok (
      map (with_sign (ltb_ℤ total_minor (pos 0)))
        (shares (abs total_minor) (pos_part (sum weights)) weights))
