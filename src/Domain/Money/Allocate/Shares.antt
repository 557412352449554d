-- ===== src/Domain/Money/Allocate/Shares.antt =====
-- The parts of the largest-remainder method: the increments go to different, existing shares.
use ai_finance_controller.Common.{
  ℕ, zero, suc, ◌+◌, ◌*◌, ◌/◌, ◌≤◌, ◌<◌, ◌≡◌, refl, ◌∙◌, List, [], ◌∷◌, arith, ◌==◌, if◌then◌else◌,
  Bool-cases, length, take, All, inl, inr, some, get_elem?, ap,
}
use mathlib.Core.Option.{some-injective}
use ai_finance_controller.Common.Int.{ℤ, pos_part}
use ai_finance_controller.Common.Sort.{insert, sort}
use ai_finance_controller.Domain.Money.Allocate.{
  floors, remainders, larger_first, add_one_at, add_ones, total,
}

-- The sum of the weights, as magnitudes.
abbrev pub weight_total : List ℤ → ℕ
weight_total [] = 0
weight_total (w ∷ ws) = pos_part w + weight_total ws

abbrev pub remainder_total : List (ℕ × ℕ) → ℕ
remainder_total [] = 0
remainder_total ((r, i) ∷ rs) = r + remainder_total rs

-- The floors and the remainders account for the whole product.
pub floors-remainders :
    (m tw i : ℕ) (ws : List ℤ)
    → 0 < tw
    → tw * total (floors m tw ws) + remainder_total (remainders m tw i ws) ≡ m * weight_total ws
unfolding floors remainders
floors-remainders m tw i [] h = grind arith
floors-remainders m tw i (w ∷ ws) h = omega (arith, floors-remainders m tw (suc i) ws h)

pub length-floors : (m tw : ℕ) (ws : List ℤ) → length (floors m tw ws) ≡ length ws
unfolding floors
length-floors m tw [] = refl
length-floors m tw (w ∷ ws) = omega (arith, length-floors m tw ws)

pub length-remainders : (m tw i : ℕ) (ws : List ℤ) → length (remainders m tw i ws) ≡ length ws
unfolding remainders
length-remainders m tw i [] = refl
length-remainders m tw i (w ∷ ws) = omega (arith, length-remainders m tw (suc i) ws)

-- Each remainder is below the divisor.
pub remainder_total-le :
    (m tw i : ℕ) (ws : List ℤ)
    → 0 < tw
    → remainder_total (remainders m tw i ws) + length ws ≤ tw * length ws
unfolding remainders
remainder_total-le m tw i [] h = omega arith
remainder_total-le m tw i (w ∷ ws) h = omega (arith, remainder_total-le m tw (suc i) ws h)

-- How often an index is named.
abbrev pub named : ℕ → List (ℕ × ℕ) → ℕ
named k [] = 0
named k ((r, i) ∷ rs) = (if i == k then 1 else 0) + named k rs

pub named-insert :
    (k : ℕ) (p : ℕ × ℕ) (rs : List (ℕ × ℕ)) → named k (insert larger_first p rs) ≡ named k (p ∷ rs)
unfolding insert
named-insert k p [] = refl
named-insert k p (q ∷ rs) = elim (Bool-cases (larger_first p q)) [
  | inl e ↦ rw e
  | inr e ↦ rw e (omega (arith, named-insert k p rs))
]

pub named-sort : (k : ℕ) (rs : List (ℕ × ℕ)) → named k (sort larger_first rs) ≡ named k rs
unfolding sort
named-sort k [] = refl
named-sort k (p ∷ rs) = named-insert k p (sort larger_first rs) ∙ omega (arith, named-sort k rs)

pub named-take-le : (k n : ℕ) (rs : List (ℕ × ℕ)) → named k (take n rs) ≤ named k rs
named-take-le k zero rs = omega arith
named-take-le k (suc n) [] = omega arith
named-take-le k (suc n) (p ∷ rs) = omega (arith, named-take-le k n rs)

-- The remainders name each index of the list once, and no other.
pub named-remainders :
    (k m tw i : ℕ) (ws : List ℤ)
    → (named k (remainders m tw i ws) ≤ 1)
      × (k < i → named k (remainders m tw i ws) ≡ 0)
      × (i + length ws ≤ k → named k (remainders m tw i ws) ≡ 0)
unfolding remainders
named-remainders k m tw i [] = omega arith
named-remainders k m tw i (w ∷ ws) = ground (arith, named-remainders k m tw (suc i) ws)

-- Every index lies in the list.
pub remainders-All :
    (m tw i n : ℕ) (ws : List ℤ) → i + length ws ≤ n → All (λ p. p.1 < n) (remainders m tw i ws)
unfolding remainders
remainders-All m tw i n [] h = tt
remainders-All m tw i n (w ∷ ws) h = (omega arith, remainders-All m tw (suc i) n ws (omega arith))

pub length-add_one_at : (i : ℕ) (xs : List ℕ) → length (add_one_at i xs) ≡ length xs
unfolding add_one_at
length-add_one_at i [] = refl
length-add_one_at zero (x ∷ xs) = refl
length-add_one_at (suc i) (x ∷ xs) = omega (arith, length-add_one_at i xs)

pub length-add_ones : (rs : List (ℕ × ℕ)) (xs : List ℕ) → length (add_ones rs xs) ≡ length xs
unfolding add_ones
length-add_ones [] xs = refl
length-add_ones ((r, i) ∷ rs) xs = length-add_ones rs (add_one_at i xs) ∙ length-add_one_at i xs

total-add_one_at : (i : ℕ) (xs : List ℕ) → i < length xs → total (add_one_at i xs) ≡ suc (total xs)
unfolding add_one_at
total-add_one_at i [] h = absurd (omega arith)
total-add_one_at zero (x ∷ xs) h = omega arith
total-add_one_at (suc i) (x ∷ xs) h = omega (arith, total-add_one_at i xs)

-- Each increment of an existing share adds one unit to the sum.
pub total-add_ones :
    (rs : List (ℕ × ℕ)) (xs : List ℕ)
    → All (λ p. p.1 < length xs) rs
    → total (add_ones rs xs) ≡ total xs + length rs
unfolding add_ones
total-add_ones [] xs h = omega arith
total-add_ones ((r, i) ∷ rs) xs h = omega (
  arith,
  total-add_ones rs (add_one_at i xs) (rw (length-add_one_at i xs) h.1),
  total-add_one_at i xs h.0,
)

get_elem?-add_one_at :
    (i k : ℕ) (xs : List ℕ) {x : ℕ}
    → get_elem? xs k ≡ some x
    → get_elem? (add_one_at i xs) k ≡ some (x + (if i == k then 1 else 0))
unfolding add_one_at
get_elem?-add_one_at i k [] h = cc
get_elem?-add_one_at zero zero (x ∷ xs) h = ground arith
get_elem?-add_one_at zero (suc k) (x ∷ xs) h = ground arith
get_elem?-add_one_at (suc i) zero (x ∷ xs) h = ground arith
get_elem?-add_one_at (suc i) (suc k) (x ∷ xs) h = ground (arith, get_elem?-add_one_at i k xs h)

-- A share grows by as much as its index is named.
pub get_elem?-add_ones :
    (rs : List (ℕ × ℕ)) (k : ℕ) (xs : List ℕ) {x : ℕ}
    → get_elem? xs k ≡ some x
    → get_elem? (add_ones rs xs) k ≡ some (x + named k rs)
unfolding add_ones
get_elem?-add_ones [] k xs h = ground arith
get_elem?-add_ones ((r, i) ∷ rs) k xs h =
    get_elem?-add_ones rs k (add_one_at i xs) (get_elem?-add_one_at i k xs h)
    ∙ ap some (omega arith)

pub get_elem?-floors :
    (m tw k : ℕ) (ws : List ℤ) {w : ℤ}
    → get_elem? ws k ≡ some w
    → get_elem? (floors m tw ws) k ≡ some (m * pos_part w / tw)
unfolding floors
get_elem?-floors m tw k [] h = cc
get_elem?-floors m tw zero (w ∷ ws) h = ap (λ v. some (m * pos_part v / tw)) (some-injective _ _ h)
get_elem?-floors m tw (suc k) (w ∷ ws) h = get_elem?-floors m tw k ws h
