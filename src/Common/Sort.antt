-- ===== src/Common/Sort.antt =====
-- Python's stable sort by a key: `before x y` says that the key of `x` is at most that of `y`.
use Prim.Native.Nat.{suc}
use mathlib.Core.Path.{◌≡◌, refl}
use mathlib.Core.Logic.{inl, inr}
use mathlib.Core.Bool.{Bool, true, false}
use mathlib.Core.List.{List, [], ◌∷◌, Perm}
use mathlib.Core.List.Perm
use native.Mathlib.Omega.{arith}
use ai_finance_controller.Common.Tests.{if◌then◌else◌, Bool-cases}
use ai_finance_controller.Common.Lists.{In, All, length}

module _ {ℓ} {A : Type ℓ} (before : A → A → Bool) where
  -- A later element goes behind its equals, which keeps the sort stable.
  unfoldable pub insert : A → List A → List A
  insert x [] = x ∷ []
  insert x (y ∷ ys) = if before x y then x ∷ y ∷ ys else y ∷ insert x ys

  unfoldable pub sort : List A → List A
  unfolding insert
  sort [] = []
  sort (x ∷ xs) = insert x (sort xs)

  abbrev pub IsSorted : List A → Type 0
  IsSorted [] = Unit
  IsSorted (x ∷ xs) = All (λ y. before x y ≡ true) xs × IsSorted xs

  pub insert-perm : (x : A) (ys : List A) → Perm (insert x ys) (x ∷ ys)
  unfolding insert
  insert-perm x [] = Perm.refl _
  insert-perm x (y ∷ ys) = elim (Bool-cases (before x y)) [
    | inl e ↦ rw e (Perm.refl _)
    | inr e ↦ rw e (Perm.trans (Perm.cons y (insert-perm x ys)) (Perm.swap _ _ _))
  ]

  pub sort-perm : (xs : List A) → Perm (sort xs) xs
  unfolding sort
  sort-perm [] = Perm.refl _
  sort-perm (x ∷ xs) = Perm.trans (insert-perm x (sort xs)) (Perm.cons x (sort-perm xs))

  pub length-insert : (x : A) (ys : List A) → length (insert x ys) ≡ suc (length ys)
  unfolding insert
  length-insert x [] = refl
  length-insert x (y ∷ ys) = ground (arith, length-insert x ys)

  pub length-sort : (xs : List A) → length (sort xs) ≡ length xs
  unfolding sort
  length-sort [] = refl
  length-sort (x ∷ xs) = omega (arith, length-insert x (sort xs), length-sort xs)

  insert-All {κ} : (P : A → Type κ) (x : A) (ys : List A) → P x → All P ys → All P (insert x ys)
  unfolding insert
  insert-All P x [] h a = (h, tt)
  insert-All P x (y ∷ ys) h a = elim (Bool-cases (before x y)) [
    | inl e ↦ rw e (h, a)
    | inr e ↦ rw e (a.0, insert-All P x ys h a.1)
  ]

  pub sort-All {κ} : (P : A → Type κ) (xs : List A) → All P xs → All P (sort xs)
  unfolding sort
  sort-All P [] h = tt
  sort-All P (x ∷ xs) h = insert-All P x (sort xs) h.0 (sort-All P xs h.1)

  module _ (total : (x y : A) → before x y ≡ false → before y x ≡ true)
      (trans : (x y z : A) → before x y ≡ true → before y z ≡ true → before x z ≡ true) where
    All-weaken :
        (x y : A) (ys : List A)
        → before x y ≡ true
        → All (λ z. before y z ≡ true) ys
        → All (λ z. before x z ≡ true) ys
    All-weaken x y [] h a = tt
    All-weaken x y (z ∷ zs) h a = (trans x y z h a.0, All-weaken x y zs h a.1)

    All-insert :
        (y x : A) (ys : List A)
        → before y x ≡ true
        → All (λ z. before y z ≡ true) ys
        → All (λ z. before y z ≡ true) (insert x ys)
    unfolding insert
    All-insert y x [] h a = (h, tt)
    All-insert y x (z ∷ zs) h a = elim (Bool-cases (before x z)) [
      | inl e ↦ rw e (h, a)
      | inr e ↦ rw e (a.0, All-insert y x zs h a.1)
    ]

    insert-IsSorted : (x : A) (ys : List A) → IsSorted ys → IsSorted (insert x ys)
    unfolding insert
    insert-IsSorted x [] s = (tt, tt)
    insert-IsSorted x (y ∷ ys) s = elim (Bool-cases (before x y)) [
      | inl e ↦ rw e ((e, All-weaken x y ys e s.0), s)
      | inr e ↦ rw e (All-insert y x ys (total x y e) s.0, insert-IsSorted x ys s.1)
    ]

    pub sort-IsSorted : (xs : List A) → IsSorted (sort xs)
    unfolding sort
    sort-IsSorted [] = tt
    sort-IsSorted (x ∷ xs) = insert-IsSorted x (sort xs) (sort-IsSorted xs)

module _ {A : Type 0} (before : A → A → Bool) where
  pub In-insert : (a x : A) (ys : List A) → In a (x ∷ ys) → In a (insert before x ys)
  unfolding insert
  In-insert a x [] h = h
  In-insert a x (y ∷ ys) h = elim (Bool-cases (before x y)) [
    | inl e ↦ rw e h
    | inr e ↦ rw e (past (λ k. In-insert a x ys k) h)
  ]
    where
      past :
          (In a (x ∷ ys) → In a (insert before x ys))
          → In a (x ∷ y ∷ ys)
          → In a (y ∷ insert before x ys)
      past ih (inl p) = inr (ih (inl p))
      past ih (inr (inl p)) = inl p
      past ih (inr (inr p)) = inr (ih (inr p))

  pub In-sort : (a : A) (xs : List A) → In a xs → In a (sort before xs)
  unfolding sort
  In-sort a [] h = h
  In-sort a (x ∷ xs) (inl e) = In-insert a x (sort before xs) (inl e)
  In-sort a (x ∷ xs) (inr h) = In-insert a x (sort before xs) (inr (In-sort a xs h))
