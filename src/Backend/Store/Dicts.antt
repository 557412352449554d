-- ===== src/Backend/Store/Dicts.antt =====
-- Reading and mutating all the values of a dictionary, or the one at a key.
use mathlib.Core.Option
use mathlib.Core.Path.{subst}
use mathlib.Core.Option.{some-injective}
use ai_finance_controller.Common.{
  ℕ, suc, ◌≤◌, ◌≡◌, refl, Bool, true, false, ◌||◌, none, some, List, [], ◌∷◌, map, arith,
  if◌then◌else◌, any, find, filter, length, inl, inr, Bool-cases,
}
use ai_finance_controller.Common.Eq.{Eq}
use ai_finance_controller.Common.Dict.{Dict, lookup, insert}

module _ {K V : Type 0} where
  -- `m.values()`
  abbrev pub values : Dict K V → List V
  values = map (λ p. p.1)

  -- `for v in m.values(): ...`, a mutation of each.
  abbrev pub map_values : (V → V) → Dict K V → Dict K V
  map_values f [] = []
  map_values f ((k, v) ∷ m) = (k, f v) ∷ map_values f m

module _ {K V : Type 0} ⦃e : Eq K⦄ where
  -- A mutation of the object at a key.
  unfoldable pub adjust : K → (V → V) → Dict K V → Dict K V
  adjust k f [] = []
  adjust k f ((j, v) ∷ m) = if e.beq j k then (j, f v) ∷ m else (j, v) ∷ adjust k f m

  pub lookup-adjust :
      (k j : K) (f : V → V) (m : Dict K V)
      → lookup j (adjust k f m) ≡ (if e.beq k j then Option.map f (lookup j m) else lookup j m)
  unfolding lookup adjust
  lookup-adjust k j f [] = ground arith
  lookup-adjust k j f ((i, v) ∷ m) =
      ground (arith, e.beq_iff k j, e.beq_iff i k, e.beq_iff i j, lookup-adjust k j f m)

  pub lookup-map_values :
      (j : K) (f : V → V) (m : Dict K V) → lookup j (map_values f m) ≡ Option.map f (lookup j m)
  unfolding lookup
  lookup-map_values j f [] = refl
  lookup-map_values j f ((i, v) ∷ m) = ground (arith, lookup-map_values j f m)

-- The number of values that pass a test.
abbrev pub count : {V : Type 0} → (V → Bool) → List V → ℕ
count p vs = length (filter p vs)

module _ {V : Type 0} (p : V → Bool) where
  pub count-any :
      (vs : List V) (q : V → Bool)
      → ((v : V) → p v ≡ true → q v ≡ true)
      → any q vs ≡ false
      → count p vs ≡ 0
  count-any [] q h e = refl
  count-any (v ∷ vs) q h e = ground (arith, h v, count-any vs q h)

module _ {K V : Type 0} ⦃e : Eq K⦄ (p : V → Bool) where
  pub any-lookup :
      (k : K) (v : V) (m : Dict K V) → lookup k m ≡ some v → p v ≡ true → any p (values m) ≡ true
  unfolding lookup
  any-lookup k v [] h t = cc
  any-lookup k v ((j, w) ∷ m) h t = elim (Bool-cases (e.beq j k)) [
    | inl b ↦ let same : w ≡ v = some-injective _ _ (rw b at h) in rw same (rw t refl)
    | inr b ↦ rw (any-lookup k v m (rw b at h) t) (ground arith)
  ]

  pub any-insert :
      (k : K) (v : V) (m : Dict K V)
      → lookup k m ≡ none
      → any p (values (insert k v m)) ≡ (any p (values m) || p v)
  unfolding lookup insert
  any-insert k v [] h = ground arith
  any-insert k v ((j, w) ∷ m) h = ground (arith, any-insert k v m)

  -- What was not found and is put at a new key is found.
  pub find-insert :
      (k : K) (v : V) (m : Dict K V)
      → lookup k m ≡ none
      → find p (values m) ≡ none
      → p v ≡ true
      → find p (values (insert k v m)) ≡ some v
  unfolding lookup insert
  find-insert k v [] h f t = ground (arith, t)
  find-insert k v ((j, w) ∷ m) h f t = ground (arith, find-insert k v m)

  -- What a search through the values does not find is at no key.
  pub lookup-unfound :
      (k : K) (v : V) (m : Dict K V) → find p (values m) ≡ none → lookup k m ≡ some v → p v ≡ false
  unfolding lookup
  lookup-unfound k v [] f h = cc
  lookup-unfound k v ((j, w) ∷ m) f h = elim (Bool-cases (p w)) [
    | inl t ↦ let clash : some w ≡ none = rw t at f in cc
    | inr t ↦ elim (Bool-cases (e.beq j k)) [
      | inl b ↦ let same : w ≡ v = some-injective _ _ (rw b at h) in subst (λ x. p x ≡ false) same t
      | inr b ↦ lookup-unfound k v m (rw t at f) (rw b at h)
    ]
  ]

  pub any-adjust :
      (k : K) (f : V → V) (m : Dict K V)
      → ((v : V) → p (f v) ≡ p v)
      → any p (values (adjust k f m)) ≡ any p (values m)
  unfolding adjust
  any-adjust k f [] h = refl
  any-adjust k f ((j, w) ∷ m) h = ground (arith, h w, any-adjust k f m h)

  pub any-adjust_keeps :
      (k : K) (f : V → V) (m : Dict K V)
      → ((v : V) → p v ≡ true → p (f v) ≡ true)
      → any p (values m) ≡ true
      → any p (values (adjust k f m)) ≡ true
  unfolding adjust
  any-adjust_keeps k f [] h t = t
  any-adjust_keeps k f ((j, w) ∷ m) h t = ground (arith, h w, any-adjust_keeps k f m h, t)

  pub any-map_values :
      (f : V → V) (m : Dict K V)
      → ((v : V) → p (f v) ≡ p v)
      → any p (values (map_values f m)) ≡ any p (values m)
  any-map_values f [] h = refl
  any-map_values f ((j, w) ∷ m) h = ground (arith, h w, any-map_values f m h)

  pub count-insert_le :
      (k : K) (v : V) (m : Dict K V) → count p (values (insert k v m)) ≤ suc (count p (values m))
  unfolding insert
  count-insert_le k v [] = ground arith
  count-insert_le k v ((j, w) ∷ m) = ground (arith, count-insert_le k v m)

  pub count-insert_fails :
      (k : K) (v : V) (m : Dict K V)
      → p v ≡ false
      → count p (values (insert k v m)) ≤ count p (values m)
  unfolding insert
  count-insert_fails k v [] h = ground arith
  count-insert_fails k v ((j, w) ∷ m) h = ground (arith, count-insert_fails k v m h)

  pub count-adjust_le :
      (k : K) (f : V → V) (m : Dict K V)
      → ((v : V) → p (f v) ≡ true → p v ≡ true)
      → count p (values (adjust k f m)) ≤ count p (values m)
  unfolding adjust
  count-adjust_le k f [] h = omega arith
  count-adjust_le k f ((j, w) ∷ m) h = ground (arith, h w, count-adjust_le k f m h)

  pub count-map_values_le :
      (f : V → V) (m : Dict K V)
      → ((v : V) → p (f v) ≡ true → p v ≡ true)
      → count p (values (map_values f m)) ≤ count p (values m)
  count-map_values_le f [] h = omega arith
  count-map_values_le f ((j, w) ∷ m) h = ground (arith, h w, count-map_values_le f m h)

  pub count-map_values :
      (f : V → V) (m : Dict K V)
      → ((v : V) → p (f v) ≡ p v)
      → count p (values (map_values f m)) ≡ count p (values m)
  count-map_values f [] h = refl
  count-map_values f ((j, w) ∷ m) h = ground (arith, h w, count-map_values f m h)

  pub count-map_values_none :
      (f : V → V) (m : Dict K V)
      → ((v : V) → p (f v) ≡ false)
      → count p (values (map_values f m)) ≡ 0
  count-map_values_none f [] h = refl
  count-map_values_none f ((j, w) ∷ m) h = ground (arith, h w, count-map_values_none f m h)

  pub count-lookup :
      (k : K) (v : V) (m : Dict K V) → lookup k m ≡ some v → p v ≡ true → 1 ≤ count p (values m)
  unfolding lookup
  count-lookup k v [] h t = cc
  count-lookup k v ((j, w) ∷ m) h t = elim (Bool-cases (e.beq j k)) [
    | inl b ↦ let same : w ≡ v = some-injective _ _ (rw b at h) in rw same (rw t (omega arith))
    | inr b ↦ ground (arith, count-lookup k v m (rw b at h) t)
  ]

  -- A value that passes and then fails is one less.
  pub count-adjust_drops :
      (k : K) (v : V) (f : V → V) (m : Dict K V)
      → lookup k m ≡ some v
      → p v ≡ true
      → p (f v) ≡ false
      → suc (count p (values (adjust k f m))) ≡ count p (values m)
  unfolding lookup adjust
  count-adjust_drops k v f [] h t u = cc
  count-adjust_drops k v f ((j, w) ∷ m) h t u = elim (Bool-cases (e.beq j k)) [
    | inl b ↦ let same : w ≡ v = some-injective _ _ (rw b at h) in rw (b, same) (rw (t, u) refl)
    | inr b ↦ let rest = count-adjust_drops k v f m (rw b at h) t u in rw b (ground (arith, rest))
  ]
