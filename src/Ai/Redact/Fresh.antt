-- ===== src/Ai/Redact/Fresh.antt =====
-- Among more names than a dictionary has, one is not in it.
use ai_finance_controller.Common.{
  ℕ, zero, suc, ◌≤◌, ◌<◌, ◌≡◌, refl, sym, ap, ◌∙◌, ◌⊎◌, inl, inr, true, false, none, [], ◌∷◌, arith,
  ltb, length, if◌then◌else◌, Bool-cases,
}
use ai_finance_controller.Common.Text.{Text, text_eq, text_eq_refl}
use ai_finance_controller.Common.Keys.{text_key, text_cases}
use ai_finance_controller.Common.Dict.{Dict, lookup}

-- The names of a sequence are different.
abbrev pub IsInjective : (ℕ → Text) → Type 0
IsInjective f = (i j : ℕ) → f i ≡ f j → i ≡ j

-- A name is in the sequence, or not among the first ones.
hits : (f : ℕ → Text) (k : Text) (n : ℕ) → ((j : ℕ) × (f j ≡ k)) ⊎ ((i : ℕ) → i < n → f i ≡ k → ⊥)
hits f k zero = inr (λ i h e. omega arith)
hits f k (suc n) = elim (text_cases (f n) k) [
  | inl e ↦ inl (n, e)
  | inr e ↦ elim (hits f k n) [
    | inl found ↦ inl found
    | inr rest ↦ inr (λ i h q. last_apart f k n i e h q (rest i))
  ]
]
  where
    last_apart :
        (f : ℕ → Text) (k : Text) (n i : ℕ)
        → text_eq (f n) k ≡ false
        → i < suc n
        → f i ≡ k
        → (i < n → f i ≡ k → ⊥)
        → ⊥
    last_apart f k n i e h q rest = elim (Bool-cases (ltb i n)) [
      | inl l ↦ rest (ground (arith, l)) q
      | inr l ↦
          let same : i ≡ n = ground (arith, l, h) in
          let hit : text_eq (f n) k ≡ true = rw (sym (ap f same) ∙ q) (text_eq_refl k) in
          absurd (ground (arith, hit, e))
    ]

lookup_miss :
    (k x v : Text) (m : Dict Text Text)
    → (k ≡ x → ⊥)
    → lookup x m ≡ none
    → lookup x ((k, v) ∷ m) ≡ none
unfolding lookup
lookup_miss k x v m a h = elim (text_cases k x) [ inl e ↦ absurd (a e) | inr e ↦ rw e h ]

-- The sequence without its name at `j`.
abbrev skip_index : (j i : ℕ) → ℕ
skip_index j i = if ltb i j then i else suc i

skip_index-injective : (j a b : ℕ) → skip_index j a ≡ skip_index j b → a ≡ b
skip_index-injective j a b e = ground (arith, e)

skip_index_apart : (j i : ℕ) → skip_index j i ≡ j → ⊥
skip_index_apart j i e = ground (arith, e)

skip_index_le : (j i n : ℕ) → i ≤ n → skip_index j i ≤ suc n
skip_index_le j i n h = ground (arith, h)

-- One of the first names is at no key, if there is one more of them than keys.
pub free_name :
    (m : Dict Text Text) (f : ℕ → Text)
    → IsInjective f
    → (i : ℕ) × (i ≤ length m) × (lookup (f i) m ≡ none)
unfolding lookup
free_name [] f inj = (0, omega arith, refl)
free_name ((k, v) ∷ m) f inj = elim (hits f k (suc (length m))) [
  | inl (j, e) ↦
      let (i, le, free) =
        free_name m (λ i. f (skip_index j i)) (λ a b q. skip_index-injective j a b (inj _ _ q)) in
      (
        skip_index j i,
        skip_index_le j i (length m) le,
        lookup_miss k (f (skip_index j i)) v m (λ q. skip_index_apart j i (inj _ _ (sym (e ∙ q))))
            free,
      )
  | inr apart ↦
      let (i, le, free) = free_name m f inj in
      (
        i,
        omega (arith, le),
        lookup_miss k (f i) v m (λ q. apart i (omega (arith, le)) (sym q)) free,
      )
]
