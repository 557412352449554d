-- ===== src/Ai/Redact/Resolve.antt =====
-- The loop over the suffixes ends, with a name that no other value has.
use mathlib.Core.Path.{subst}
use mathlib.Core.Option.{some-injective}
use ai_finance_controller.Common.{
  ℕ, zero, suc, ◌+◌, ◌/◌, ◌%◌, ◌≤◌, ◌<◌, ◌≡◌, refl, sym, ap, inl, inr, false, none, some, [], ◌∷◌,
  ◌++◌, arith, ltb, length, length-append, Bool-cases,
}
use ai_finance_controller.Common.Text.{Text}
use ai_finance_controller.Common.Keys.{text_key}
use ai_finance_controller.Common.Dict.{Dict, lookup}
use ai_finance_controller.Ai.Redact.{digits_from, digits, candidate, is_taken, resolve}
use ai_finance_controller.Ai.Redact.Decimal.{digits-injective}
use ai_finance_controller.Ai.Redact.Fresh.{IsInjective}

append_cancel : (s a b : Text) → s ++ a ≡ s ++ b → a ≡ b
append_cancel [] a b e = e
append_cancel (x ∷ s) a b e = append_cancel s a b (cc)

digits-length : (n : ℕ) → 1 ≤ length (digits n)
unfolding digits digits_from
digits-length n = elim (Bool-cases (ltb n 10)) [
  | inl e ↦ rw e (omega arith)
  | inr e ↦ rw (e, length-append (digits_from n (n / 10)) ((b'0' + n % 10) ∷ [])) (omega arith)
]

append_nonempty : (s : Text) (n : ℕ) → s ≡ s ++ digits (suc n) → ⊥
append_nonempty [] n e =
    let bare : 0 ≡ length (digits (suc n)) = ap length e in
    absurd (omega (arith, bare, digits-length (suc n)))
append_nonempty (x ∷ s) n e = append_nonempty s n (cc)

pub candidate-IsInjective : (stem : Text) → IsInjective (candidate stem)
candidate-IsInjective stem zero zero e = refl
candidate-IsInjective stem zero (suc n) e = absurd (append_nonempty stem n e)
candidate-IsInjective stem (suc m) zero e = absurd (append_nonempty stem m (sym e))
candidate-IsInjective stem (suc m) (suc n) e =
    digits-injective (suc m) (suc n) (append_cancel stem (digits (suc m)) (digits (suc n)) e)

free_untaken :
    (name value : Text) (m : Dict Text Text) → lookup name m ≡ none → is_taken name value m ≡ false
unfolding is_taken
free_untaken name value m h = rw h refl

-- The loop ends where a name is free, on the fuel up to it.
pub resolve-some :
    (fuel suffix : ℕ) (stem value : Text) (m : Dict Text Text) (i : ℕ)
    → i < fuel
    → lookup (candidate stem (suffix + i)) m ≡ none
    → (name : Text) × (resolve fuel suffix stem value m ≡ some name)
unfolding resolve
resolve-some zero suffix stem value m i h f = absurd (omega arith)
resolve-some (suc fuel) suffix stem value m zero h f =
    let here : lookup (candidate stem suffix) m ≡ none =
      subst (λ n. lookup (candidate stem n) m ≡ none) (omega arith) f in
    (candidate stem suffix, rw (free_untaken (candidate stem suffix) value m here) refl)
resolve-some (suc fuel) suffix stem value m (suc i) h f =
    elim (Bool-cases (is_taken (candidate stem suffix) value m)) [
      | inl e ↦
          let there : lookup (candidate stem (suc suffix + i)) m ≡ none =
            subst (λ n. lookup (candidate stem n) m ≡ none) (omega arith) f in
          let (name, r) = resolve-some fuel (suc suffix) stem value m i (omega (arith, h)) there in
          (name, rw e r)
      | inr e ↦ (candidate stem suffix, rw e refl)
    ]

pub resolve_free :
    (fuel suffix : ℕ) (stem value name : Text) (m : Dict Text Text)
    → resolve fuel suffix stem value m ≡ some name
    → is_taken name value m ≡ false
unfolding resolve
resolve_free zero suffix stem value name m h = cc
resolve_free (suc fuel) suffix stem value name m h =
    elim (Bool-cases (is_taken (candidate stem suffix) value m)) [
      | inl e ↦ resolve_free fuel (suc suffix) stem value name m (rw e at h)
      | inr e ↦
          let same : candidate stem suffix ≡ name = some-injective _ _ (rw e at h) in
          subst (λ n. is_taken n value m ≡ false) same e
    ]
