-- ===== src/Ai/Redact/Decimal.antt =====
-- Two numbers with the same decimal text are equal.
use ai_finance_controller.Common.{
  ℕ, zero, suc, ◌+◌, ◌-◌, ◌*◌, ◌/◌, ◌%◌, ◌<◌, ◌≤◌, ◌≡◌, refl, sym, ap, ◌∙◌, Bool-cases, inl, inr,
  [], ◌∷◌, ◌++◌, arith, ltb,
}
use ai_finance_controller.Common.Text.{Text}
use ai_finance_controller.Ai.Redact.{digits_from, digits}

-- The number that a text of digits reads as, behind `front`.
abbrev read_from : (front : ℕ) → Text → ℕ
read_from front [] = front
read_from front (c ∷ t) = read_from (front * 10 + (c - 48)) t

read_from-append :
    (front : ℕ) (s : Text) (c : ℕ)
    → read_from front (s ++ c ∷ []) ≡ read_from front s * 10 + (c - 48)
read_from-append front [] c = refl
read_from-append front (x ∷ s) c = read_from-append (front * 10 + (x - 48)) s c

read_from-digits_from : (fuel n : ℕ) → n < fuel → read_from 0 (digits_from fuel n) ≡ n
unfolding digits_from
read_from-digits_from zero n h = absurd (omega arith)
read_from-digits_from (suc fuel) n h = elim (Bool-cases (ltb n 10)) [
  | inl e ↦ rw e (omega arith)
  | inr e ↦
      let big : 10 ≤ n = ground (arith, e) in
      rw
        (
          e,
          read_from-append 0 (digits_from fuel (n / 10)) (48 + n % 10),
          read_from-digits_from fuel (n / 10) (omega (arith, big, h)),
        )
        (omega arith)
]

pub digits-injective : (m n : ℕ) → digits m ≡ digits n → m ≡ n
unfolding digits
digits-injective m n e =
    sym (read_from-digits_from (suc m) m (omega arith))
    ∙ ap (read_from 0) e
    ∙ read_from-digits_from (suc n) n (omega arith)
