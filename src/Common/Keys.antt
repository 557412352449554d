-- ===== src/Common/Keys.antt =====
-- Texts as the keys of a dictionary.
use mathlib.Core.Path.{◌≡◌, sym}
use mathlib.Core.Logic.{◌↔◌, ◌⊎◌, inl, inr}
use mathlib.Core.Bool.{true, false}
use ai_finance_controller.Common.Text.{Text, text_eq, text_eq_refl, eq_of_text_eq}
use ai_finance_controller.Common.Eq.{Eq}
use mathlib.Core.List.{List, [], ◌∷◌}
use native.Mathlib.Omega.{arith}
use ai_finance_controller.Common.Tests.{Bool-cases}
use ai_finance_controller.Common.Lists.{In, any}

pub text_eq_iff : (a b : Text) → (text_eq a b ≡ true) ↔ (a ≡ b)
text_eq_iff a b = (eq_of_text_eq a b, λ e. rw e (text_eq_refl b))

instance abbrev pub text_key : Eq Text
text_key = record { beq = text_eq; beq_iff = text_eq_iff }

pub text_cases : (a b : Text) → (a ≡ b) ⊎ (text_eq a b ≡ false)
text_cases a b = elim (Bool-cases (text_eq a b)) [
  | inl e ↦ inl (eq_of_text_eq a b e)
  | inr e ↦ inr e
]

pub In-any : (t : Text) (ts : List Text) → any (text_eq t) ts ≡ true → In t ts
In-any t [] h = cc
In-any t (s ∷ ts) h = elim (Bool-cases (text_eq t s)) [
  | inl e ↦ inl (eq_of_text_eq t s e)
  | inr e ↦ inr (In-any t ts (rw e at h))
]

pub any-In : (t : Text) (ts : List Text) → In t ts → any (text_eq t) ts ≡ true
any-In t [] h = absurd h
any-In t (s ∷ ts) (inl e) = rw (sym e) (ground (arith, text_eq_refl t))
any-In t (s ∷ ts) (inr h) = ground (arith, any-In t ts h)
