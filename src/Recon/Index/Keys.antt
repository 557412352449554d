-- ===== src/Recon/Index/Keys.antt =====
-- The keys of the indexes.
use ai_finance_controller.Common.{ℕ, ◌≡◌, ◌↔◌, Bool, true, ◌&&◌, arith, ◌==◌}
use ai_finance_controller.Common.Int.{ℤ, ◌==ℤ◌, ==ℤ_iff}
use ai_finance_controller.Common.Eq.{Eq}
pub use ai_finance_controller.Common.Keys.{text_eq_iff, text_key}
use ai_finance_controller.Domain.Enums.{EntityType, same_entity, eq_of_same_entity}

same_entity_refl : (a : EntityType) → same_entity a a ≡ true
same_entity_refl a = ground arith

pub same_entity_iff : (a b : EntityType) → (same_entity a b ≡ true) ↔ (a ≡ b)
same_entity_iff a b = (eq_of_same_entity a b, λ e. rw e (same_entity_refl b))

instance abbrev pub entity_key : Eq EntityType
entity_key = record { beq = same_entity; beq_iff = same_entity_iff }

abbrev pub same_amount_date : ℤ × ℕ → ℤ × ℕ → Bool
same_amount_date (a, i) (b, j) = (a ==ℤ b) && i == j

pub same_amount_date_iff : (p q : ℤ × ℕ) → (same_amount_date p q ≡ true) ↔ (p ≡ q)
same_amount_date_iff (a, i) (b, j) = ground (arith, ==ℤ_iff a b)

instance abbrev pub amount_date_key : Eq (ℤ × ℕ)
amount_date_key = record { beq = same_amount_date; beq_iff = same_amount_date_iff }
