-- ===== src/Recon/Policy.antt =====
-- The auto-resolution gate of packages/reconciliation/ledgergraph_reconciliation/policy.py.
pub mod Gate
use ai_finance_controller.Common.{
  ℕ, ◌≡◌, Bool, true, false, not, ◌&&◌, ◌||◌, Option, none, some, List, [], ◌∷◌, ◌++◌, map,
  if◌then◌else◌, any, all, is_empty,
}
use ai_finance_controller.Common.Int.{ℤ, pos, ltb_ℤ, leb_ℤ}
use ai_finance_controller.Common.Text.{Text, text_eq, text_leb}
use ai_finance_controller.Common.Sort.{sort}
use ai_finance_controller.Double.{Double, gt}
use ai_finance_controller.Domain.Enums.{
  EntityType, ExceptionType, duplicate, missing_bank_credit, amount_mismatch, auto_resolved,
  pending_review, same_entity, same_exception, is_deterministic,
}
use ai_finance_controller.Domain.Canonical.{CanonicalTransaction}
use ai_finance_controller.Recon.Models.{
  Link, MatchGroup, GateCondition, GateDetail, GateKey, value, matched, exposure, blocked,
  dispute_involved, no_exception_type, no_competing_candidate, clean, flags, has_passing_evidence,
}

pub record Policy (W : Type 0) : Type 0 where
  pub version : ℕ
  pub auto_resolve_min_confidence : W
  pub auto_resolve_max_minor : ℤ
  pub review_required_above_minor : ℤ
  pub candidate_margin : W
  pub settlement_window_days : ℕ
  pub amount_tolerance_minor : ℤ
  pub max_candidates_per_record : ℕ
  pub never_auto_resolve : List ExceptionType

-- The set of the flags on a group's members, sorted: `sorted({...})`.
unfoldable pub add_to_set : List Text → Text → List Text
add_to_set seen t = if any (text_eq t) seen then seen else seen ++ t ∷ []

abbrev pub set_from : List Text → List Text → List Text
set_from seen [] = seen
set_from seen (t ∷ ts) = set_from (add_to_set seen t) ts

abbrev pub all_flags : List Link → List Text
all_flags [] = []
all_flags (l ∷ ls) = l.transaction.data_quality_flags ++ all_flags ls

unfoldable pub distinct_flags : List Link → List Text
unfolding add_to_set
distinct_flags links = set_from [] (all_flags links)

unfoldable pub is_blocked : Option ExceptionType → List ExceptionType → Bool
is_blocked none never = false
is_blocked (some t) never = any (same_exception t) never

unfoldable pub has_dispute : List Link → Bool
has_dispute = any (λ l. same_entity l.transaction.entity_type EntityType.dispute)

abbrev type_detail : {W : Type 0} → Bool → Bool → Option ExceptionType → GateDetail W
type_detail is_listed dispute none = if dispute then dispute_involved else no_exception_type
type_detail is_listed dispute (some t) =
    if is_listed then blocked t else if dispute then dispute_involved else GateDetail.case t

-- `text_leb` orders the flags; the set has no repeats.
abbrev quality_detail : {W : Type 0} → List Text → GateDetail W
quality_detail [] = clean
quality_detail (f ∷ fs) = flags (sort text_leb (f ∷ fs))

module _ {W : Type 0} ⦃d : Double W⦄ where
  abbrev pub default_policy : Policy W
  default_policy = record {
    version = 1;
    auto_resolve_min_confidence = d.literal 9500;
    auto_resolve_max_minor = pos 5_000_000;
    review_required_above_minor = pos 25_000_000;
    candidate_margin = d.literal 500;
    settlement_window_days = 3;
    amount_tolerance_minor = pos 100;
    max_candidates_per_record = 20;
    never_auto_resolve = duplicate ∷ missing_bank_credit ∷ amount_mismatch ∷ [];
  }

  -- No competing candidate, or one that is more than the margin behind.
  unfoldable pub margin_ok : Option W → Policy W → Bool
  margin_ok none policy = true
  margin_ok (some margin) policy = gt margin policy.candidate_margin

  abbrev margin_detail : Option W → GateDetail W
  margin_detail none = no_competing_candidate
  margin_detail (some margin) = value margin

  unfoldable pub evaluate_gate :
      MatchGroup W
      → Policy W
      → (case_type : Option ExceptionType) (margin_to_runner_up : Option W)
        (amount_at_risk_minor : ℤ)
      → List (GateCondition W)
  evaluate_gate group policy case_type margin at_risk =
      let is_listed = is_blocked case_type policy.never_auto_resolve in
      let dispute = has_dispute group.links in
      let flagged = distinct_flags group.links in
      record {
        key = GateKey.confidence;
        passed = d.le policy.auto_resolve_min_confidence group.confidence;
        detail = value group.confidence;
      }
      ∷ record {
        key = GateKey.tier;
        passed = is_deterministic group.tier;
        detail = matched group.tier group.matched_by_rule;
      }
      ∷ record {
        key = GateKey.amount;
        passed = leb_ℤ at_risk policy.auto_resolve_max_minor;
        detail = exposure at_risk;
      }
      ∷ record {
        key = GateKey.type;
        passed = not is_listed && not dispute;
        detail = type_detail is_listed dispute case_type;
      }
      ∷ record {
        key = GateKey.margin;
        passed = margin_ok margin policy;
        detail = margin_detail margin;
      }
      ∷ record { key = GateKey.quality; passed = is_empty flagged; detail = quality_detail flagged }
      ∷ []

  -- The group with its gate and its status.
  unfoldable pub apply_gate :
      MatchGroup W
      → Policy W
      → (case_type : Option ExceptionType) (margin_to_runner_up : Option W)
        (amount_at_risk_minor : ℤ)
      → MatchGroup W
  apply_gate group policy case_type margin at_risk =
      let gate = evaluate_gate group policy case_type margin at_risk in
      record group {
        gate = gate;
        status =
            if all (λ c. c.passed) gate && has_passing_evidence group
            then auto_resolved
            else pending_review;
      }

  -- Above the material threshold only a controller may approve.
  unfoldable pub requires_controller : ℤ → Policy W → Bool
  requires_controller amount policy = ltb_ℤ policy.review_required_above_minor amount
