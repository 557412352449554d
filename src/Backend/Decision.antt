-- ===== src/Backend/Decision.antt =====
-- The decision on a case, `decide` of backend/src/ledgergraph_api/routers/exceptions.py.
pub mod Recorded
pub mod Kept
pub mod Guarded
use ai_finance_controller.Common.{
  ℕ, Bool, true, false, not, ◌&&◌, ◌||◌, Option, none, some, List, if◌then◌else◌, is_some, length,
  ltb,
}
use ai_finance_controller.Common.Int.{ℤ}
use ai_finance_controller.Common.Text.{Text, strip}
use ai_finance_controller.Common.Result.{Result, ok, err, ◌>>=◌}
use ai_finance_controller.Double.{Double}
use ai_finance_controller.Domain.Enums.{UserRole, controller, admin}
use ai_finance_controller.Domain.Workflow.{
  ActorType, CaseResolution, DecisionAction, ReasonCode, action_of,
}
use ai_finance_controller.Recon.Models.{ExceptionCase}
use ai_finance_controller.Recon.Policy.{Policy, requires_controller, default_policy}
use ai_finance_controller.Backend.Errors.{
  ApiError, not_found, already_decided, controller_approval_required, not_a_human_resolution,
  reason_code_required, validation_failed,
}
use ai_finance_controller.Backend.Store.{User, AuditEntity, AuditEvent}
use ai_finance_controller.Backend.Auth.{Crypto}
use ai_finance_controller.Backend.Access.{same_role, current_user, require_role, can_decide}
use ai_finance_controller.Backend.Books.{
  CaseDecision, Repository, Answer, rejected, get_case, record_decision, get_decision, audited,
}

-- A body with the types of its fields; `Field(max_length=2000)` is checked in front of the handler.
pub record DecisionRequest : Type 0 where
  pub resolution : CaseResolution
  pub reason_code : Option ReasonCode
  pub note : Text

abbrev pub max_note_length : ℕ
max_note_length = 2000

abbrev pub is_auto : CaseResolution → Bool
is_auto CaseResolution.auto_resolved = true
is_auto _ = false

abbrev pub is_override : CaseResolution → Bool
is_override CaseResolution.overridden = true
is_override _ = false

-- A controller or an admin.
abbrev pub approves_material : UserRole → Bool
approves_material role = same_role role controller || same_role role admin

unfoldable pub new_decision : (case_id : Text) → DecisionRequest → User → (now : ℕ) → CaseDecision
unfolding strip
new_decision case_id body u now = record {
  case_id = case_id;
  resolution = body.resolution;
  reason_code = body.reason_code;
  note = strip body.note;
  decided_by = u.user_id;
  decided_by_name = u.full_name;
  decided_by_role = u.role;
  decided_at = now;
}

unfoldable pub decision_event :
    (event_id case_id ruleset_version : Text) → DecisionRequest → User → (now : ℕ) → AuditEvent
unfolding strip action_of
decision_event event_id case_id ruleset_version body u now = record {
  event_id = event_id;
  entity_type = AuditEntity.exception_case;
  entity_id = case_id;
  action = action_of body.resolution;
  actor_type = ActorType.user;
  actor_name = some u.full_name;
  actor_role = some u.role;
  actor_id = some u.user_id;
  reason_code = body.reason_code;
  note = strip body.note;
  ruleset_version = some ruleset_version;
  created_at = now;
}

module _ {W : Type 0} ⦃d : Double W⦄ where
  -- The refusals of a case that is found, in their order.
  unfoldable pub refusal :
      ExceptionCase W → Option CaseDecision → DecisionRequest → User → Option ApiError
  refusal case existing body u =
      if is_some existing
      then some already_decided
      else if requires_controller {W = W} case.amount_at_risk_minor default_policy
          && not (approves_material u.role)
      then some controller_approval_required
      else if is_auto body.resolution
      then some not_a_human_resolution
      else if is_override body.resolution && not (is_some body.reason_code)
      then some reason_code_required
      else none

module _ {W : Type 0} ⦃d : Double W⦄ (now : ℕ) (event_id ruleset_version : Text) where
  -- The decision is stored, and its event beside it.
  unfoldable pub settle_case :
      (case_id : Text) → DecisionRequest → User → Repository W → Answer W CaseDecision
  settle_case case_id body u s =
      let verdict = new_decision case_id body u now in
      record {
        repository =
            audited (decision_event event_id case_id ruleset_version body u now)
              (record_decision verdict s);
        result = ok verdict;
      }

  unfoldable pub settle_unless :
      Option ApiError
      → (case_id : Text) → DecisionRequest
      → User
      → Repository W
      → Answer W CaseDecision
  settle_unless (some e) case_id body u s = rejected e s
  settle_unless none case_id body u s = settle_case case_id body u s

  unfoldable pub decide_found :
      Option (ExceptionCase W)
      → (case_id : Text) → DecisionRequest
      → User
      → Repository W
      → Answer W CaseDecision
  decide_found none case_id body u s = rejected not_found s
  decide_found (some case) case_id body u s =
      settle_unless (refusal case (get_decision case_id s) body u) case_id body u s

  -- Of the packet that is returned, the decision.
  unfoldable pub decide :
      (case_id : Text) → DecisionRequest → User → Repository W → Answer W CaseDecision
  unfolding decide_found
  decide case_id body u s = decide_found (get_case case_id s) case_id body u s

module _ {W : Type 0} ⦃d : Double W⦄ (c : Crypto) (now : ℕ) (event_id ruleset_version : Text) where
  -- FastAPI resolves the user first, and then validates the body.
  unfoldable pub decide_valid :
      User → (case_id : Text) → DecisionRequest → Repository W → Answer W CaseDecision
  decide_valid u case_id body s =
      if ltb max_note_length (length body.note)
      then rejected validation_failed s
      else decide now event_id ruleset_version case_id body u s

  unfoldable pub admit_decider :
      Result ApiError User
      → (case_id : Text) → DecisionRequest
      → Repository W
      → Answer W CaseDecision
  admit_decider (err e) case_id body s = rejected e s
  admit_decider (ok u) case_id body s = decide_valid u case_id body s

  -- The endpoint with its parameter `user`, a `CanDecide`.
  unfoldable pub post_decision :
      (authorization : Option Text)
      → (case_id : Text) → DecisionRequest
      → Repository W
      → Answer W CaseDecision
  unfolding admit_decider
  post_decision authorization case_id body s =
      admit_decider (current_user c now authorization s.accounts >>= require_role can_decide)
        case_id body s
