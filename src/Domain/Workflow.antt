-- ===== src/Domain/Workflow.antt =====
-- The vocabularies of packages/domain/ledgergraph_domain/enums.py that the backend's records and
-- its audit trail use.

pub data ImportStatus : Type 0 where
  pending validating completed failed duplicate : ImportStatus

pub data RunStatus : Type 0 where
  queued running completed failed cancelled : RunStatus

pub data CaseResolution : Type 0 where
  approved rejected overridden dismissed auto_resolved : CaseResolution

pub data DecisionAction : Type 0 where
  auto_resolved approved rejected overridden assigned commented reopened dismissed : DecisionAction
  role_changed policy_changed imported run_started run_completed ai_investigated : DecisionAction
  registered refresh_reuse_detected deactivated : DecisionAction

pub data ActorType : Type 0 where
  user system ai : ActorType

pub data AiValidationStatus : Type 0 where
  valid schema_invalid citation_violation numeric_violation unavailable : AiValidationStatus

pub data ReasonCode : Type 0 where
  timing_difference fee_variance_accepted bank_error_confirmed gateway_error_confirmed : ReasonCode
  duplicate_confirmed manual_adjustment_posted evidence_insufficient : ReasonCode
  written_off_immaterial escalated_externally other : ReasonCode

-- The action that records a resolution has the same value.
unfoldable pub action_of : CaseResolution → DecisionAction
action_of CaseResolution.approved = DecisionAction.approved
action_of CaseResolution.rejected = DecisionAction.rejected
action_of CaseResolution.overridden = DecisionAction.overridden
action_of CaseResolution.dismissed = DecisionAction.dismissed
action_of CaseResolution.auto_resolved = DecisionAction.auto_resolved
