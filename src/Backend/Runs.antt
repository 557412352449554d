-- ===== src/Backend/Runs.antt =====
-- Reconciliation runs, `start_run` and `_execute_run` of backend/src/ledgergraph_api/routers/runs.py.
-- `run_engine` says where the engine raises; a run whose engine raises has failed.
pub mod Settles
use ai_finance_controller.Common.{
  ℕ, Bool, true, false, Option, none, some, List, [], ◌∷◌, if◌then◌else◌, any, is_empty,
}
use ai_finance_controller.Common.Text.{Text}
use ai_finance_controller.Common.Result.{Result, ok, err}
use ai_finance_controller.Double.{Double}
use ai_finance_controller.Domain.Workflow.{
  ActorType, DecisionAction, run_started, run_completed, RunStatus, running, completed, failed,
}
use ai_finance_controller.Domain.Canonical.{CanonicalTransaction}
use ai_finance_controller.Recon.Models.{RunResult}
use ai_finance_controller.Recon.Policy.{default_policy}
use ai_finance_controller.Recon.Engine.Overflow.{run_engine}
use ai_finance_controller.Backend.Errors.{ApiError, no_data, run_in_progress}
use ai_finance_controller.Backend.Store.{User, AuditEntity, AuditEvent}
use ai_finance_controller.Backend.Books.{
  RunRecord, Repository, Answer, rejected, all_transactions, new_run, save_run, get_run, list_runs,
  save_run_result, audited,
}

abbrev pub is_running : RunStatus → Bool
is_running RunStatus.running = true
is_running _ = false

-- The event of a run: `actor` is the user who started it, and none where it completed.
unfoldable pub run_event :
    (event_id run_id ruleset_version : Text)
    → DecisionAction
    → (actor : Option User) (now : ℕ) → AuditEvent
run_event event_id run_id ruleset_version action (some u) now = record {
  event_id = event_id;
  entity_type = AuditEntity.run;
  entity_id = run_id;
  action = action;
  actor_type = ActorType.user;
  actor_name = some u.full_name;
  actor_role = some u.role;
  actor_id = some u.user_id;
  reason_code = none;
  note = [];
  ruleset_version = some ruleset_version;
  created_at = now;
}
run_event event_id run_id ruleset_version action none now = record {
  event_id = event_id;
  entity_type = AuditEntity.run;
  entity_id = run_id;
  action = action;
  actor_type = ActorType.system;
  actor_name = none;
  actor_role = none;
  actor_id = none;
  reason_code = none;
  note = [];
  ruleset_version = some ruleset_version;
  created_at = now;
}

module _ {W : Type 0} (now : ℕ) (run_id event_id ruleset_version : Text) where
  -- The run is queued, and `_execute_run` is left to do.
  unfoldable pub queue_run : User → Repository W → Answer W (RunRecord W)
  queue_run u s =
      let r = new_run run_id ruleset_version now in
      record {
        repository =
            audited (run_event event_id run_id ruleset_version run_started (some u) now)
              (save_run r s);
        result = ok r;
      }

  unfoldable pub start_run : User → Repository W → Answer W (RunRecord W)
  start_run u s =
      if is_empty (all_transactions s)
      then rejected no_data s
      else if any (λ r. is_running r.status) (list_runs s)
      then rejected run_in_progress s
      else queue_run u s

module _ {W : Type 0} ⦃d : Double W⦄ (now : ℕ) (event_id : Text) where
  abbrev pub begun : RunRecord W → RunRecord W
  begun r = record r {
    status = running;
    started_at = some now;
    is_matching = true;
    progress_pct = 10;
  }

  -- The stored record has the result when it is saved again.
  abbrev pub done : RunResult W → RunRecord W → RunRecord W
  done result r = record r {
    status = completed;
    is_matching = false;
    progress_pct = 100;
    completed_at = some now;
    result = some result;
  }

  unfoldable pub complete_run :
      (run_id : Text) → RunRecord W → RunResult W → Repository W → Repository W
  complete_run run_id r result s =
      audited (run_event event_id run_id r.ruleset_version run_completed none now)
        (save_run (done result r) (save_run_result run_id result s))

  -- The `except` branch.
  abbrev pub broken : (raised : Text) → RunRecord W → RunRecord W
  broken raised r = record r { status = failed; error = some raised; completed_at = some now }

  unfoldable pub finish_run :
      (run_id : Text) → RunRecord W → Result Text (RunResult W) → Repository W → Repository W
  unfolding complete_run
  finish_run run_id r (ok result) s = complete_run run_id r result s
  finish_run run_id r (err raised) s = save_run (broken raised r) s

  unfoldable pub execute_found :
      (run_id : Text) → Option (RunRecord W) → Repository W → Repository W
  execute_found run_id none s = s
  execute_found run_id (some r) s =
      let s' = save_run (begun r) s in
      finish_run run_id (begun r)
        (run_engine (all_transactions s') run_id default_policy r.ruleset_version) s'

  unfoldable pub execute_run : (run_id : Text) → Repository W → Repository W
  unfolding execute_found
  execute_run run_id s = execute_found run_id (get_run run_id s) s
