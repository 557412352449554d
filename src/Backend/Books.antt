-- ===== src/Backend/Books.antt =====
-- The rest of `InMemoryRepository` of backend/src/ledgergraph_api/store.py: imports, runs, cases,
-- groups and decisions. Investigations are left out, as are a run's metrics and the time at
-- which an import ended. A run's stage is `matching` or none.
use ai_finance_controller.Common.{
  ℕ, Bool, true, false, not, ◌&&◌, Option, none, some, List, [], ◌∷◌, ◌++◌, if◌then◌else◌, find,
  filter, leb, ltb,
}
use ai_finance_controller.Common.Text.{Text, text_eq}
use ai_finance_controller.Common.Result.{Result, err}
use ai_finance_controller.Backend.Errors.{ApiError}
use ai_finance_controller.Common.Sort.{sort}
use ai_finance_controller.Common.Dict.{Dict, lookup, insert}
use ai_finance_controller.Common.Keys.{text_key}
use ai_finance_controller.Domain.Enums.{UserRole}
use ai_finance_controller.Domain.Workflow.{
  ImportStatus, pending, completed, failed, RunStatus, queued, CaseResolution, ReasonCode,
}
use ai_finance_controller.Domain.Canonical.{CanonicalTransaction}
use ai_finance_controller.Recon.Models.{MatchGroup, ExceptionCase, RunResult}
use ai_finance_controller.Backend.Store.{Accounts, AuditEvent, add_audit}
use ai_finance_controller.Backend.Store.Dicts.{values, adjust}

-- A row that was refused, by its line; `column` and `code` are those of the error.
pub record Rejection : Type 0 where
  pub column : Text
  pub code : Text

pub data ImportError : Type 0 where
  no_header_row : ImportError
  missing_columns : List Text → ImportError
  identical_to : (import_id filename : Text) → ImportError

pub record ImportRecord : Type 0 where
  pub import_id : Text
  pub dataset : Text
  pub filename : Text
  pub status : ImportStatus
  pub rows_total : ℕ
  pub rows_accepted : ℕ
  pub rows_rejected : ℕ
  pub rejections : List (ℕ × Rejection)
  pub idempotency_key : Option Text
  pub content_sha256 : Text
  pub created_at : ℕ
  pub error : Option ImportError

pub record RunRecord (W : Type 0) : Type 0 where
  pub run_id : Text
  pub status : RunStatus
  pub ruleset_version : Text
  pub is_matching : Bool
  pub progress_pct : ℕ
  pub created_at : ℕ
  pub started_at : Option ℕ
  pub completed_at : Option ℕ
  pub error : Option Text
  pub result : Option (RunResult W)

pub record CaseDecision : Type 0 where
  pub case_id : Text
  pub resolution : CaseResolution
  pub reason_code : Option ReasonCode
  pub note : Text
  pub decided_by : Text
  pub decided_by_name : Text
  pub decided_by_role : UserRole
  pub decided_at : ℕ

-- `accounts` has the users, the tokens and the audit trail of them and of the books.
pub record Repository (W : Type 0) : Type 0 where
  pub imports : Dict Text ImportRecord
  pub transactions : Dict Text (List CanonicalTransaction)
  pub runs : Dict Text (RunRecord W)
  pub cases : Dict Text (ExceptionCase W)
  pub groups : Dict Text (MatchGroup W)
  pub decisions : Dict Text CaseDecision
  pub accounts : Accounts

abbrev pub is_failed : ImportStatus → Bool
is_failed failed = true
is_failed _ = false

abbrev pub is_completed : ImportStatus → Bool
is_completed completed = true
is_completed _ = false

abbrev pub is_done : RunStatus → Bool
is_done RunStatus.completed = true
is_done _ = false

abbrev pub option_eq : Option Text → Text → Bool
option_eq none k = false
option_eq (some j) k = text_eq j k

unfoldable pub new_import :
    (import_id dataset filename : Text) (idempotency_key : Option Text) (content_sha256 : Text)
    (now : ℕ)
    → ImportRecord
new_import import_id dataset filename idempotency_key content_sha256 now = record {
  import_id = import_id;
  dataset = dataset;
  filename = filename;
  status = pending;
  rows_total = 0;
  rows_accepted = 0;
  rows_rejected = 0;
  rejections = [];
  idempotency_key = idempotency_key;
  content_sha256 = content_sha256;
  created_at = now;
  error = none;
}

abbrev pub was_completed : Option ImportRecord → Bool
was_completed none = false
was_completed (some i) = is_completed i.status

unfoldable pub collect :
    Dict Text ImportRecord → Dict Text (List CanonicalTransaction) → List CanonicalTransaction
collect imports [] = []
collect imports ((import_id, txns) ∷ rest) =
    if was_completed (lookup import_id imports)
    then txns ++ collect imports rest
    else collect imports rest

module _ {W : Type 0} where
  -- `create_import` of a record from `new_import`, and `save_import`.
  unfoldable pub save_import : ImportRecord → Repository W → Repository W
  save_import i s = record s { imports = insert i.import_id i s.imports }

  unfoldable pub find_import_by_key : Text → Repository W → Option ImportRecord
  find_import_by_key key s = find (λ i. option_eq i.idempotency_key key) (values s.imports)

  unfoldable pub find_import_by_hash : Text → Repository W → Option ImportRecord
  find_import_by_hash sha s =
      find (λ i. text_eq i.content_sha256 sha && not (is_failed i.status)) (values s.imports)

  unfoldable pub get_import : Text → Repository W → Option ImportRecord
  get_import import_id s = lookup import_id s.imports

  -- The latest first; `reverse=True` keeps the order of those that are equal.
  unfoldable pub list_imports : Repository W → List ImportRecord
  list_imports s = sort (λ a b. leb b.created_at a.created_at) (values s.imports)

  unfoldable pub add_transactions : Text → List CanonicalTransaction → Repository W → Repository W
  add_transactions import_id txns s = record s {
    transactions = insert import_id txns s.transactions;
  }

  unfoldable pub all_transactions : Repository W → List CanonicalTransaction
  unfolding collect
  all_transactions s = collect s.imports s.transactions

  unfoldable pub new_run : (run_id ruleset_version : Text) (now : ℕ) → RunRecord W
  new_run run_id ruleset_version now = record {
    run_id = run_id;
    status = queued;
    ruleset_version = ruleset_version;
    is_matching = false;
    progress_pct = 0;
    created_at = now;
    started_at = none;
    completed_at = none;
    error = none;
    result = none;
  }

  -- `create_run` of a record from `new_run`, and `save_run`.
  unfoldable pub save_run : RunRecord W → Repository W → Repository W
  save_run r s = record s { runs = insert r.run_id r s.runs }

  unfoldable pub get_run : Text → Repository W → Option (RunRecord W)
  get_run run_id s = lookup run_id s.runs

  unfoldable pub list_runs : Repository W → List (RunRecord W)
  list_runs s = sort (λ a b. leb b.created_at a.created_at) (values s.runs)

  -- `max` returns the first of those that are equal.
  abbrev pub latest_from : RunRecord W → List (RunRecord W) → RunRecord W
  latest_from best [] = best
  latest_from best (r ∷ rs) = latest_from (if ltb best.created_at r.created_at then r else best) rs

  abbrev pub latest_of : List (RunRecord W) → Option (RunRecord W)
  latest_of [] = none
  latest_of (r ∷ rs) = some (latest_from r rs)

  unfoldable pub latest_run : Repository W → Option (RunRecord W)
  latest_run s = latest_of (filter (λ r. is_done r.status) (values s.runs))

  abbrev pub put_cases :
      List (ExceptionCase W) → Dict Text (ExceptionCase W) → Dict Text (ExceptionCase W)
  put_cases [] m = m
  put_cases (x ∷ xs) m = put_cases xs (insert x.case_id x m)

  abbrev pub put_groups : List (MatchGroup W) → Dict Text (MatchGroup W) → Dict Text (MatchGroup W)
  put_groups [] m = m
  put_groups (g ∷ gs) m = put_groups gs (insert g.group_id g m)

  -- The run is stored already.
  unfoldable pub save_run_result : Text → RunResult W → Repository W → Repository W
  save_run_result run_id result s = record s {
    runs = adjust run_id (λ r. record r { result = some result }) s.runs;
    cases = put_cases result.cases s.cases;
    groups = put_groups result.groups s.groups;
  }

  unfoldable pub get_case : Text → Repository W → Option (ExceptionCase W)
  get_case case_id s = lookup case_id s.cases

  unfoldable pub get_group : Text → Repository W → Option (MatchGroup W)
  get_group group_id s = lookup group_id s.groups

  unfoldable pub record_decision : CaseDecision → Repository W → Repository W
  record_decision d s = record s { decisions = insert d.case_id d s.decisions }

  unfoldable pub get_decision : Text → Repository W → Option CaseDecision
  get_decision case_id s = lookup case_id s.decisions

  unfoldable pub audited : AuditEvent → Repository W → Repository W
  audited event s = record s { accounts = add_audit event s.accounts }

  -- The audit trail goes with the books; users and tokens stay.
  unfoldable pub reset_reconciliation_data : Repository W → Repository W
  reset_reconciliation_data s = record s {
    imports = [];
    transactions = [];
    runs = [];
    cases = [];
    groups = [];
    decisions = [];
    accounts = record s.accounts { audit = [] };
  }

-- The repository after a handler, and what it returned or raised.
pub record Answer (W A : Type 0) : Type 0 where
  pub repository : Repository W
  pub result : Result ApiError A

abbrev pub rejected : {W A : Type 0} → ApiError → Repository W → Answer W A
rejected e s = record { repository = s; result = err e }
