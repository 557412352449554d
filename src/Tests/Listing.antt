-- ===== src/Tests/Listing.antt =====
-- A queue of two cases, read one by one.
use ai_finance_controller.Common.{
  ℕ, zero, suc, ◌≡◌, refl, Option, none, some, List, [], ◌∷◌, length, map, false, arith,
}
use ai_finance_controller.Common.Int.{ℤ, pos}
use ai_finance_controller.Common.Text.{Text, codes}
use ai_finance_controller.Common.Result.{ok}
use ai_finance_controller.Domain.Enums.{missing_bank_credit, high}
use ai_finance_controller.Domain.Workflow.{RunStatus}
use ai_finance_controller.Recon.Models.{ExceptionCase, RunResult, hypothesis, nothing_found}
use ai_finance_controller.Backend.Store.{no_accounts}
use ai_finance_controller.Backend.Books.{RunRecord, Repository, get_run}
use ai_finance_controller.Backend.Queue.{
  CursorCodec, IsFaithful, Filters, select, current_run, with_decision,
}
use ai_finance_controller.Backend.Queue.Pages.{fetch, read_pages, read_pages-list_exceptions}

abbrev decode : Text → Option ℕ
decode [] = none
decode (zero ∷ t) = none
decode (suc n ∷ t) = some n

abbrev codec : CursorCodec
codec = record { encode = λ n. suc n ∷ []; decode = decode }

codec-IsFaithful : IsFaithful codec
codec-IsFaithful = record { decode-encode = λ n. refl; encode_nonempty = λ n. refl }

abbrev case : (id : Text) (amount : ℕ) → ExceptionCase ℤ
case id amount = record {
  case_id = id;
  case_type = missing_bank_credit;
  severity = high;
  amount_at_risk_minor = pos amount;
  currency = codes "INR";
  primary_transaction = none;
  transactions = [];
  group = none;
  case_text = hypothesis nothing_found;
  confidence = none;
  evidence = [];
}

abbrev result : RunResult ℤ
result = record {
  run_id = codes "r1";
  ruleset_version = codes "rules@1.4.0";
  groups = [];
  cases = case (codes "c1") 900 ∷ case (codes "c2") 500 ∷ [];
  records_processed = 4;
}

abbrev run : RunRecord ℤ
run = record {
  run_id = codes "r1";
  status = RunStatus.completed;
  ruleset_version = codes "rules@1.4.0";
  is_matching = false;
  progress_pct = 100;
  created_at = 1;
  started_at = some 2;
  completed_at = some 3;
  error = none;
  result = some result;
}

abbrev repository : Repository ℤ
repository = record {
  imports = [];
  transactions = [];
  runs = (codes "r1", run) ∷ [];
  cases = [];
  groups = [];
  decisions = [];
  accounts = no_accounts;
}

abbrev all_cases : Filters
all_cases = record { case_type = none; severity = none; min_amount_minor = none }

found : current_run (some (codes "r1")) repository ≡ ok result
unfolding current_run get_run ai_finance_controller.Common.Dict.lookup
found = refl

read_pages-list_exceptions_example :
    read_pages
      (fetch codec (some (codes "r1")) all_cases 1 repository)
      (suc (length (select all_cases result.cases)))
      none
    ≡ map (with_decision repository) (select all_cases result.cases)
read_pages-list_exceptions_example =
    read_pages-list_exceptions codec codec-IsFaithful (some (codes "r1")) all_cases 1 repository
      result found (omega arith)
