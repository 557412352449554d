-- ===== src/Tests/Books.antt =====
-- An upload, a run and decisions on a small repository.
use ai_finance_controller.Common.{
  ℕ, ◌≡◌, refl, Bool, ◌&&◌, Option, none, some, List, [], ◌∷◌, ◌++◌, if◌then◌else◌,
}
use ai_finance_controller.Common.Int.{ℤ, pos}
use ai_finance_controller.Common.Text.{Text, codes, text_eq}
use ai_finance_controller.Common.Result.{ok, err, is_ok}
use ai_finance_controller.Double.Scaled.{scaled}
use ai_finance_controller.Domain.Enums.{UserRole, reviewer, controller}
use ai_finance_controller.Domain.Workflow.{CaseResolution}
use ai_finance_controller.Recon.Models.{ExceptionCase, nothing_found, hypothesis}
use ai_finance_controller.Backend.Errors.{controller_approval_required}
use ai_finance_controller.Backend.Store.{create_user, User, new_user, no_accounts, audit_for}
use ai_finance_controller.Backend.Books.{
  CaseDecision, ImportRecord, RunRecord, Repository, Answer, get_import, get_case, get_decision,
}
use ai_finance_controller.Backend.Decision.{DecisionRequest, new_decision, decision_event, decide}
use ai_finance_controller.Backend.Auth.{mint_access_token}
use ai_finance_controller.Backend.Access.Minted.{bearer}
use ai_finance_controller.Tests.Cipher.{crypto, settings}
use ai_finance_controller.Backend.Decision.Kept.{
  Posted, IsSameElsewhere, decide_all, decide-writes, decide_all-keeps,
}
use ai_finance_controller.Backend.Imports.{Reader, Upload, create_import}
use ai_finance_controller.Backend.Imports.Once.{IsImportedOnce, create_import-IsImportedOnce}
use ai_finance_controller.Backend.Imports.Replay.{create_import-replays}
use ai_finance_controller.Tests.Data.{payment}

abbrev empty : Repository ℤ
empty = record {
  imports = [];
  transactions = [];
  runs = [];
  cases = [];
  groups = [];
  decisions = [];
  accounts = no_accounts;
}

-- A file of one payment; its text is its digest.
abbrev reader : Reader
reader = record {
  Row = Text;
  is_known = text_eq (codes "payments");
  required_columns = λ dataset. codes "id" ∷ [];
  sha256 = λ raw. raw;
  header = λ raw. some (codes "id" ∷ []);
  rows = λ raw. codes "P1" ∷ [];
  normalise = λ dataset row. ok payment;
}

abbrev ravi : User
ravi =
    new_user (codes "u1") (codes "ravi@tallyproof.dev") (codes "secret") (codes "Ravi") reviewer 0

abbrev upload : Upload
upload = record {
  dataset = codes "payments";
  filename = codes "p.csv";
  raw = codes "id\nP1";
  idempotency_key = some (codes "k1");
}

abbrev first : Answer ℤ ImportRecord
first = create_import reader 1 (codes "imp1") (codes "e1") ravi upload empty

abbrev imported_record : ImportRecord
imported_record = record {
  import_id = codes "imp1";
  dataset = codes "payments";
  filename = codes "p.csv";
  status = ai_finance_controller.Domain.Workflow.ImportStatus.completed;
  rows_total = 1;
  rows_accepted = 1;
  rows_rejected = 0;
  rejections = [];
  idempotency_key = some (codes "k1");
  content_sha256 = codes "id\nP1";
  created_at = 1;
  error = none;
}

first-result : first.result ≡ ok imported_record
unfolding ai_finance_controller.Backend.Books.new_import
    ai_finance_controller.Backend.Books.find_import_by_key
    ai_finance_controller.Backend.Books.find_import_by_hash
    ai_finance_controller.Backend.Imports.read_rows ai_finance_controller.Backend.Imports.missing
    ai_finance_controller.Backend.Imports.started ai_finance_controller.Backend.Imports.finished
    ai_finance_controller.Backend.Imports.load ai_finance_controller.Backend.Imports.import_columns
    ai_finance_controller.Backend.Imports.import_sized
    ai_finance_controller.Backend.Imports.create_import
first-result = refl

no_import : get_import (codes "imp1") empty ≡ none
unfolding ai_finance_controller.Backend.Books.get_import ai_finance_controller.Common.Dict.lookup
no_import = refl

create_import-replays_example :
    create_import reader 2 (codes "imp2") (codes "e2") ravi upload first.repository
    ≡ record { repository = first.repository; result = ok imported_record }
create_import-replays_example =
    create_import-replays reader 1 2 (codes "imp1") (codes "e1") (codes "imp2") (codes "e2") ravi
      ravi upload upload empty imported_record refl refl refl no_import first-result

nothing_imported : IsImportedOnce empty
unfolding get_import ai_finance_controller.Common.Dict.lookup
nothing_imported k j a b g f c d e = cc

create_import-IsImportedOnce_example : IsImportedOnce first.repository
create_import-IsImportedOnce_example =
    create_import-IsImportedOnce reader 1 (codes "imp1") (codes "e1") ravi upload empty
      nothing_imported

-- The run over that import.
abbrev version : Text
version = codes "rules@1.4.0"

-- A case of a material amount.
abbrev big_case : ExceptionCase ℤ
big_case = record {
  case_id = codes "c1";
  case_type = ai_finance_controller.Domain.Enums.ExceptionType.missing_bank_credit;
  severity = ai_finance_controller.Domain.Enums.ExceptionSeverity.high;
  amount_at_risk_minor = pos 100_000_000;
  currency = codes "INR";
  primary_transaction = none;
  transactions = [];
  group = none;
  case_text = hypothesis nothing_found;
  confidence = none;
  evidence = [];
}

abbrev with_case : Repository ℤ
with_case = record empty { cases = (codes "c1", big_case) ∷ [] }

abbrev approval : DecisionRequest
approval = record {
  resolution = CaseResolution.approved;
  reason_code = none;
  note = codes " paid ";
}

abbrev chitra : User
chitra =
    new_user (codes "u2") (codes "chitra@tallyproof.dev") (codes "secret") (codes "Chitra")
      controller 0

abbrev approved : Repository ℤ
approved = (decide 9 (codes "e5") version (codes "c1") approval chitra with_case).repository

-- A reviewer may not decide it.
reviewer_refused :
    (decide 9 (codes "e5") version (codes "c1") approval ravi with_case).result
    ≡ err controller_approval_required
unfolding ai_finance_controller.Backend.Decision.refusal
    ai_finance_controller.Backend.Decision.settle_unless
    ai_finance_controller.Backend.Decision.decide ai_finance_controller.Backend.Books.get_case
    ai_finance_controller.Backend.Books.get_decision ai_finance_controller.Backend.Store.new_user
    ai_finance_controller.Common.Dict.lookup ai_finance_controller.Recon.Policy.requires_controller
reviewer_refused = refl

-- The same decision as a request, with an access token of the controller.
abbrev signed : Repository ℤ
signed = record with_case { accounts = create_user chitra no_accounts }

abbrev header : Option Text
header = some (bearer (mint_access_token crypto settings (codes "u2") chitra.email controller 0).0)

decide-writes_example :
    (get_decision (codes "c1") approved ≡ (
      if is_ok (decide 9 (codes "e5") version (codes "c1") approval chitra with_case).result
        && text_eq (codes "c1") (codes "c1")
      then some (new_decision (codes "c1") approval chitra 9)
      else get_decision (codes "c1") with_case))
    × (audit_for (codes "c1") approved.accounts ≡ (
        if is_ok (decide 9 (codes "e5") version (codes "c1") approval chitra with_case).result
          && text_eq (codes "c1") (codes "c1")
        then audit_for (codes "c1") with_case.accounts
          ++ decision_event (codes "e5") (codes "c1") version approval chitra 9 ∷ []
        else audit_for (codes "c1") with_case.accounts))
    × IsSameElsewhere with_case approved
decide-writes_example =
    decide-writes 9 (codes "e5") version (codes "c1") (codes "c1") approval chitra with_case

abbrev again : Posted
again = record {
  now = 10;
  event_id = codes "e6";
  case_id = codes "c1";
  body = approval;
  decider = chitra;
}

is_decided : get_decision (codes "c1") approved ≡ some (new_decision (codes "c1") approval chitra 9)
unfolding ai_finance_controller.Backend.Decision.new_decision
    ai_finance_controller.Backend.Decision.refusal
    ai_finance_controller.Backend.Decision.settle_case
    ai_finance_controller.Backend.Decision.settle_unless
    ai_finance_controller.Backend.Decision.decide ai_finance_controller.Backend.Books.get_case
    ai_finance_controller.Backend.Books.record_decision
    ai_finance_controller.Backend.Books.get_decision ai_finance_controller.Backend.Books.audited
    ai_finance_controller.Backend.Store.new_user ai_finance_controller.Common.Dict.lookup
    ai_finance_controller.Common.Dict.insert ai_finance_controller.Recon.Policy.requires_controller
is_decided = refl

decide_all-keeps_example :
    (get_decision (codes "c1") (decide_all version (again ∷ []) approved)
      ≡ some (new_decision (codes "c1") approval chitra 9))
    × (audit_for (codes "c1") (decide_all version (again ∷ []) approved).accounts
        ≡ audit_for (codes "c1") approved.accounts)
decide_all-keeps_example =
    decide_all-keeps version (codes "c1") (new_decision (codes "c1") approval chitra 9) (again ∷ [])
      approved is_decided
