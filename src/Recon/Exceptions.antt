-- ===== src/Recon/Exceptions.antt =====
-- The exception detectors of packages/reconciliation/ledgergraph_reconciliation/exceptions.py, those
-- of a settlement batch here and those over the whole run in `Standalone`.
pub mod Standalone
pub mod Buckets
pub mod Duplicates
use ai_finance_controller.Common.{
  ℕ, ◌+◌, Bool, true, false, not, ◌&&◌, ◌||◌, Option, none, some, List, [], ◌∷◌, ◌++◌,
  if◌then◌else◌, find, take, map, ltb, leb, is_some, ◌==◌,
}
use ai_finance_controller.Common.Int.{ℤ, pos, ◌+ℤ◌, ◌-ℤ◌, ltb_ℤ, leb_ℤ, ◌==ℤ◌, abs, floor_div}
use ai_finance_controller.Common.Text.{Text, codes}
use ai_finance_controller.Double.{Double}
use ai_finance_controller.Domain.Enums.{
  ExceptionType, missing_bank_credit, amount_mismatch, date_mismatch, fee_tax_discrepancy,
  ExceptionSeverity, critical, high, medium, low,
}
use ai_finance_controller.Domain.Canonical.{CanonicalTransaction}
use ai_finance_controller.Recon.Models.{
  Bridge, balances, difference_minor, Evidence, EvidenceType, fee_schedule, date_window,
  settlement_window, r2, Operand, ExceptionCase, CaseText, Hypothesis, hypothesis, nothing_found,
  ambiguous, unconfirmed, components_differ, journal_differs, revenue_net_of_tax, off_schedule,
  posted_outside_window, settled_late,
}
use ai_finance_controller.Recon.Policy.{Policy}
use ai_finance_controller.Recon.Scoring.{is_near_tie}

-- `e.evidence_type == "fee_schedule"`
abbrev pub is_fee_schedule : EvidenceType → Bool
is_fee_schedule fee_schedule = true
is_fee_schedule _ = false

-- The latest of the business dates.
abbrev pub latest_from : ℕ → List CanonicalTransaction → ℕ
latest_from best [] = best
latest_from best (p ∷ ps) =
    latest_from (if ltb best p.business_date then p.business_date else best) ps

-- `(later.business_date - earlier.business_date).days`
abbrev pub days_between : (later earlier : ℕ) → ℤ
days_between later earlier = pos later -ℤ pos earlier

abbrev bank_list : Option CanonicalTransaction → List CanonicalTransaction
bank_list none = []
bank_list (some bank) = bank ∷ []

-- The difference is exactly the batch's tax, which is not zero.
unfoldable pub is_tax_shortfall : CanonicalTransaction → Bridge → Bool
is_tax_shortfall batch bridge =
    (pos (abs (difference_minor bridge)) ==ℤ batch.tax_amount_minor)
    && not (batch.tax_amount_minor ==ℤ pos 0)

module _ {W : Type 0} ⦃d : Double W⦄ where
  unfoldable pub severity_for : ℤ → Policy W → ExceptionSeverity
  severity_for amount policy =
      if ltb_ℤ policy.review_required_above_minor amount
      then critical
      else if ltb_ℤ policy.auto_resolve_max_minor amount
      then high
      else if ltb_ℤ (floor_div policy.auto_resolve_max_minor 10) amount
      then medium
      else low

  missing_credit_case :
      CanonicalTransaction
      → Option CanonicalTransaction
      → List (Evidence W)
      → Policy W
      → Hypothesis
      → ExceptionCase W
  missing_credit_case batch bank evidence policy reason = record {
    case_id = codes "exc_mbc_" ++ batch.external_id_norm;
    case_type = missing_bank_credit;
    severity = severity_for batch.net_amount_minor policy;
    amount_at_risk_minor = batch.net_amount_minor;
    currency = batch.currency;
    primary_transaction = some batch;
    transactions = batch ∷ bank_list bank;
    group = none;
    case_text = hypothesis reason;
    confidence = none;
    evidence = evidence;
  }

  -- No credit, one that is within the margin of another, or one found on amount and date alone.
  unfoldable pub detect_missing_bank_credit :
      CanonicalTransaction
      → Option CanonicalTransaction
      → Option W
      → List (Evidence W)
      → Policy W
      → (confirmed_by_reference : Bool) → Option (ExceptionCase W)
  unfolding missing_credit_case
  detect_missing_bank_credit batch bank margin evidence policy confirmed =
      let is_ambiguous = is_some bank && is_near_tie margin policy.candidate_margin in
      let is_unconfirmed = is_some bank && not confirmed && not is_ambiguous in
      if is_some bank && not is_ambiguous && not is_unconfirmed
      then none
      else some (
          missing_credit_case batch bank evidence policy (
            if is_unconfirmed
            then unconfirmed
            else if is_ambiguous
            then ambiguous
            else nothing_found))

  mismatch_case :
      CanonicalTransaction → Bridge → List (Evidence W) → Policy W → Hypothesis → ExceptionCase W
  mismatch_case batch bridge evidence policy reason = record {
    case_id = codes "exc_amt_" ++ batch.external_id_norm;
    case_type = amount_mismatch;
    severity = severity_for (pos (abs (difference_minor bridge))) policy;
    amount_at_risk_minor = pos (abs (difference_minor bridge));
    currency = batch.currency;
    primary_transaction = some batch;
    transactions = batch ∷ [];
    group = none;
    case_text = hypothesis reason;
    confidence = none;
    evidence = evidence;
  }

  unfoldable pub detect_amount_mismatch :
      CanonicalTransaction → Bridge → List (Evidence W) → Policy W → Option (ExceptionCase W)
  unfolding mismatch_case
  detect_amount_mismatch batch bridge evidence policy =
      if balances bridge
      then none
      else some (
          mismatch_case batch bridge evidence policy
            (components_differ (abs (difference_minor bridge))))

  unfoldable pub detect_ledger_mismatch :
      CanonicalTransaction
      → Bridge
      → (entries : List CanonicalTransaction) → List (Evidence W)
      → Policy W
      → Option (ExceptionCase W)
  unfolding mismatch_case is_tax_shortfall
  detect_ledger_mismatch batch bridge entries evidence policy =
      if balances bridge
      then none
      else some
          (record (mismatch_case batch bridge evidence policy (
            if is_tax_shortfall batch bridge
            then revenue_net_of_tax
            else journal_differs (abs (difference_minor bridge)))) {
              case_id = codes "exc_led_" ++ batch.external_id_norm;
              transactions = batch ∷ entries;
            })

  fee_case : CanonicalTransaction → Evidence W → Policy W → ExceptionCase W
  fee_case batch schedule policy = record {
    case_id = codes "exc_fee_" ++ batch.external_id_norm;
    case_type = fee_tax_discrepancy;
    severity = severity_for (batch.fee_amount_minor +ℤ batch.tax_amount_minor) policy;
    amount_at_risk_minor = batch.fee_amount_minor +ℤ batch.tax_amount_minor;
    currency = batch.currency;
    primary_transaction = some batch;
    transactions = batch ∷ [];
    group = none;
    case_text = hypothesis off_schedule;
    confidence = none;
    evidence = schedule ∷ [];
  }

  unfoldable pub fee_finding :
      CanonicalTransaction → Policy W → Option (Evidence W) → Option (ExceptionCase W)
  unfolding fee_case
  fee_finding batch policy none = none
  fee_finding batch policy (some e) = if e.passed then none else some (fee_case batch e policy)

  unfoldable pub detect_fee_tax_discrepancy :
      CanonicalTransaction → List (Evidence W) → Policy W → Option (ExceptionCase W)
  unfolding fee_finding
  detect_fee_tax_discrepancy batch evidence policy =
      fee_finding batch policy (find (λ e. is_fee_schedule e.evidence_type) evidence)

  -- `0 <= distance <= window`
  unfoldable pub in_settlement_window : ℤ → Policy W → Bool
  in_settlement_window distance policy =
      leb_ℤ (pos 0) distance && leb_ℤ distance (pos policy.settlement_window_days)

  date_case : CanonicalTransaction → CanonicalTransaction → Policy W → ExceptionCase W
  date_case batch bank policy = record {
    case_id = codes "exc_dat_" ++ batch.external_id_norm;
    case_type = date_mismatch;
    severity = low;
    amount_at_risk_minor = pos 0;
    currency = batch.currency;
    primary_transaction = some batch;
    transactions = batch ∷ bank ∷ [];
    group = none;
    case_text =
        hypothesis (posted_outside_window (days_between bank.business_date batch.business_date));
    confidence = none;
    evidence =
        record {
          rule_code = r2;
          evidence_type = date_window;
          computed =
              ("settled_on", Operand.day batch.business_date)
              ∷ ("credited_on", Operand.day bank.business_date)
              ∷ (
                "distance_days",
                Operand.amount (days_between bank.business_date batch.business_date),
              )
              ∷ ("window_days", Operand.count policy.settlement_window_days)
              ∷ [];
          passed = false;
        }
        ∷ [];
  }

  unfoldable pub detect_date_mismatch :
      CanonicalTransaction → CanonicalTransaction → Policy W → Option (ExceptionCase W)
  unfolding date_case
  detect_date_mismatch batch bank policy =
      if in_settlement_window (days_between bank.business_date batch.business_date) policy
      then none
      else some (date_case batch bank policy)

  lag_case :
      CanonicalTransaction → List CanonicalTransaction → (latest : ℕ) → Policy W → ExceptionCase W
  lag_case batch payments latest policy = record {
    case_id = codes "exc_lag_" ++ batch.external_id_norm;
    case_type = date_mismatch;
    severity = medium;
    amount_at_risk_minor = pos 0;
    currency = batch.currency;
    primary_transaction = some batch;
    transactions = batch ∷ take 5 payments;
    group = none;
    case_text = hypothesis (settled_late (days_between batch.business_date latest));
    confidence = none;
    evidence =
        record {
          rule_code = r2;
          evidence_type = settlement_window;
          computed =
              ("latest_capture", Operand.day latest)
              ∷ ("settled_on", Operand.day batch.business_date)
              ∷ ("lag_days", Operand.amount (days_between batch.business_date latest))
              ∷ ("window_days", Operand.count policy.settlement_window_days)
              ∷ [];
          passed = false;
        }
        ∷ [];
  }

  -- `lag <= policy.settlement_window_days` fails, for payments that are there.
  unfoldable pub is_late : CanonicalTransaction → List CanonicalTransaction → Policy W → Bool
  is_late batch [] policy = false
  is_late batch (p ∷ ps) policy = not (
      leb_ℤ (days_between batch.business_date (latest_from p.business_date ps))
        (pos policy.settlement_window_days))

  unfoldable pub detect_delayed_settlement :
      CanonicalTransaction → List CanonicalTransaction → Policy W → Option (ExceptionCase W)
  unfolding lag_case
  detect_delayed_settlement batch [] policy = none
  detect_delayed_settlement batch (p ∷ ps) policy =
      if is_late batch (p ∷ ps) policy
      then some (lag_case batch (p ∷ ps) (latest_from p.business_date ps) policy)
      else none
