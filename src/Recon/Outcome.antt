-- ===== src/Recon/Outcome.antt =====
-- What a settlement group leads to, of packages/reconciliation/ledgergraph_reconciliation/engine.py:
-- the exception type that the gate is asked about, the money at risk, and the cases raised.
pub mod Agreement
pub mod Exposure
use ai_finance_controller.Common.{
  Bool, true, false, not, ◌&&◌, ◌||◌, Option, none, some, List, [], ◌∷◌, ◌++◌, if◌then◌else◌,
  is_some, is_empty, find,
}
use ai_finance_controller.Common.Int.{ℤ, pos, ◌+ℤ◌, abs}
use ai_finance_controller.Common.Text.{is_blank}
use ai_finance_controller.Double.{Double}
use ai_finance_controller.Domain.Enums.{
  ExceptionType, missing_bank_credit, amount_mismatch, date_mismatch, fee_tax_discrepancy,
}
use ai_finance_controller.Domain.Canonical.{CanonicalTransaction}
use ai_finance_controller.Recon.Models.{
  Bridge, difference_minor, balances, Evidence, MatchGroup, ExceptionCase, max_or_zero,
}
use ai_finance_controller.Recon.Policy.{Policy}
use ai_finance_controller.Recon.Scoring.{is_near_tie, is_unbalanced}
use ai_finance_controller.Recon.Exceptions.{
  is_fee_schedule, days_between, in_settlement_window, is_late, detect_missing_bank_credit,
  detect_amount_mismatch, detect_ledger_mismatch, detect_fee_tax_discrepancy, detect_date_mismatch,
  detect_delayed_settlement,
}

-- `schedule is not None and not schedule.passed`
abbrev pub fails : {W : Type 0} → Option (Evidence W) → Bool
fails none = false
fails (some e) = not e.passed

unfoldable pub is_off_schedule : {W : Type 0} → List (Evidence W) → Bool
is_off_schedule evidence = fails (find (λ e. is_fee_schedule e.evidence_type) evidence)

module _ {W : Type 0} ⦃d : Double W⦄ where
  -- The credit was posted before the settlement or after its window.
  unfoldable pub is_outside_window :
      CanonicalTransaction → Option CanonicalTransaction → Policy W → Bool
  is_outside_window batch none policy = false
  is_outside_window batch (some bank) policy =
      not (in_settlement_window (days_between bank.business_date batch.business_date) policy)

  -- No credit, one that is within the margin of another, or a settlement without a reference.
  unfoldable pub is_unconfirmed_credit :
      CanonicalTransaction → Option CanonicalTransaction → Option W → Policy W → Bool
  is_unconfirmed_credit batch bank margin policy =
      not (is_some bank)
      || is_near_tie margin policy.candidate_margin
      || is_blank batch.reference_id

  unfoldable pub classify :
      CanonicalTransaction
      → (bank : Option CanonicalTransaction) (margin : Option W)
        (bridge ledger_bridge : Option Bridge) (evidence : List (Evidence W))
      → Policy W
      → (payments : List CanonicalTransaction) → Option ExceptionType
  classify batch bank margin bridge ledger_bridge evidence policy payments =
      if is_unconfirmed_credit batch bank margin policy
      then some missing_bank_credit
      else if is_unbalanced bridge
      then some amount_mismatch
      else if is_unbalanced ledger_bridge
      then some amount_mismatch
      else if is_off_schedule evidence
      then some fee_tax_discrepancy
      else if is_outside_window batch bank policy
      then some date_mismatch
      else if is_late batch payments policy
      then some date_mismatch
      else none

-- A missing credit is the only case raised: `return` leaves the others out.
unfoldable pub unless_filed :
    {W : Type 0} → List (ExceptionCase W) → List (ExceptionCase W) → List (ExceptionCase W)
unless_filed [] rest = rest
unless_filed (case ∷ cases) rest = case ∷ cases

-- The difference of a bridge that is there and does not balance.
unfoldable pub open_difference : Option Bridge → List ℤ
open_difference none = []
open_difference (some b) = if balances b then [] else pos (abs (difference_minor b)) ∷ []

unfoldable pub amount_at_risk :
    Option ExceptionType → CanonicalTransaction → (bridge ledger_bridge : Option Bridge) → ℤ
amount_at_risk none batch bridge ledger_bridge = pos 0
amount_at_risk (some missing_bank_credit) batch bridge ledger_bridge = batch.net_amount_minor
amount_at_risk (some amount_mismatch) batch bridge ledger_bridge =
    max_or_zero (open_difference bridge ++ open_difference ledger_bridge)
amount_at_risk (some fee_tax_discrepancy) batch bridge ledger_bridge =
    batch.fee_amount_minor +ℤ batch.tax_amount_minor
amount_at_risk (some date_mismatch) batch bridge ledger_bridge = pos 0
amount_at_risk (some _) batch bridge ledger_bridge = pos 0

module _ {W : Type 0} ⦃d : Double W⦄ where
  -- `if case is not None`: the case, filed under the group with the group's confidence.
  unfoldable pub filed : MatchGroup W → Option (ExceptionCase W) → List (ExceptionCase W)
  filed group none = []
  filed group (some case) =
      record case { group = some group; confidence = some group.confidence } ∷ []

  unfoldable pub bridge_finding :
      CanonicalTransaction → Option Bridge → List (Evidence W) → Policy W → Option (ExceptionCase W)
  bridge_finding batch none evidence policy = none
  bridge_finding batch (some bridge) evidence policy =
      detect_amount_mismatch batch bridge evidence policy

  unfoldable pub ledger_finding :
      CanonicalTransaction
      → Option Bridge
      → (entries : List CanonicalTransaction) → List (Evidence W)
      → Policy W
      → Option (ExceptionCase W)
  ledger_finding batch none entries evidence policy = none
  ledger_finding batch (some bridge) entries evidence policy =
      detect_ledger_mismatch batch bridge entries evidence policy

  unfoldable pub date_finding :
      CanonicalTransaction → Option CanonicalTransaction → Policy W → Option (ExceptionCase W)
  date_finding batch none policy = none
  date_finding batch (some bank) policy = detect_date_mismatch batch bank policy

  -- The cases when the credit is confirmed.
  unfoldable pub confirmed_cases :
      CanonicalTransaction
      → (bank : Option CanonicalTransaction) (bridge ledger_bridge : Option Bridge)
        (entries : List CanonicalTransaction) (evidence : List (Evidence W)) (group : MatchGroup W)
      → Policy W
      → (payments : List CanonicalTransaction) → List (ExceptionCase W)
  confirmed_cases batch bank bridge ledger_bridge entries evidence group policy payments =
      filed group (bridge_finding batch bridge evidence policy)
      ++ (filed group (ledger_finding batch ledger_bridge entries evidence policy)
          ++ (filed group (detect_fee_tax_discrepancy batch evidence policy)
              ++ (filed group (date_finding batch bank policy)
                  ++ filed group (detect_delayed_settlement batch payments policy))))

  -- The cases that `_raise_cases` appends. `payments` are those among the group's links.
  unfoldable pub raised_cases :
      CanonicalTransaction
      → (bank : Option CanonicalTransaction) (margin : Option W)
        (bridge ledger_bridge : Option Bridge) (entries : List CanonicalTransaction)
        (evidence : List (Evidence W)) (group : MatchGroup W)
      → Policy W
      → (payments : List CanonicalTransaction) → List (ExceptionCase W)
  raised_cases batch bank margin bridge ledger_bridge entries evidence group policy payments =
      unless_filed
        (filed group (
          detect_missing_bank_credit batch bank margin evidence policy
            (not (is_blank batch.reference_id))))
        (confirmed_cases batch bank bridge ledger_bridge entries evidence group policy payments)
