-- ===== src/Recon/Outcome/Agreement.antt =====
-- The gate's case type and exposure agree with the cases raised, in
-- packages/reconciliation/ledgergraph_reconciliation/engine.py.
use ai_finance_controller.Common.{
  ◌≡◌, refl, Bool, not, Option, none, some, List, [], ◌∷◌, if◌then◌else◌, find, map, Bool-cases,
  inl, inr,
}
use ai_finance_controller.Common.Int.{ℤ, pos, ◌+ℤ◌, abs}
use ai_finance_controller.Common.Text.{is_blank}
use ai_finance_controller.Double.{Double}
use ai_finance_controller.Domain.Enums.{
  ExceptionType, missing_bank_credit, amount_mismatch, date_mismatch, fee_tax_discrepancy,
}
use ai_finance_controller.Domain.Canonical.{CanonicalTransaction}
use ai_finance_controller.Recon.Models.{
  Bridge, difference_minor, balances, Evidence, MatchGroup, ExceptionCase,
}
use ai_finance_controller.Recon.Policy.{Policy}
use ai_finance_controller.Recon.Scoring.{is_near_tie, is_unbalanced}
use ai_finance_controller.Recon.Exceptions.{
  is_fee_schedule, fee_finding, is_late, in_settlement_window, days_between,
  detect_missing_bank_credit, detect_amount_mismatch, detect_ledger_mismatch,
  detect_fee_tax_discrepancy, detect_date_mismatch, detect_delayed_settlement,
}
use ai_finance_controller.Recon.Outcome.{
  is_off_schedule, is_outside_window, is_unconfirmed_credit, filed, bridge_finding, ledger_finding,
  date_finding, fails,
}

-- What a case says of the exposure: its type and its amount.
abbrev pub exposure_of : {W : Type 0} → ExceptionCase W → ExceptionType × ℤ
exposure_of c = (c.case_type, c.amount_at_risk_minor)

abbrev pub when : Bool → ExceptionType → ℤ → List (ExceptionType × ℤ)
when b t amount = if b then (t, amount) ∷ [] else []

abbrev pub size_of : Option Bridge → ℤ
size_of none = pos 0
size_of (some b) = pos (abs (difference_minor b))

module _ {W : Type 0} ⦃d : Double W⦄ (batch : CanonicalTransaction) (evidence : List (Evidence W))
    (policy : Policy W) (g : MatchGroup W) where
  pub missing_lem :
      (bank : Option CanonicalTransaction) (margin : Option W)
      → map exposure_of (
          filed g (
            detect_missing_bank_credit batch bank margin evidence policy
              (not (is_blank batch.reference_id))))
        ≡ when
            (is_unconfirmed_credit batch bank margin policy)
            missing_bank_credit
            batch.net_amount_minor
  unfolding filed detect_missing_bank_credit is_unconfirmed_credit
  missing_lem none margin = refl
  missing_lem (some bank) margin = elim (Bool-cases (is_near_tie margin policy.candidate_margin)) [
    | inl e ↦ rw e refl
    | inr e ↦ elim (Bool-cases (is_blank batch.reference_id)) [
      | inl f ↦ rw (e, f) refl
      | inr f ↦ rw (e, f) refl
    ]
  ]

  pub bridge_lem :
      (bridge : Option Bridge)
      → map exposure_of (filed g (bridge_finding batch bridge evidence policy))
        ≡ when (is_unbalanced bridge) amount_mismatch (size_of bridge)
  unfolding filed bridge_finding detect_amount_mismatch is_unbalanced
  bridge_lem none = refl
  bridge_lem (some b) = elim (Bool-cases (balances b)) [ inl e ↦ rw e refl | inr e ↦ rw e refl ]

  pub ledger_lem :
      (bridge : Option Bridge) (entries : List CanonicalTransaction)
      → map exposure_of (filed g (ledger_finding batch bridge entries evidence policy))
        ≡ when (is_unbalanced bridge) amount_mismatch (size_of bridge)
  unfolding filed ledger_finding detect_ledger_mismatch is_unbalanced
  ledger_lem none entries = refl
  ledger_lem (some b) entries = elim (Bool-cases (balances b)) [
    | inl e ↦ rw e refl
    | inr e ↦ rw e refl
  ]

  fee_finding_lem :
      (o : Option (Evidence W))
      → map exposure_of (filed g (fee_finding batch policy o))
        ≡ when (fails o) fee_tax_discrepancy (batch.fee_amount_minor +ℤ batch.tax_amount_minor)
  unfolding filed fee_finding
  fee_finding_lem none = refl
  fee_finding_lem (some e) = elim (Bool-cases e.passed) [ inl p ↦ rw p refl | inr p ↦ rw p refl ]

  pub fee_lem :
      map exposure_of (filed g (detect_fee_tax_discrepancy batch evidence policy))
      ≡ when
          (is_off_schedule evidence)
          fee_tax_discrepancy
          (batch.fee_amount_minor +ℤ batch.tax_amount_minor)
  unfolding detect_fee_tax_discrepancy is_off_schedule
  fee_lem = fee_finding_lem (find (λ e. is_fee_schedule e.evidence_type) evidence)

  pub date_lem :
      (bank : Option CanonicalTransaction)
      → map exposure_of (filed g (date_finding batch bank policy))
        ≡ when (is_outside_window batch bank policy) date_mismatch (pos 0)
  unfolding filed date_finding detect_date_mismatch is_outside_window
  date_lem none = refl
  date_lem (some bank) =
      elim (Bool-cases
        (in_settlement_window (days_between bank.business_date batch.business_date) policy)) [
          | inl e ↦ rw e refl
          | inr e ↦ rw e refl
        ]

  pub late_lem :
      (payments : List CanonicalTransaction)
      → map exposure_of (filed g (detect_delayed_settlement batch payments policy))
        ≡ when (is_late batch payments policy) date_mismatch (pos 0)
  unfolding filed detect_delayed_settlement is_late
  late_lem [] = refl
  late_lem (p ∷ ps) = elim (Bool-cases (is_late batch (p ∷ ps) policy)) [
    | inl e ↦ rw e refl
    | inr e ↦ rw e refl
  ]
