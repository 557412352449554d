-- ===== src/Recon/Outcome/Exposure.antt =====
-- The two answers of packages/reconciliation/ledgergraph_reconciliation/engine.py about one
-- settlement: what the gate is told, and which cases go to the queue.
use mathlib.Core.List.{map-append, map-map}
use ai_finance_controller.Common.{
  ◌≡◌, refl, sym, ap, ◌∙◌, Bool, true, false, Option, none, some, List, [], ◌∷◌, ◌++◌, arith,
  if◌then◌else◌, filter, map, head?, Bool-cases, inl, inr,
}
use ai_finance_controller.Common.Int.{ℤ, pos, ◌+ℤ◌}
use ai_finance_controller.Double.{Double}
use ai_finance_controller.Domain.Enums.{
  ExceptionType, missing_bank_credit, amount_mismatch, date_mismatch, fee_tax_discrepancy,
  same_exception,
}
use ai_finance_controller.Domain.Canonical.{CanonicalTransaction}
use ai_finance_controller.Recon.Models.{
  Bridge, Evidence, MatchGroup, ExceptionCase, max_or_zero, balances,
}
use ai_finance_controller.Recon.Policy.{Policy}
use ai_finance_controller.Recon.Scoring.{is_unbalanced}
use ai_finance_controller.Recon.Exceptions.{
  is_late, detect_fee_tax_discrepancy, detect_delayed_settlement,
}
use ai_finance_controller.Recon.Outcome.{
  is_off_schedule, is_outside_window, is_unconfirmed_credit, classify, open_difference,
  amount_at_risk, filed, bridge_finding, ledger_finding, date_finding, confirmed_cases,
  unless_filed, raised_cases,
}
use ai_finance_controller.Recon.Outcome.Agreement.{
  exposure_of, when, size_of, missing_lem, bridge_lem, ledger_lem, fee_lem, date_lem, late_lem,
}

map_append5 :
    {A B : Type 0} (f : A → B) (as' bs cs ds es : List A)
    → map f (as' ++ (bs ++ (cs ++ (ds ++ es))))
      ≡ map f as' ++ (map f bs ++ (map f cs ++ (map f ds ++ map f es)))
map_append5 f as' bs cs ds es =
    rw
      (
        map-append f as' (bs ++ (cs ++ (ds ++ es))),
        map-append f bs (cs ++ (ds ++ es)),
        map-append f cs (ds ++ es),
        map-append f ds es,
      )
      refl

module _ {W : Type 0} where
  unless_filed-none :
      (xs ys : List (ExceptionCase W))
      → map exposure_of xs ≡ []
      → map exposure_of (unless_filed xs ys) ≡ map exposure_of ys
  unfolding unless_filed
  unless_filed-none [] ys h = refl
  unless_filed-none (x ∷ xs) ys h = cc

  unless_filed-some :
      (xs ys : List (ExceptionCase W)) (e : ExceptionType × ℤ)
      → map exposure_of xs ≡ e ∷ []
      → map exposure_of (unless_filed xs ys) ≡ e ∷ []
  unfolding unless_filed
  unless_filed-some [] ys e h = cc
  unless_filed-some (x ∷ xs) ys e h = h

-- The amounts of the cases of one type.
abbrev pub amounts_of : Option ExceptionType → List (ExceptionType × ℤ) → List ℤ
amounts_of none es = []
amounts_of (some t) es = map (λ e. e.1) (filter (λ e. same_exception t e.0) es)

open_difference_lem :
    (o : Option Bridge) → open_difference o ≡ (if is_unbalanced o then size_of o ∷ [] else [])
unfolding open_difference is_unbalanced
open_difference_lem none = refl
open_difference_lem (some b) = elim (Bool-cases (balances b)) [
  | inl e ↦ rw e refl
  | inr e ↦ rw e refl
]

-- The order of the tests, and the exposures that they let through.
abbrev ladder : (u b l f w late : Bool) → Option ExceptionType
ladder u b l f w late =
    if u
    then some missing_bank_credit
    else if b
    then some amount_mismatch
    else if l
    then some amount_mismatch
    else if f
    then some fee_tax_discrepancy
    else if w
    then some date_mismatch
    else if late
    then some date_mismatch
    else none

abbrev risk : Option ExceptionType → (net off_bridge off_ledger fees : ℤ) (b l : Bool) → ℤ
risk (some missing_bank_credit) net off_bridge off_ledger fees b l = net
risk (some amount_mismatch) net off_bridge off_ledger fees b l =
    max_or_zero ((if b then off_bridge ∷ [] else []) ++ (if l then off_ledger ∷ [] else []))
risk (some fee_tax_discrepancy) net off_bridge off_ledger fees b l = fees
risk _ net off_bridge off_ledger fees b l = pos 0

risk_lem :
    (batch : CanonicalTransaction) (bridge ledger_bridge : Option Bridge) (u b l f w late : Bool)
    → is_unbalanced bridge ≡ b
    → is_unbalanced ledger_bridge ≡ l
    → amount_at_risk (ladder u b l f w late) batch bridge ledger_bridge
      ≡ risk
          (ladder u b l f w late)
          batch.net_amount_minor
          (size_of bridge)
          (size_of ledger_bridge)
          (batch.fee_amount_minor +ℤ batch.tax_amount_minor)
          b
          l
unfolding amount_at_risk
risk_lem batch bridge ledger true b l f w late h k = refl
risk_lem batch bridge ledger false true l f w late h k =
    rw (open_difference_lem bridge, open_difference_lem ledger, h, k) refl
risk_lem batch bridge ledger false false true f w late h k =
    rw (open_difference_lem bridge, open_difference_lem ledger, h, k) refl
risk_lem batch bridge ledger false false false true w late h k = refl
risk_lem batch bridge ledger false false false false true late h k = refl
risk_lem batch bridge ledger false false false false false true h k = refl
risk_lem batch bridge ledger false false false false false false h k = refl

risk_amounts :
    (net off_bridge off_ledger fees : ℤ) (u b l f w late : Bool)
    → risk (ladder u b l f w late) net off_bridge off_ledger fees b l
      ≡ max_or_zero (
          amounts_of (ladder u b l f w late) (
            if u
            then (missing_bank_credit, net) ∷ []
            else when b amount_mismatch off_bridge
              ++ (when l amount_mismatch off_ledger
                  ++ (when f fee_tax_discrepancy fees
                      ++ (when w date_mismatch (pos 0) ++ when late date_mismatch (pos 0))))))
risk_amounts net off_bridge off_ledger fees u b l f w late = ground arith

module _ {W : Type 0} ⦃d : Double W⦄ (batch : CanonicalTransaction)
    (bank : Option CanonicalTransaction) (margin : Option W) (bridge ledger_bridge : Option Bridge)
    (entries : List CanonicalTransaction) (evidence : List (Evidence W)) (group : MatchGroup W)
    (policy : Policy W) (payments : List CanonicalTransaction) where
  abbrev confirmed_exposures : List (ExceptionType × ℤ)
  confirmed_exposures =
      when (is_unbalanced bridge) amount_mismatch (size_of bridge)
      ++ (when (is_unbalanced ledger_bridge) amount_mismatch (size_of ledger_bridge)
          ++ (when (is_off_schedule evidence) fee_tax_discrepancy
                (batch.fee_amount_minor +ℤ batch.tax_amount_minor)
              ++ (when (is_outside_window batch bank policy) date_mismatch (pos 0)
                  ++ when (is_late batch payments policy) date_mismatch (pos 0))))

  confirmed_cases_lem :
      map exposure_of
        (confirmed_cases batch bank bridge ledger_bridge entries evidence group policy payments)
      ≡ confirmed_exposures
  unfolding confirmed_cases
  confirmed_cases_lem =
      map_append5 exposure_of (filed group (bridge_finding batch bridge evidence policy))
        (filed group (ledger_finding batch ledger_bridge entries evidence policy))
        (filed group (detect_fee_tax_discrepancy batch evidence policy))
        (filed group (date_finding batch bank policy))
        (filed group (detect_delayed_settlement batch payments policy))
      ∙ rw
          (
            bridge_lem batch evidence policy group bridge,
            ledger_lem batch evidence policy group ledger_bridge entries,
            fee_lem batch evidence policy group,
            date_lem batch evidence policy group bank,
            late_lem batch evidence policy group payments,
          )
          refl

  raised_cases_lem :
      map exposure_of
        (raised_cases batch bank margin bridge ledger_bridge entries evidence group policy payments)
      ≡ (if is_unconfirmed_credit batch bank margin policy
          then (missing_bank_credit, batch.net_amount_minor) ∷ []
          else confirmed_exposures)
  unfolding raised_cases
  raised_cases_lem = elim (Bool-cases (is_unconfirmed_credit batch bank margin policy)) [
    | inl e ↦
        rw e (
          unless_filed-some _ _ _ (missing_lem batch evidence policy group bank margin ∙ rw e refl))
    | inr e ↦ rw e (
        unless_filed-none _ _ (missing_lem batch evidence policy group bank margin ∙ rw e refl)
        ∙ confirmed_cases_lem)
  ]

  -- The type that the gate is told is the type of the first case raised for the settlement, and no
  -- type if no case is raised.
  pub classify-raised_cases :
      head? (
        map
          (λ c. c.case_type)
          (raised_cases batch bank margin bridge ledger_bridge entries evidence group policy
            payments))
      ≡ classify batch bank margin bridge ledger_bridge evidence policy payments
  unfolding classify
  classify-raised_cases =
      ap head? (sym (map-map (λ e. e.0) exposure_of _))
      ∙ ap (λ es. head? (map (λ e. e.0) es)) raised_cases_lem
      ∙ ground arith

  -- The money at risk that the gate is told is the largest amount among the raised cases of the
  -- type that it is told, and zero if there is none.
  pub amount_at_risk-raised_cases :
      amount_at_risk
        (classify batch bank margin bridge ledger_bridge evidence policy payments)
        batch
        bridge
        ledger_bridge
      ≡ max_or_zero (
          amounts_of (classify batch bank margin bridge ledger_bridge evidence policy payments) (
            map exposure_of (
              raised_cases batch bank margin bridge ledger_bridge entries evidence group policy
                payments)))
  unfolding classify
  amount_at_risk-raised_cases =
      risk_lem batch bridge ledger_bridge (is_unconfirmed_credit batch bank margin policy) _ _
        (is_off_schedule evidence) (is_outside_window batch bank policy)
        (is_late batch payments policy) refl refl
      ∙ risk_amounts batch.net_amount_minor (size_of bridge) (size_of ledger_bridge)
          (batch.fee_amount_minor +ℤ batch.tax_amount_minor)
          (is_unconfirmed_credit batch bank margin policy) (is_unbalanced bridge)
          (is_unbalanced ledger_bridge) (is_off_schedule evidence)
          (is_outside_window batch bank policy) (is_late batch payments policy)
      ∙ rw raised_cases_lem refl
