-- ===== src/Recon/Engine.antt =====
-- The run of packages/reconciliation/ledgergraph_reconciliation/engine.py: `execute` and its stages
-- after the settlement chain. The time that a stage takes is left out.
pub mod Queue
pub mod Overflow
use ai_finance_controller.Common.{
  ℕ, Bool, true, false, not, ◌&&◌, ◌||◌, Option, none, some, List, [], ◌∷◌, ◌++◌, if◌then◌else◌,
  filter, map, length, any, head?,
}
use ai_finance_controller.Common.Int.{ℤ, pos, ltb_ℤ, leb_ℤ, ◌==ℤ◌}
use ai_finance_controller.Common.Text.{Text, codes, text_eq, text_leb}
use ai_finance_controller.Common.Sort.{sort}
use ai_finance_controller.Double.{Double}
use ai_finance_controller.Domain.Enums.{
  status_conflict, ExceptionSeverity, high, medium, is_pending_review, is_invoice_role,
}
use ai_finance_controller.Domain.Canonical.{CanonicalTransaction}
use ai_finance_controller.Recon.Models.{
  MatchGroup, ExceptionCase, RunResult, CaseText, gate_failed, total_amount_minor, group_currency,
  role_of,
}
use ai_finance_controller.Recon.Index.{TransactionIndex, build, consume}
use ai_finance_controller.Recon.Policy.{Policy, apply_gate}
use ai_finance_controller.Recon.Scoring.{score_group}
use ai_finance_controller.Recon.Rules.{match_r4_invoice_to_payment}
use ai_finance_controller.Recon.Exceptions.Standalone.{
  detect_unmatched_payments, detect_duplicates, detect_refund_unlinked, detect_status_conflicts,
}
use ai_finance_controller.Recon.Settlement.{RunState, with_score, reconcile_settlements}

-- The groups that some case points at, by their ids.
abbrev pub queued_by : {W : Type 0} → Option (MatchGroup W) → List Text
queued_by none = []
queued_by (some g) = g.group_id ∷ []

unfoldable pub queued_ids : {W : Type 0} → List (ExceptionCase W) → List Text
queued_ids [] = []
queued_ids (case ∷ cases) = queued_by case.group ++ queued_ids cases

module _ {W : Type 0} ⦃d : Double W⦄ where
  -- The group with the score and the gate of the defaults: no bridge, no rival, a margin of 0.05.
  unfoldable pub invoice_group : Policy W → MatchGroup W → MatchGroup W
  invoice_group policy group =
      apply_gate (with_score group (score_group group none none (d.literal 500))) policy none none
        (pos 0)

  unfoldable pub claim_invoices : Policy W → RunState W → List (MatchGroup W) → RunState W
  claim_invoices policy s [] = s
  claim_invoices policy s (group ∷ groups) =
      claim_invoices policy
        (record s {
          index = consume s.index (role_of is_invoice_role group);
          groups = s.groups ++ invoice_group policy group ∷ [];
        })
        groups

  unfoldable pub reconcile_invoices : Policy W → RunState W → RunState W
  reconcile_invoices policy s = claim_invoices policy s (match_r4_invoice_to_payment s.index)

  unfoldable pub detect_standalone : Policy W → RunState W → RunState W
  detect_standalone policy s = record s {
    cases =
        s.cases
        ++ (detect_unmatched_payments s.index policy
            ++ (detect_duplicates s.index policy
                ++ (detect_refund_unlinked s.index policy
                    ++ detect_status_conflicts s.index policy)));
  }

  -- `group.status is not PENDING_REVIEW or group.group_id in queued` fails.
  unfoldable pub is_lost : List Text → MatchGroup W → Bool
  is_lost queued group = is_pending_review group.status && not (any (text_eq group.group_id) queued)

  abbrev first_transaction : MatchGroup W → Option CanonicalTransaction
  first_transaction group = head? (map (λ l. l.transaction) group.links)

  unfoldable pub review_case : Policy W → MatchGroup W → ExceptionCase W
  review_case policy group = record {
    case_id = codes "exc_rev_" ++ group.group_id;
    case_type = status_conflict;
    severity =
        if ltb_ℤ policy.auto_resolve_max_minor (total_amount_minor group) then high else medium;
    amount_at_risk_minor = total_amount_minor group;
    currency = group_currency group;
    primary_transaction = first_transaction group;
    transactions = map (λ l. l.transaction) group.links;
    group = some group;
    case_text = gate_failed group.matched_by_rule (filter (λ c. not c.passed) group.gate);
    confidence = some group.confidence;
    evidence = group.evidence;
  }

  -- `queued` is computed once, in front of the loop.
  unfoldable pub ensure_every_review_is_queued : Policy W → RunState W → RunState W
  ensure_every_review_is_queued policy s = record s {
    cases = s.cases ++ map (review_case policy) (filter (is_lost (queued_ids s.cases)) s.groups);
  }

  -- The key `(-amount_at_risk_minor, case_id)`.
  unfoldable pub riskier_first : ExceptionCase W → ExceptionCase W → Bool
  riskier_first a b =
      ltb_ℤ b.amount_at_risk_minor a.amount_at_risk_minor
      || ((a.amount_at_risk_minor ==ℤ b.amount_at_risk_minor) && text_leb a.case_id b.case_id)

  abbrev pub initial_state : List CanonicalTransaction → RunState W
  initial_state transactions = record { index = build transactions; groups = []; cases = [] }

  -- The stages in their order.
  unfoldable pub run_stages : Policy W → List CanonicalTransaction → RunState W
  run_stages policy transactions = ensure_every_review_is_queued policy (
      detect_standalone policy
        (reconcile_invoices policy (reconcile_settlements policy (initial_state transactions))))

  unfoldable pub execute :
      List CanonicalTransaction
      → (run_id : Text) → Policy W
      → (ruleset_version : Text) → RunResult W
  execute transactions run_id policy ruleset_version =
      let s = run_stages policy transactions in
      record {
        run_id = run_id;
        ruleset_version = ruleset_version;
        groups = s.groups;
        cases = sort riskier_first s.cases;
        records_processed = length transactions;
      }
