-- ===== src/Tests/Settlements.antt =====
-- The settlement chain, the queue and the gate on a small run.
use ai_finance_controller.Common.{
  arith, ◌≡◌, refl, some, none, List, [], ◌∷◌, inl, inr, In, true, length, map,
}
use mathlib.Core.List.{Perm}
use ai_finance_controller.Common.Sort.{IsSorted}
use ai_finance_controller.Common.Int.{ℤ, pos}
use ai_finance_controller.Common.Text.{codes}
use ai_finance_controller.Double.Scaled.{scaled}
use ai_finance_controller.Domain.Enums.{auto_resolved}
use ai_finance_controller.Domain.Canonical.{CanonicalTransaction}
use ai_finance_controller.Recon.Models.{MatchGroup, pending_review}
use ai_finance_controller.Recon.Index.{TransactionIndex, build}
use ai_finance_controller.Recon.Policy.{Policy, default_policy}
use ai_finance_controller.Recon.Rules.{PaymentMap, match_r1_payment_to_line}
use ai_finance_controller.Recon.Settlement.{settlement_outcome, reconcile_settlements}
use ai_finance_controller.Recon.Settlement.Cleared.{IsBacked, settlement_outcome-IsBacked}
use ai_finance_controller.Recon.Settlement.Consumed.{ClaimsOnce, reconcile_settlements-ClaimsOnce}
use ai_finance_controller.Recon.Engine.{
  initial_state, execute, queued_ids, run_stages, riskier_first,
}
use ai_finance_controller.Recon.Index.Overflow.{max_ordinal}
use ai_finance_controller.Recon.Engine.Overflow.{run_overflows, run_engine, run_engine-returns}
use ai_finance_controller.Recon.Engine.Queue.{
  IsRanked, execute-queues_every_review, execute-sorts_cases,
}
use ai_finance_controller.Common.Result.{ok}
use ai_finance_controller.Tests.Data.{batch, lost_batch, records}

abbrev policy : Policy ℤ
policy = default_policy

abbrev index : TransactionIndex
index = build records

abbrev linked : PaymentMap
linked = match_r1_payment_to_line index

-- The complete settlement is cleared.
batch-cleared : (settlement_outcome linked policy index batch).0.status ≡ auto_resolved
unfolding ai_finance_controller.Recon.Models.difference_minor
    ai_finance_controller.Recon.Models.balances ai_finance_controller.Recon.Models.balances_exactly
    ai_finance_controller.Recon.Models.role_of
    ai_finance_controller.Recon.Models.has_passing_evidence
    ai_finance_controller.Recon.Bridge.gross_total ai_finance_controller.Recon.Bridge.fee_total
    ai_finance_controller.Recon.Bridge.tax_total
    ai_finance_controller.Recon.Bridge.build_settlement_bridge
    ai_finance_controller.Recon.Bridge.build_ledger_bridge
    ai_finance_controller.Recon.Bridge.expected_fee_minor
    ai_finance_controller.Recon.Bridge.fee_matches_schedule
    ai_finance_controller.Recon.Policy.distinct_flags ai_finance_controller.Recon.Policy.is_blocked
    ai_finance_controller.Recon.Policy.has_dispute ai_finance_controller.Recon.Policy.margin_ok
    ai_finance_controller.Recon.Policy.evaluate_gate ai_finance_controller.Recon.Policy.apply_gate
    ai_finance_controller.Recon.Index.add_transaction
    ai_finance_controller.Recon.Index.add_transactions ai_finance_controller.Recon.Index.build
    ai_finance_controller.Recon.Index.of_type ai_finance_controller.Recon.Index.get
    ai_finance_controller.Recon.Index.referencing ai_finance_controller.Recon.Index.is_consumed
    ai_finance_controller.Recon.Rules.match_r1_payment_to_line
    ai_finance_controller.Recon.Rules.is_exact_credit
    ai_finance_controller.Recon.Rules.match_r2_batch_to_bank
    ai_finance_controller.Recon.Rules.is_off_schedule
    ai_finance_controller.Recon.Rules.check_r3_batch_integrity
    ai_finance_controller.Recon.Rules.check_r5_ledger
    ai_finance_controller.Recon.Outcome.is_off_schedule
    ai_finance_controller.Recon.Outcome.is_outside_window
    ai_finance_controller.Recon.Outcome.is_unconfirmed_credit
    ai_finance_controller.Recon.Outcome.classify ai_finance_controller.Recon.Outcome.amount_at_risk
    ai_finance_controller.Recon.Scoring.rule_strength
    ai_finance_controller.Recon.Scoring.is_unbalanced
    ai_finance_controller.Recon.Scoring.data_quality ai_finance_controller.Recon.Scoring.consistency
    ai_finance_controller.Recon.Scoring.unambiguity ai_finance_controller.Recon.Scoring.is_near_tie
    ai_finance_controller.Recon.Scoring.caps_of ai_finance_controller.Recon.Scoring.apply_caps
    ai_finance_controller.Recon.Scoring.raw_score ai_finance_controller.Recon.Scoring.score_group
    ai_finance_controller.Recon.Settlement.lines_of
    ai_finance_controller.Recon.Settlement.entries_of
    ai_finance_controller.Recon.Settlement.line_links
    ai_finance_controller.Recon.Settlement.matched_lines
    ai_finance_controller.Recon.Settlement.settlement_links
    ai_finance_controller.Recon.Settlement.or_scored
    ai_finance_controller.Recon.Settlement.find_bank
    ai_finance_controller.Recon.Settlement.r1_evidence
    ai_finance_controller.Recon.Settlement.settlement_group
    ai_finance_controller.Recon.Settlement.with_score
    ai_finance_controller.Recon.Settlement.settlement_outcome
    ai_finance_controller.Recon.Exceptions.in_settlement_window
    ai_finance_controller.Recon.Exceptions.is_late ai_finance_controller.Domain.Canonical.norm
    ai_finance_controller.Common.Dict.lookup ai_finance_controller.Common.Dict.insert
    ai_finance_controller.Common.Dict.set_default ai_finance_controller.Common.Dict.push
    ai_finance_controller.Common.Dict.get_list ai_finance_controller.Common.Int.◌+ℤ◌
    ai_finance_controller.Common.Int.◌-ℤ◌ ai_finance_controller.Common.Int.◌*ℤ◌
    ai_finance_controller.Common.Int.floor_div
batch-cleared = refl

settlement_outcome-IsBacked_example : IsBacked linked policy index batch
settlement_outcome-IsBacked_example =
    settlement_outcome-IsBacked linked policy index batch (inr (inl refl)) (inr (inr (inl refl)))
      batch-cleared

-- The settlement without a reference waits for a human.
abbrev waiting : MatchGroup ℤ
waiting = (settlement_outcome [] policy (build (lost_batch ∷ [])) lost_batch).0

waiting-In :
    In waiting
      (pending_review (execute (lost_batch ∷ []) (codes "run_local") policy (codes "rules@1.4.0")))
unfolding ai_finance_controller.Recon.Rules.Scored.bank_credits
    ai_finance_controller.Recon.Rules.Scored.ranked ai_finance_controller.Recon.Rules.Scored.choose
    ai_finance_controller.Recon.Rules.Scored.match_r6_batch_to_bank_scored
    ai_finance_controller.Recon.Models.difference_minor ai_finance_controller.Recon.Models.balances
    ai_finance_controller.Recon.Models.balances_exactly
    ai_finance_controller.Recon.Models.pending_review ai_finance_controller.Recon.Bridge.gross_total
    ai_finance_controller.Recon.Bridge.fee_total ai_finance_controller.Recon.Bridge.tax_total
    ai_finance_controller.Recon.Bridge.build_settlement_bridge
    ai_finance_controller.Recon.Policy.distinct_flags
    ai_finance_controller.Recon.Policy.evaluate_gate ai_finance_controller.Recon.Policy.apply_gate
    ai_finance_controller.Recon.Index.add_transaction
    ai_finance_controller.Recon.Index.add_transactions ai_finance_controller.Recon.Index.build
    ai_finance_controller.Recon.Index.of_type ai_finance_controller.Recon.Index.referencing
    ai_finance_controller.Recon.Index.consume ai_finance_controller.Recon.Index.is_plausible
    ai_finance_controller.Recon.Index.visit ai_finance_controller.Recon.Index.scan_bucket
    ai_finance_controller.Recon.Index.scan_amounts ai_finance_controller.Recon.Index.scan_days
    ai_finance_controller.Recon.Index.candidates
    ai_finance_controller.Recon.Rules.match_r2_batch_to_bank
    ai_finance_controller.Recon.Rules.check_r3_batch_integrity
    ai_finance_controller.Recon.Rules.match_r4_invoice_to_payment
    ai_finance_controller.Recon.Engine.claim_invoices
    ai_finance_controller.Recon.Engine.reconcile_invoices
    ai_finance_controller.Recon.Engine.detect_standalone
    ai_finance_controller.Recon.Engine.ensure_every_review_is_queued
    ai_finance_controller.Recon.Engine.run_stages ai_finance_controller.Recon.Engine.execute
    ai_finance_controller.Recon.Scoring.rule_strength
    ai_finance_controller.Recon.Scoring.is_unbalanced
    ai_finance_controller.Recon.Scoring.data_quality ai_finance_controller.Recon.Scoring.consistency
    ai_finance_controller.Recon.Scoring.unambiguity ai_finance_controller.Recon.Scoring.is_near_tie
    ai_finance_controller.Recon.Scoring.caps_of ai_finance_controller.Recon.Scoring.apply_caps
    ai_finance_controller.Recon.Scoring.raw_score ai_finance_controller.Recon.Scoring.score_group
    ai_finance_controller.Recon.Settlement.lines_of
    ai_finance_controller.Recon.Settlement.entries_of
    ai_finance_controller.Recon.Settlement.line_links
    ai_finance_controller.Recon.Settlement.matched_lines
    ai_finance_controller.Recon.Settlement.settlement_links
    ai_finance_controller.Recon.Settlement.or_scored
    ai_finance_controller.Recon.Settlement.find_bank
    ai_finance_controller.Recon.Settlement.r1_evidence
    ai_finance_controller.Recon.Settlement.settlement_group
    ai_finance_controller.Recon.Settlement.with_score
    ai_finance_controller.Recon.Settlement.settlement_outcome
    ai_finance_controller.Recon.Settlement.settle_batch
    ai_finance_controller.Recon.Settlement.settle_batches
    ai_finance_controller.Recon.Settlement.reconcile_settlements
    ai_finance_controller.Common.Dict.push ai_finance_controller.Common.Dict.get_list
    ai_finance_controller.Common.Int.◌+ℤ◌ ai_finance_controller.Common.Int.◌-ℤ◌
    ai_finance_controller.Common.Int.◌*ℤ◌ ai_finance_controller.Common.Int.floor_div
    ai_finance_controller.Common.Sort.sort
waiting-In = inl refl

execute-queues_every_review_example :
    In waiting.group_id (
      queued_ids (execute (lost_batch ∷ []) (codes "run_local") policy (codes "rules@1.4.0")).cases)
execute-queues_every_review_example =
    execute-queues_every_review (lost_batch ∷ []) (codes "run_local") policy (codes "rules@1.4.0")
      waiting waiting-In

execute-sorts_cases_example :
    IsRanked (execute records (codes "run_local") policy (codes "rules@1.4.0")).cases
    × Perm
        (execute records (codes "run_local") policy (codes "rules@1.4.0")).cases
        (run_stages policy records).cases
execute-sorts_cases_example =
    execute-sorts_cases records (codes "run_local") policy (codes "rules@1.4.0")

reconcile_settlements-ClaimsOnce_example :
    ClaimsOnce (reconcile_settlements policy (initial_state records))
reconcile_settlements-ClaimsOnce_example =
    reconcile_settlements-ClaimsOnce policy (initial_state records) (tt, tt)

-- The run has two settlements and an invoice match, and two cases in its queue.
run_counts :
    (length (execute records (codes "run_local") policy (codes "rules@1.4.0")).groups ≡ 3)
    × (map
          (λ c. c.amount_at_risk_minor)
          (execute records (codes "run_local") policy (codes "rules@1.4.0")).cases
        ≡ pos 50_000 ∷ pos 7000 ∷ [])
unfolding ai_finance_controller.Recon.Rules.Scored.bank_credits
    ai_finance_controller.Recon.Rules.Scored.ranked ai_finance_controller.Recon.Rules.Scored.choose
    ai_finance_controller.Recon.Rules.Scored.match_r6_batch_to_bank_scored
    ai_finance_controller.Recon.Models.difference_minor ai_finance_controller.Recon.Models.balances
    ai_finance_controller.Recon.Models.balances_exactly ai_finance_controller.Recon.Models.role_of
    ai_finance_controller.Recon.Models.has_passing_evidence
    ai_finance_controller.Recon.Models.pending_review ai_finance_controller.Recon.Bridge.gross_total
    ai_finance_controller.Recon.Bridge.fee_total ai_finance_controller.Recon.Bridge.tax_total
    ai_finance_controller.Recon.Bridge.build_settlement_bridge
    ai_finance_controller.Recon.Bridge.build_ledger_bridge
    ai_finance_controller.Recon.Bridge.expected_fee_minor
    ai_finance_controller.Recon.Bridge.fee_matches_schedule
    ai_finance_controller.Recon.Policy.distinct_flags ai_finance_controller.Recon.Policy.is_blocked
    ai_finance_controller.Recon.Policy.has_dispute ai_finance_controller.Recon.Policy.margin_ok
    ai_finance_controller.Recon.Policy.evaluate_gate ai_finance_controller.Recon.Policy.apply_gate
    ai_finance_controller.Recon.Index.add_transaction
    ai_finance_controller.Recon.Index.add_transactions ai_finance_controller.Recon.Index.build
    ai_finance_controller.Recon.Index.of_type ai_finance_controller.Recon.Index.get
    ai_finance_controller.Recon.Index.referencing ai_finance_controller.Recon.Index.is_consumed
    ai_finance_controller.Recon.Index.consume ai_finance_controller.Recon.Index.is_plausible
    ai_finance_controller.Recon.Index.visit ai_finance_controller.Recon.Index.scan_bucket
    ai_finance_controller.Recon.Index.scan_amounts ai_finance_controller.Recon.Index.scan_days
    ai_finance_controller.Recon.Index.candidates
    ai_finance_controller.Recon.Rules.match_r1_payment_to_line
    ai_finance_controller.Recon.Rules.is_exact_credit
    ai_finance_controller.Recon.Rules.match_r2_batch_to_bank
    ai_finance_controller.Recon.Rules.is_off_schedule
    ai_finance_controller.Recon.Rules.check_r3_batch_integrity
    ai_finance_controller.Recon.Rules.check_r5_ledger
    ai_finance_controller.Recon.Rules.match_r4_invoice_to_payment
    ai_finance_controller.Recon.Outcome.is_off_schedule
    ai_finance_controller.Recon.Outcome.is_outside_window
    ai_finance_controller.Recon.Outcome.is_unconfirmed_credit
    ai_finance_controller.Recon.Outcome.classify ai_finance_controller.Recon.Outcome.amount_at_risk
    ai_finance_controller.Recon.Engine.claim_invoices
    ai_finance_controller.Recon.Engine.reconcile_invoices
    ai_finance_controller.Recon.Engine.detect_standalone
    ai_finance_controller.Recon.Engine.ensure_every_review_is_queued
    ai_finance_controller.Recon.Engine.run_stages ai_finance_controller.Recon.Engine.execute
    ai_finance_controller.Recon.Scoring.rule_strength
    ai_finance_controller.Recon.Scoring.is_unbalanced
    ai_finance_controller.Recon.Scoring.data_quality ai_finance_controller.Recon.Scoring.consistency
    ai_finance_controller.Recon.Scoring.unambiguity ai_finance_controller.Recon.Scoring.is_near_tie
    ai_finance_controller.Recon.Scoring.caps_of ai_finance_controller.Recon.Scoring.apply_caps
    ai_finance_controller.Recon.Scoring.raw_score ai_finance_controller.Recon.Scoring.score_group
    ai_finance_controller.Recon.Settlement.lines_of
    ai_finance_controller.Recon.Settlement.entries_of
    ai_finance_controller.Recon.Settlement.line_links
    ai_finance_controller.Recon.Settlement.matched_lines
    ai_finance_controller.Recon.Settlement.settlement_links
    ai_finance_controller.Recon.Settlement.or_scored
    ai_finance_controller.Recon.Settlement.find_bank
    ai_finance_controller.Recon.Settlement.r1_evidence
    ai_finance_controller.Recon.Settlement.settlement_group
    ai_finance_controller.Recon.Settlement.with_score
    ai_finance_controller.Recon.Settlement.settlement_outcome
    ai_finance_controller.Recon.Settlement.settle_batch
    ai_finance_controller.Recon.Settlement.settle_batches
    ai_finance_controller.Recon.Settlement.reconcile_settlements
    ai_finance_controller.Recon.Exceptions.in_settlement_window
    ai_finance_controller.Recon.Exceptions.is_late ai_finance_controller.Domain.Canonical.norm
    ai_finance_controller.Common.Dict.lookup ai_finance_controller.Common.Dict.insert
    ai_finance_controller.Common.Dict.set_default ai_finance_controller.Common.Dict.push
    ai_finance_controller.Common.Dict.get_list ai_finance_controller.Common.Int.◌+ℤ◌
    ai_finance_controller.Common.Int.◌-ℤ◌ ai_finance_controller.Common.Int.◌*ℤ◌
    ai_finance_controller.Common.Int.floor_div ai_finance_controller.Common.Sort.sort
    ai_finance_controller.Recon.Exceptions.Standalone.settled_payment_ids
    ai_finance_controller.Recon.Exceptions.Standalone.is_unsettled
    ai_finance_controller.Recon.Exceptions.Standalone.content_key
    ai_finance_controller.Recon.Exceptions.Standalone.fill_buckets
    ai_finance_controller.Recon.Exceptions.Standalone.payments_of_order
    ai_finance_controller.Recon.Exceptions.Standalone.is_conflict
    ai_finance_controller.Recon.Exceptions.Standalone.detect_unmatched_payments
    ai_finance_controller.Recon.Exceptions.Standalone.bucket_cases
    ai_finance_controller.Recon.Exceptions.Standalone.all_bucket_cases
    ai_finance_controller.Recon.Exceptions.Standalone.detect_duplicates
    ai_finance_controller.Recon.Exceptions.Standalone.detect_refund_unlinked
    ai_finance_controller.Recon.Exceptions.Standalone.conflict_among
    ai_finance_controller.Recon.Exceptions.Standalone.conflicts_from
    ai_finance_controller.Recon.Exceptions.Standalone.detect_status_conflicts
    ai_finance_controller.Recon.Outcome.unless_filed ai_finance_controller.Recon.Outcome.filed
    ai_finance_controller.Recon.Outcome.bridge_finding
    ai_finance_controller.Recon.Outcome.ledger_finding
    ai_finance_controller.Recon.Outcome.date_finding
    ai_finance_controller.Recon.Outcome.confirmed_cases
    ai_finance_controller.Recon.Outcome.raised_cases ai_finance_controller.Recon.Engine.queued_ids
    ai_finance_controller.Recon.Engine.invoice_group ai_finance_controller.Recon.Engine.is_lost
    ai_finance_controller.Recon.Engine.riskier_first
    ai_finance_controller.Recon.Exceptions.detect_missing_bank_credit
    ai_finance_controller.Recon.Exceptions.detect_amount_mismatch
    ai_finance_controller.Recon.Exceptions.detect_ledger_mismatch
    ai_finance_controller.Recon.Exceptions.detect_fee_tax_discrepancy
    ai_finance_controller.Recon.Exceptions.detect_date_mismatch
    ai_finance_controller.Recon.Exceptions.detect_delayed_settlement
    ai_finance_controller.Domain.Canonical.is_zero_amount
run_counts = (refl, refl)

-- A settlement without a reference on 9999-12-31 makes the run fail: its window has no second day.
overflows : run_overflows policy (record lost_batch { business_date = max_ordinal } ∷ []) ≡ true
unfolding run_overflows ai_finance_controller.Recon.Engine.Overflow.batches_overflow
    ai_finance_controller.Recon.Index.of_type ai_finance_controller.Common.Dict.get_list build
    ai_finance_controller.Recon.Index.add_transactions
    ai_finance_controller.Recon.Index.add_transaction ai_finance_controller.Common.Dict.push
    ai_finance_controller.Recon.Engine.Overflow.find_bank_overflows
    ai_finance_controller.Recon.Rules.match_r2_batch_to_bank
    ai_finance_controller.Recon.Index.Overflow.candidates_overflow
    ai_finance_controller.Recon.Index.Overflow.scan_overflows
    ai_finance_controller.Recon.Index.scan_amounts ai_finance_controller.Recon.Index.scan_bucket
    ai_finance_controller.Common.Int.◌-ℤ◌ ai_finance_controller.Common.Int.◌+ℤ◌
    ai_finance_controller.Recon.Index.visit ai_finance_controller.Recon.Index.is_plausible
    ai_finance_controller.Recon.Index.is_consumed ai_finance_controller.Recon.Index.referencing
overflows = refl

-- The records of the tests are far from the end of the calendar.
records_fit :
    run_engine records (codes "run_local") policy (codes "rules@1.4.0")
    ≡ ok (execute records (codes "run_local") policy (codes "rules@1.4.0"))
records_fit = run_engine-returns policy records (codes "run_local") (codes "rules@1.4.0") (
  omega arith,
  (
    omega arith,
    (
      omega arith,
      (omega arith, (omega arith, (omega arith, (omega arith, (omega arith, (omega arith, tt)))))),
    ),
  ),
)
