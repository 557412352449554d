-- ===== src/Recon/Settlement/Cleared.antt =====
-- What it takes for a settlement to be cleared without a human, in
-- packages/reconciliation/ledgergraph_reconciliation/engine.py.
use mathlib.Core.Path.{subst}
use ai_finance_controller.Common.{
  ◌≡◌, ◌≢◌, refl, true, false, Option, none, some, List, [], arith, In, All, All-In,
}
use ai_finance_controller.Common.Text.{is_blank}
use ai_finance_controller.Double.{Double}
use ai_finance_controller.Domain.Enums.{
  EntityType, ExceptionType, missing_bank_credit, amount_mismatch, deterministic, auto_resolved,
}
use ai_finance_controller.Domain.Canonical.{CanonicalTransaction}
use ai_finance_controller.Recon.Models.{Bridge, Evidence, balances}
use ai_finance_controller.Recon.Index.{TransactionIndex}
use ai_finance_controller.Recon.Policy.{Policy, apply_gate}
use ai_finance_controller.Recon.Policy.Gate.{IsUnlisted, apply_gate-IsClearable}
use ai_finance_controller.Recon.Scoring.{is_unbalanced}
use ai_finance_controller.Recon.Rules.{
  PaymentMap, check_r3_batch_integrity, check_r5_ledger, match_r2_batch_to_bank,
}
use ai_finance_controller.Recon.Rules.Sound.{IsExactChoice, match_r2_batch_to_bank-choice}
use ai_finance_controller.Recon.Outcome.{classify, is_unconfirmed_credit}
use ai_finance_controller.Recon.Settlement.{
  lines_of, entries_of, or_scored, find_bank, settlement_group, with_score, settlement_outcome,
}

-- A type on the list is not the type of an unlisted case.
unlisted_ne :
    (t : ExceptionType) (never : List ExceptionType) (o : Option ExceptionType)
    → In t never
    → IsUnlisted o never
    → o ≢ some t
unlisted_ne t never o i h =
    λ e. All-In (λ u. t ≢ u) t never (subst (λ x. IsUnlisted x never) e h) i refl

balanced_lem : (b : Bridge) → is_unbalanced (some b) ≡ false → balances b ≡ true
unfolding is_unbalanced
balanced_lem b h = ground arith

module _ {W : Type 0} ⦃d : Double W⦄ where
  classify_parts :
      (batch : CanonicalTransaction) (bank : Option CanonicalTransaction) (margin : Option W)
      (bridge ledger_bridge : Option Bridge) (evidence : List (Evidence W)) (policy : Policy W)
      (payments : List CanonicalTransaction)
      → classify batch bank margin bridge ledger_bridge evidence policy payments
        ≢ some missing_bank_credit
      → classify batch bank margin bridge ledger_bridge evidence policy payments
        ≢ some amount_mismatch
      → (is_unconfirmed_credit batch bank margin policy ≡ false)
        × (is_unbalanced bridge ≡ false)
        × (is_unbalanced ledger_bridge ≡ false)
  unfolding classify
  classify_parts batch bank margin bridge ledger evidence policy payments h k = ground arith

  -- A link of the deterministic tier is R2's.
  or_scored-deterministic :
      (batch : CanonicalTransaction) (ix : TransactionIndex) (policy : Policy W)
      (r : Option CanonicalTransaction × Evidence W)
      → (or_scored batch ix policy r).tier ≡ deterministic
      → (bank : CanonicalTransaction) × (r.0 ≡ some bank)
        × ((or_scored batch ix policy r).bank ≡ some bank)
  unfolding or_scored
  or_scored-deterministic batch ix policy (some bank, e) h = (bank, refl, refl)
  or_scored-deterministic batch ix policy (none, e) h = cc

  find_bank-deterministic :
      (batch : CanonicalTransaction) (ix : TransactionIndex) (policy : Policy W)
      → (find_bank batch ix policy).tier ≡ deterministic
      → (bank : CanonicalTransaction) × ((find_bank batch ix policy).bank ≡ some bank)
        × IsExactChoice ix batch (some bank)
  unfolding find_bank
  find_bank-deterministic batch ix policy h =
      let (bank, found, chosen) =
        or_scored-deterministic batch ix policy (match_r2_batch_to_bank batch ix) h in
      (
        bank,
        chosen,
        subst (IsExactChoice ix batch) found (match_r2_batch_to_bank-choice W batch ix).0,
      )

  -- What stands behind a settlement that is cleared.
  pub record IsBacked (linked : PaymentMap) (policy : Policy W) (ix : TransactionIndex)
      (batch : CanonicalTransaction) : Type 0 where
    pub bank : CanonicalTransaction
    pub bank_found : (find_bank batch ix policy).bank ≡ some bank
    pub bank_exact : IsExactChoice ix batch (some bank)
    pub lines_balance :
        balances (check_r3_batch_integrity batch (lines_of ix batch) policy linked).1 ≡ true
    pub journal_balances :
        (b : Bridge)
        → (check_r5_ledger batch (entries_of ix batch) policy).1 ≡ some b
        → balances b ≡ true
    pub has_reference : is_blank batch.reference_id ≡ false
    pub no_flags :
        All
          (λ l. l.transaction.data_quality_flags ≡ [])
          (settlement_outcome linked policy ix batch).0.links
    pub no_dispute :
        All
          (λ l. l.transaction.entity_type ≢ EntityType.dispute)
          (settlement_outcome linked policy ix batch).0.links

  confirmed-has_reference :
      (batch : CanonicalTransaction) (bank : Option CanonicalTransaction) (margin : Option W)
      (policy : Policy W)
      → is_unconfirmed_credit batch bank margin policy ≡ false
      → is_blank batch.reference_id ≡ false
  unfolding is_unconfirmed_credit
  confirmed-has_reference batch bank margin policy h = ground arith

  -- Under a policy that never clears a missing bank credit or an amount mismatch, a settlement that
  -- is cleared has a reference and a bank transaction, a credit or a debit, that R2 found: one that
  -- was not consumed before, carries the reference and has exactly the settlement's net. Its lines
  -- balance with its net within the tolerance, and so does its journal if it has any entries; it can
  -- have none. No linked record is flagged or a dispute.
  pub settlement_outcome-IsBacked :
      (linked : PaymentMap) (policy : Policy W) (ix : TransactionIndex)
      (batch : CanonicalTransaction)
      → In missing_bank_credit policy.never_auto_resolve
      → In amount_mismatch policy.never_auto_resolve
      → (settlement_outcome linked policy ix batch).0.status ≡ auto_resolved
      → IsBacked linked policy ix batch
  unfolding settlement_outcome with_score settlement_group apply_gate
  settlement_outcome-IsBacked linked policy ix batch missing mismatch h =
      let c = (apply_gate-IsClearable _ policy _ _ _).0.0 h in
      let (bank, found, exact) = find_bank-deterministic batch ix policy c.by_rule in
      let (confirmed, lines, journal) =
        classify_parts batch (find_bank batch ix policy).bank _ _ _ _ policy _
          (unlisted_ne _ policy.never_auto_resolve _ missing c.unlisted)
          (unlisted_ne _ policy.never_auto_resolve _ mismatch c.unlisted) in
      record {
        bank = bank;
        bank_found = found;
        bank_exact = exact;
        lines_balance = balanced_lem _ lines;
        journal_balances = λ b e. balanced_lem b (subst (λ o. is_unbalanced o ≡ false) e journal);
        has_reference = confirmed-has_reference batch _ _ policy confirmed;
        no_flags = c.no_flags;
        no_dispute = c.no_dispute;
      }
