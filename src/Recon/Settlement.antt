-- ===== src/Recon/Settlement.antt =====
-- The settlement chain of packages/reconciliation/ledgergraph_reconciliation/engine.py: a batch with
-- its lines, their payments, the bank credit and the journal becomes one group.
pub mod Consumed
pub mod Cleared
use Prim.Native.String.{String}
use ai_finance_controller.Common.{
  ℕ, Bool, true, false, not, ◌&&◌, Option, none, some, List, [], ◌∷◌, ◌++◌, if◌then◌else◌, filter,
  map, length, is_some, is_empty, ◌==◌,
}
use ai_finance_controller.Common.Text.{codes}
use ai_finance_controller.Common.Dict.{lookup}
use ai_finance_controller.Double.{Double}
use ai_finance_controller.Domain.Enums.{
  EntityType, LinkRole, RuleTier, deterministic, scored, many_to_many, proposed, is_debit,
  is_payment_role,
}
use ai_finance_controller.Domain.Canonical.{CanonicalTransaction}
use ai_finance_controller.Recon.Models.{
  RuleCode, r1, r2, r6, Evidence, exact_parent, Operand, Bridge, Link, MatchGroup, ExceptionCase,
  role_of,
}
use ai_finance_controller.Recon.Index.{TransactionIndex, of_type, referencing, consume}
use ai_finance_controller.Recon.Index.Keys.{text_key}
use ai_finance_controller.Recon.Policy.{Policy, apply_gate}
use ai_finance_controller.Recon.Scoring.{score_group}
use ai_finance_controller.Recon.Rules.{
  PaymentMap, is_type, match_r1_payment_to_line, match_r2_batch_to_bank, check_r3_batch_integrity,
  check_r5_ledger,
}
use ai_finance_controller.Recon.Rules.Scored.{match_r6_batch_to_bank_scored}
use ai_finance_controller.Recon.Outcome.{classify, amount_at_risk, raised_cases}

unfoldable pub lines_of : TransactionIndex → CanonicalTransaction → List CanonicalTransaction
lines_of ix batch =
    filter (is_type EntityType.settlement_line) (referencing ix (some batch.external_id))

unfoldable pub entries_of : TransactionIndex → CanonicalTransaction → List CanonicalTransaction
entries_of ix batch =
    filter (is_type EntityType.ledger_entry) (referencing ix (some batch.external_id))

abbrev pub payment_links : Option CanonicalTransaction → List Link
payment_links none = []
payment_links (some payment) =
    record {
      transaction = payment;
      role = LinkRole.payment;
      matched_amount_minor = payment.gross_amount_minor;
    }
    ∷ []

-- A link for each line, and behind it one for the payment that it settles.
unfoldable pub line_links : PaymentMap → List CanonicalTransaction → List Link
line_links linked [] = []
line_links linked (line ∷ rest) =
    record {
      transaction = line;
      role = LinkRole.settlement_line;
      matched_amount_minor = line.net_amount_minor;
    }
      ∷ payment_links (lookup line.external_id_norm linked)
    ++ line_links linked rest

unfoldable pub matched_lines : PaymentMap → List CanonicalTransaction → ℕ
matched_lines linked lines =
    length (filter (λ line. is_some (lookup line.external_id_norm linked)) lines)

abbrev pub bank_links : Option CanonicalTransaction → List Link
bank_links none = []
bank_links (some bank) =
    record {
      transaction = bank;
      role = LinkRole.bank_credit;
      matched_amount_minor = bank.net_amount_minor;
    }
    ∷ []

abbrev pub entry_link : CanonicalTransaction → Link
entry_link entry = record {
  transaction = entry;
  role = if is_debit entry.direction then LinkRole.ledger_debit else LinkRole.ledger_credit;
  matched_amount_minor = entry.gross_amount_minor;
}

unfoldable pub settlement_links :
    PaymentMap
    → (batch : CanonicalTransaction) (lines : List CanonicalTransaction)
      (bank : Option CanonicalTransaction) (entries : List CanonicalTransaction)
    → List Link
settlement_links linked batch lines bank entries =
    record {
      transaction = batch;
      role = LinkRole.settlement_batch;
      matched_amount_minor = batch.net_amount_minor;
    }
      ∷ line_links linked lines
    ++ (bank_links bank ++ map entry_link entries)

-- The bank link: the rule and the tier that found it, or that failed to.
pub record BankLink (W : Type 0) : Type 0 where
  pub rule : RuleCode
  pub tier : RuleTier
  pub bank : Option CanonicalTransaction
  pub margin : Option W
  pub evidence : List (Evidence W)

-- What the run has built so far.
pub record RunState (W : Type 0) : Type 0 where
  pub index : TransactionIndex
  pub groups : List (MatchGroup W)
  pub cases : List (ExceptionCase W)

module _ {W : Type 0} ⦃d : Double W⦄ where
  -- R6 is asked when R2 found nothing.
  unfoldable pub or_scored :
      CanonicalTransaction
      → TransactionIndex
      → Policy W
      → Option CanonicalTransaction × Evidence W
      → BankLink W
  or_scored batch ix policy (some bank, e) = record {
    rule = r2;
    tier = deterministic;
    bank = some bank;
    margin = none;
    evidence = e ∷ [];
  }
  or_scored batch ix policy (none, e) =
      let choice = match_r6_batch_to_bank_scored batch ix policy in
      record {
        rule = r6;
        tier = scored;
        bank = choice.0;
        margin = choice.1;
        evidence = e ∷ choice.2;
      }

  unfoldable pub find_bank : CanonicalTransaction → TransactionIndex → Policy W → BankLink W
  find_bank batch ix policy = or_scored batch ix policy (match_r2_batch_to_bank batch ix)

  unfoldable pub r1_evidence : PaymentMap → List CanonicalTransaction → Evidence W
  r1_evidence linked lines = record {
    rule_code = r1;
    evidence_type = exact_parent;
    computed =
        ("lines", Operand.count (length lines))
        ∷ ("lines_linked_to_a_payment", Operand.count (matched_lines linked lines))
        ∷ [];
    passed = not (is_empty lines) && matched_lines linked lines == length lines;
  }

  -- The group before it is scored, with the confidence that `MatchGroup` starts from.
  unfoldable pub settlement_group :
      CanonicalTransaction
      → BankLink W
      → (links : List Link) (evidence : List (Evidence W)) → Bridge
      → MatchGroup W
  settlement_group batch link links evidence bridge = record {
    group_id = codes "grp_" ++ batch.external_id_norm;
    group_type = many_to_many;
    matched_by_rule = link.rule;
    tier = link.tier;
    links = links;
    evidence = evidence;
    bridge = some bridge;
    confidence = d.literal 0;
    confidence_components = [];
    gate = [];
    status = proposed;
  }

  unfoldable pub with_score : MatchGroup W → W × List (String × W) → MatchGroup W
  with_score group score = record group { confidence = score.0; confidence_components = score.1 }

  -- The gated group and the cases of one batch.
  unfoldable pub settlement_outcome :
      PaymentMap
      → Policy W
      → TransactionIndex
      → CanonicalTransaction
      → MatchGroup W × List (ExceptionCase W)
  settlement_outcome linked policy ix batch =
      let lines = lines_of ix batch in
      let entries = entries_of ix batch in
      let r3 = check_r3_batch_integrity batch lines policy linked in
      let link = find_bank batch ix policy in
      let r5 = check_r5_ledger batch entries policy in
      let evidence = r1_evidence linked lines ∷ r3.0 ++ (link.evidence ++ r5.0) in
      let links = settlement_links linked batch lines link.bank entries in
      let ungated = settlement_group batch link links evidence r3.1 in
      let payments = role_of is_payment_role ungated in
      let case_type =
        classify batch link.bank link.margin (some r3.1) r5.1 evidence policy payments in
      let at_risk = amount_at_risk case_type batch (some r3.1) r5.1 in
      let score = score_group ungated (some r3.1) link.margin policy.candidate_margin in
      let group = apply_gate (with_score ungated score) policy case_type link.margin at_risk in
      (
        group,
        raised_cases batch link.bank link.margin (some r3.1) r5.1 entries evidence group policy
            payments,
      )

  -- The body of the loop over the batches.
  unfoldable pub settle_batch :
      PaymentMap → Policy W → RunState W → CanonicalTransaction → RunState W
  settle_batch linked policy s batch =
      let outcome = settlement_outcome linked policy s.index batch in
      record {
        index = consume s.index (map (λ l. l.transaction) outcome.0.links);
        groups = s.groups ++ outcome.0 ∷ [];
        cases = s.cases ++ outcome.1;
      }

  unfoldable pub settle_batches :
      PaymentMap → Policy W → RunState W → List CanonicalTransaction → RunState W
  settle_batches linked policy s [] = s
  settle_batches linked policy s (batch ∷ rest) =
      settle_batches linked policy (settle_batch linked policy s batch) rest

  unfoldable pub reconcile_settlements : Policy W → RunState W → RunState W
  reconcile_settlements policy s =
      settle_batches (match_r1_payment_to_line s.index) policy s
        (of_type s.index (EntityType.settlement_batch ∷ []))
