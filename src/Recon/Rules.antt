-- ===== src/Recon/Rules.antt =====
-- The matching rules R1 to R6 of packages/reconciliation/ledgergraph_reconciliation/rules.py.
-- Evidence keeps the values that a rule compared; its sentences are left out.
pub mod Scored
pub mod Chain
pub mod Open
pub mod Orders
pub mod Sound
pub mod Best
use Prim.Native.String.{String}
use ai_finance_controller.Common.{
  ℕ, ◌-◌, Bool, true, false, not, ◌&&◌, ◌||◌, ltb, ◌==◌, Option, none, some, List, [], ◌∷◌, ◌++◌,
  if◌then◌else◌, filter, find, is_empty, length, is_some,
}
use ai_finance_controller.Common.Int.{ℤ, pos, ◌-ℤ◌, ◌==ℤ◌}
use ai_finance_controller.Common.Text.{Text, codes, text_eq, is_blank, or_empty}
use ai_finance_controller.Common.Dict.{Dict, lookup, insert}
use ai_finance_controller.Domain.Enums.{
  EntityType, LinkRole, same_entity, is_captured, one_to_one, deterministic, proposed,
}
use ai_finance_controller.Domain.Canonical.{CanonicalTransaction}
use ai_finance_controller.Recon.Models.{
  Evidence, r1, r2, r3, r4, r5, exact_reference, amount_identity, fee_identity, fee_schedule,
  exact_order_and_amount, ledger_present, double_entry, Operand, absent, Bridge, difference_minor,
  balances, Link, MatchGroup,
}
use ai_finance_controller.Recon.Bridge.{
  build_settlement_bridge, build_ledger_bridge, fee_matches_schedule,
}
use ai_finance_controller.Recon.Index.{TransactionIndex, of_type, get, referencing, is_consumed}
use ai_finance_controller.Recon.Index.Keys.{text_key}
use ai_finance_controller.Recon.Policy.{Policy}
use ai_finance_controller.Double.{Double}

abbrev pub PaymentMap : Type 0
PaymentMap = Dict Text CanonicalTransaction

abbrev pub is_type : EntityType → CanonicalTransaction → Bool
is_type e t = same_entity t.entity_type e

-- R1. The body of the loop: a line is linked to the payment that it names, if the gross agrees.
unfoldable pub link_line :
    PaymentMap → CanonicalTransaction → Option CanonicalTransaction → PaymentMap
link_line linked line none = linked
link_line linked line (some payment) =
    if is_type EntityType.payment payment
    then (if payment.gross_amount_minor ==ℤ line.gross_amount_minor
        then insert line.external_id_norm payment linked
        else linked)
    else linked

unfoldable pub link_lines : TransactionIndex → PaymentMap → List CanonicalTransaction → PaymentMap
unfolding link_line
link_lines ix linked [] = linked
link_lines ix linked (line ∷ lines) =
    link_lines ix (link_line linked line (get ix line.parent_external_id)) lines

unfoldable pub match_r1_payment_to_line : TransactionIndex → PaymentMap
unfolding link_lines
match_r1_payment_to_line ix = link_lines ix [] (of_type ix (EntityType.settlement_line ∷ []))

-- R2. The tests of the loop over the records that carry the batch's reference.
unfoldable pub is_exact_credit :
    TransactionIndex → CanonicalTransaction → CanonicalTransaction → Bool
is_exact_credit ix batch bank =
    is_type EntityType.bank_transaction bank
    && not (is_consumed ix bank)
    && (bank.net_amount_minor ==ℤ batch.net_amount_minor)

module _ {W : Type 0} where
  abbrev optional_text : Option Text → Operand W
  optional_text none = absent
  optional_text (some t) = Operand.text t

  r2_missing : CanonicalTransaction → Evidence W
  r2_missing batch = record {
    rule_code = r2;
    evidence_type = exact_reference;
    computed = ("batch.reference_id", absent) ∷ [];
    passed = false;
  }

  abbrev r2_result :
      CanonicalTransaction → Option CanonicalTransaction → Option CanonicalTransaction × Evidence W
  r2_result batch none = (
    none,
    record {
      rule_code = r2;
      evidence_type = exact_reference;
      computed =
          ("batch.reference_id", optional_text batch.reference_id)
          ∷ ("batch.net", Operand.amount batch.net_amount_minor)
          ∷ [];
      passed = false;
    },
  )
  r2_result batch (some bank) = (
    some bank,
    record {
      rule_code = r2;
      evidence_type = exact_reference;
      computed =
          ("batch.reference_id", optional_text batch.reference_id)
          ∷ ("bank.reference_id", Operand.text (or_empty bank.reference_id))
          ∷ ("batch.net", Operand.amount batch.net_amount_minor)
          ∷ ("bank.net", Operand.amount bank.net_amount_minor)
          ∷ ("difference", Operand.amount (pos 0))
          ∷ [];
      passed = true;
    },
  )

  unfoldable pub match_r2_batch_to_bank :
      CanonicalTransaction → TransactionIndex → Option CanonicalTransaction × Evidence W
  unfolding r2_missing
  match_r2_batch_to_bank batch ix =
      if is_blank batch.reference_id
      then (none, r2_missing batch)
      else r2_result batch (find (is_exact_credit ix batch) (referencing ix batch.reference_id))

-- R3. `gross - fee - tax != net`
unfoldable pub fails_identity : CanonicalTransaction → Bool
fails_identity line = not (
    line.gross_amount_minor -ℤ line.fee_amount_minor -ℤ line.tax_amount_minor
    ==ℤ line.net_amount_minor)

-- `payment.metadata.get("method") if payment else None`
unfoldable pub method_of : Option CanonicalTransaction → Option Text
method_of none = none
method_of (some payment) = lookup (codes "method") payment.metadata

-- The loop over the lines: those whose payment's method is known, and of these those whose fee is
-- off the schedule.
unfoldable pub is_resolvable : PaymentMap → CanonicalTransaction → Bool
unfolding method_of
is_resolvable payments line = is_some (method_of (lookup line.external_id_norm payments))

unfoldable pub is_off_schedule : PaymentMap → CanonicalTransaction → Bool
unfolding is_resolvable
is_off_schedule payments line =
    is_resolvable payments line
    && not (
        fee_matches_schedule line.gross_amount_minor line.fee_amount_minor line.tax_amount_minor
          (method_of (lookup line.external_id_norm payments)) (pos 2))

module _ {W : Type 0} where
  unfoldable pub check_r3_batch_integrity :
      CanonicalTransaction
      → (lines : List CanonicalTransaction) → Policy W
      → PaymentMap
      → List (Evidence W) × Bridge
  check_r3_batch_integrity batch lines policy payments =
      let bridge = build_settlement_bridge batch lines policy.amount_tolerance_minor [] in
      let failing = filter fails_identity lines in
      let resolvable = filter (is_resolvable payments) lines in
      let off_schedule = filter (is_off_schedule payments) lines in
      (
        record {
          rule_code = r3;
          evidence_type = amount_identity;
          computed =
              ("line_count", Operand.count (length lines))
              ∷ ("sum(line.net)", Operand.amount bridge.expected_net_minor)
              ∷ ("batch.net", Operand.amount bridge.observed_net_minor)
              ∷ ("difference", Operand.amount (difference_minor bridge))
              ∷ ("tolerance", Operand.amount bridge.tolerance_minor)
              ∷ [];
          passed = balances bridge;
        }
            ∷ record {
              rule_code = r3;
              evidence_type = fee_identity;
              computed =
                  ("lines_checked", Operand.count (length lines))
                  ∷ ("lines_failing", Operand.count (length failing))
                  ∷ [];
              passed = is_empty failing;
            }
            ∷ record {
              rule_code = r3;
              evidence_type = fee_schedule;
              computed =
                  ("lines_checked", Operand.count (length resolvable))
                  ∷ ("lines_unresolvable", Operand.count (length lines - length resolvable))
                  ∷ ("lines_off_schedule", Operand.count (length off_schedule))
                  ∷ [];
              passed = is_empty off_schedule && ltb 0 (length resolvable);
            }
            ∷ [],
        bridge,
      )

  -- R5. A journal is there, and its debits equal its credits.
  unfoldable pub check_r5_ledger :
      CanonicalTransaction
      → (entries : List CanonicalTransaction) → Policy W
      → List (Evidence W) × Option Bridge
  check_r5_ledger batch [] policy = (
    record {
      rule_code = r5;
      evidence_type = ledger_present;
      computed = ("batch", Operand.text batch.external_id) ∷ ("entries", Operand.count 0) ∷ [];
      passed = false;
    }
        ∷ [],
    none,
  )
  check_r5_ledger batch (entry ∷ rest) policy =
      let entries = entry ∷ rest in
      let bridge = build_ledger_bridge batch entries policy.amount_tolerance_minor in
      (
        record {
          rule_code = r5;
          evidence_type = double_entry;
          computed =
              ("entries", Operand.count (length entries))
              ∷ ("debits", Operand.amount bridge.observed_net_minor)
              ∷ ("credits", Operand.amount bridge.expected_net_minor)
              ∷ ("difference", Operand.amount (difference_minor bridge))
              ∷ [];
          passed = balances bridge;
        }
            ∷ [],
        some bridge,
      )

-- R4. The payments that share an invoice's order and are not claimed.
unfoldable pub open_payments : TransactionIndex → CanonicalTransaction → List CanonicalTransaction
open_payments ix invoice =
    filter (λ t. is_type EntityType.payment t && not (is_consumed ix t))
      (referencing ix invoice.reference_id)

-- Equal amounts, and both captured or neither.
unfoldable pub agrees : (payment invoice : CanonicalTransaction) → Bool
agrees payment invoice =
    (payment.gross_amount_minor ==ℤ invoice.gross_amount_minor)
    && (if is_captured payment.status
        then is_captured invoice.status
        else not (is_captured invoice.status))

module _ {W : Type 0} ⦃d : Double W⦄ where
  unfoldable pub r4_group : (invoice payment : CanonicalTransaction) → MatchGroup W
  r4_group invoice payment = record {
    group_id = codes "grp_r4_" ++ invoice.external_id_norm;
    group_type = one_to_one;
    matched_by_rule = r4;
    tier = deterministic;
    links =
        record {
          transaction = invoice;
          role = LinkRole.invoice;
          matched_amount_minor = invoice.gross_amount_minor;
        }
        ∷ record {
          transaction = payment;
          role = LinkRole.payment;
          matched_amount_minor = payment.gross_amount_minor;
        }
        ∷ [];
    evidence =
        record {
          rule_code = r4;
          evidence_type = exact_order_and_amount;
          computed =
              ("order_id", optional_text invoice.reference_id)
              ∷ ("invoice.amount_due", Operand.amount invoice.gross_amount_minor)
              ∷ ("payment.amount", Operand.amount payment.gross_amount_minor)
              ∷ ("difference", Operand.amount (pos 0))
              ∷ [];
          passed = true;
        }
        ∷ [];
    bridge = none;
    confidence = d.literal 0;
    confidence_components = [];
    gate = [];
    status = proposed;
  }

  -- Exactly one open payment, which agrees with the invoice.
  unfoldable pub r4_match :
      (invoice : CanonicalTransaction) → List CanonicalTransaction → List (MatchGroup W)
  unfolding agrees r4_group
  r4_match invoice (payment ∷ []) =
      if agrees payment invoice then r4_group invoice payment ∷ [] else []
  r4_match invoice _ = []

  unfoldable pub r4_for_invoice : TransactionIndex → CanonicalTransaction → List (MatchGroup W)
  unfolding r4_match open_payments
  r4_for_invoice ix invoice =
      if is_blank invoice.reference_id || is_consumed ix invoice
      then []
      else r4_match invoice (open_payments ix invoice)

  unfoldable pub r4_groups : TransactionIndex → List CanonicalTransaction → List (MatchGroup W)
  unfolding r4_for_invoice
  r4_groups ix [] = []
  r4_groups ix (invoice ∷ rest) = r4_for_invoice ix invoice ++ r4_groups ix rest

  unfoldable pub match_r4_invoice_to_payment : TransactionIndex → List (MatchGroup W)
  unfolding r4_groups
  match_r4_invoice_to_payment ix = r4_groups ix (of_type ix (EntityType.invoice ∷ []))
