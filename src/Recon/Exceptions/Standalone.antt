-- ===== src/Recon/Exceptions/Standalone.antt =====
-- The detectors of packages/reconciliation/ledgergraph_reconciliation/exceptions.py that scan the
-- whole run: unsettled payments, repeated rows, refunds without a payment, and status conflicts.
use ai_finance_controller.Common.{
  ℕ, ◌≡◌, ◌↔◌, Bool, true, false, not, ◌&&◌, Option, none, some, List, [], ◌∷◌, ◌++◌, if◌then◌else◌,
  filter, any, map, length, arith, ◌==◌, is_some, is_empty,
}
use ai_finance_controller.Common.Int.{ℤ, pos, ◌*ℤ◌, ◌==ℤ◌, ==ℤ_iff}
use ai_finance_controller.Common.Text.{Text, codes, text_eq, upper, is_blank, or_empty}
use ai_finance_controller.Common.Eq.{Eq}
use ai_finance_controller.Common.Dict.{Dict, push}
use ai_finance_controller.Double.{Double}
use ai_finance_controller.Domain.Enums.{
  EntityType, TxnDirection, unmatched_payment, duplicate, refund_unlinked, status_conflict,
  same_entity, same_direction, is_captured,
}
use ai_finance_controller.Domain.Canonical.{CanonicalTransaction, norm, is_zero_amount}
use ai_finance_controller.Recon.Models.{
  r1, r4, dup, exact_parent, content_hash, missing_source_data, status_agreement, Operand,
  ExceptionCase, hypothesis, not_settled, represented_row, missing_parent, captured_but_unpaid,
}
use ai_finance_controller.Recon.Index.{TransactionIndex, of_type, get, referencing}
use ai_finance_controller.Recon.Index.Keys.{text_eq_iff, same_entity_iff}
use ai_finance_controller.Recon.Policy.{Policy}
use ai_finance_controller.Recon.Exceptions.{severity_for}

-- `settled_payment_ids`: the payments that a settlement line names.
unfoldable pub settled_payment_ids : TransactionIndex → List Text
settled_payment_ids ix =
    map (λ line. norm (or_empty line.parent_external_id))
      (filter (λ line. not (is_blank line.parent_external_id))
        (of_type ix (EntityType.settlement_line ∷ [])))

-- A captured payment that no line names.
unfoldable pub is_unsettled : List Text → CanonicalTransaction → Bool
is_unsettled settled payment =
    is_captured payment.status && not (any (text_eq payment.external_id_norm) settled)

-- The business content that two rows of one event share.
abbrev pub ContentKey : Type 0
ContentKey = EntityType × ℤ × ℕ × Text × TxnDirection × Text

unfoldable pub content_key : CanonicalTransaction → ContentKey
content_key t = (
  t.entity_type,
  t.net_amount_minor,
  t.business_date,
  upper (or_empty t.reference_id),
  t.direction,
  upper (or_empty t.counterparty),
)

abbrev pub same_content : ContentKey → ContentKey → Bool
same_content (e, n, day, r, dir, c) (e', n', day', r', dir', c') =
    same_entity e e'
    && (n ==ℤ n')
    && day == day'
    && text_eq r r'
    && same_direction dir dir'
    && text_eq c c'

pub same_direction_iff : (a b : TxnDirection) → (same_direction a b ≡ true) ↔ (a ≡ b)
same_direction_iff a b = ground arith

pub same_content_iff : (p q : ContentKey) → (same_content p q ≡ true) ↔ (p ≡ q)
same_content_iff (e, n, day, r, dir, c) (e', n', day', r', dir', c') = ground (
  arith,
  same_entity_iff e e',
  ==ℤ_iff n n',
  text_eq_iff r r',
  same_direction_iff dir dir',
  text_eq_iff c c',
)

instance abbrev pub content_eq : Eq ContentKey
content_eq = record { beq = same_content; beq_iff = same_content_iff }

unfoldable pub add_to_bucket :
    Dict ContentKey (List CanonicalTransaction)
    → CanonicalTransaction
    → Dict ContentKey (List CanonicalTransaction)
add_to_bucket buckets t = if is_zero_amount t then buckets else push (content_key t) t buckets

unfoldable pub fill_buckets :
    Dict ContentKey (List CanonicalTransaction)
    → List CanonicalTransaction
    → Dict ContentKey (List CanonicalTransaction)
unfolding add_to_bucket
fill_buckets buckets [] = buckets
fill_buckets buckets (t ∷ ts) = fill_buckets (add_to_bucket buckets t) ts

-- `key[3]`, the reference, is not empty.
abbrev pub has_reference : ContentKey → Bool
has_reference (e, n, day, r, dir, c) = not (is_empty r)

-- `t.entity_type is EntityType.PAYMENT`, among the records of an order.
unfoldable pub payments_of_order : TransactionIndex → Option Text → List CanonicalTransaction
payments_of_order ix reference =
    filter (λ t. same_entity t.entity_type EntityType.payment) (referencing ix reference)

unfoldable pub is_conflict : (payment invoice : CanonicalTransaction) → Bool
is_conflict payment invoice = is_captured payment.status && not (is_captured invoice.status)

module _ {W : Type 0} ⦃d : Double W⦄ where
  unmatched_case : Policy W → CanonicalTransaction → ExceptionCase W
  unmatched_case policy payment = record {
    case_id = codes "exc_unm_" ++ payment.external_id_norm;
    case_type = unmatched_payment;
    severity = severity_for payment.gross_amount_minor policy;
    amount_at_risk_minor = payment.gross_amount_minor;
    currency = payment.currency;
    primary_transaction = some payment;
    transactions = payment ∷ [];
    group = none;
    case_text = hypothesis not_settled;
    confidence = none;
    evidence =
        record {
          rule_code = r1;
          evidence_type = exact_parent;
          computed =
              ("payment", Operand.text payment.external_id)
              ∷ ("business_date", Operand.day payment.business_date)
              ∷ ("amount", Operand.amount payment.gross_amount_minor)
              ∷ [];
          passed = false;
        }
        ∷ [];
  }

  unfoldable pub detect_unmatched_payments : TransactionIndex → Policy W → List (ExceptionCase W)
  unfolding unmatched_case
  detect_unmatched_payments ix policy =
      map (unmatched_case policy)
        (filter (is_unsettled (settled_payment_ids ix)) (of_type ix (EntityType.payment ∷ [])))

  duplicate_case : Policy W → CanonicalTransaction → List CanonicalTransaction → ExceptionCase W
  duplicate_case policy primary others = record {
    case_id = codes "exc_dup_" ++ primary.external_id_norm;
    case_type = duplicate;
    severity = severity_for (primary.net_amount_minor *ℤ pos (length others)) policy;
    amount_at_risk_minor = primary.net_amount_minor *ℤ pos (length others);
    currency = primary.currency;
    primary_transaction = some primary;
    transactions = primary ∷ others;
    group = none;
    case_text = hypothesis (represented_row (length (primary ∷ others)));
    confidence = none;
    evidence =
        record {
          rule_code = dup;
          evidence_type = content_hash;
          computed =
              map (λ m. ("ids", Operand.text m.external_id)) (primary ∷ others)
              ++ (("amount", Operand.amount primary.net_amount_minor)
                  ∷ ("reference", Operand.text (or_empty primary.reference_id))
                  ∷ ("date", Operand.day primary.business_date)
                  ∷ []);
          passed = true;
        }
        ∷ [];
  }

  -- Two members at least, and a reference.
  unfoldable pub bucket_cases :
      Policy W → ContentKey → List CanonicalTransaction → List (ExceptionCase W)
  unfolding duplicate_case
  bucket_cases policy key [] = []
  bucket_cases policy key (primary ∷ []) = []
  bucket_cases policy key (primary ∷ other ∷ rest) =
      if has_reference key then duplicate_case policy primary (other ∷ rest) ∷ [] else []

  unfoldable pub all_bucket_cases :
      Policy W → Dict ContentKey (List CanonicalTransaction) → List (ExceptionCase W)
  all_bucket_cases policy [] = []
  all_bucket_cases policy ((key, members) ∷ buckets) =
      bucket_cases policy key members ++ all_bucket_cases policy buckets

  unfoldable pub detect_duplicates : TransactionIndex → Policy W → List (ExceptionCase W)
  detect_duplicates ix policy =
      all_bucket_cases policy
        (fill_buckets [] (of_type ix (EntityType.bank_transaction ∷ EntityType.ledger_entry ∷ [])))

  refund_case : Policy W → CanonicalTransaction → ExceptionCase W
  refund_case policy refund = record {
    case_id = codes "exc_rfn_" ++ refund.external_id_norm;
    case_type = refund_unlinked;
    severity = severity_for refund.gross_amount_minor policy;
    amount_at_risk_minor = refund.gross_amount_minor;
    currency = refund.currency;
    primary_transaction = some refund;
    transactions = refund ∷ [];
    group = none;
    case_text = hypothesis missing_parent;
    confidence = none;
    evidence =
        record {
          rule_code = r1;
          evidence_type = missing_source_data;
          computed =
              ("refund", Operand.text refund.external_id)
              ∷ ("parent_payment_id", Operand.text (or_empty refund.parent_external_id))
              ∷ [];
          passed = false;
        }
        ∷ [];
  }

  unfoldable pub detect_refund_unlinked : TransactionIndex → Policy W → List (ExceptionCase W)
  unfolding refund_case
  detect_refund_unlinked ix policy = map (refund_case policy) (
      filter (λ r. not (is_some (get ix r.parent_external_id)))
        (of_type ix (EntityType.refund ∷ [])))

  conflict_case : Policy W → (payment invoice : CanonicalTransaction) → ExceptionCase W
  conflict_case policy payment invoice = record {
    case_id = codes "exc_sts_" ++ invoice.external_id_norm;
    case_type = status_conflict;
    severity = severity_for payment.gross_amount_minor policy;
    amount_at_risk_minor = payment.gross_amount_minor;
    currency = payment.currency;
    primary_transaction = some invoice;
    transactions = invoice ∷ payment ∷ [];
    group = none;
    case_text = hypothesis captured_but_unpaid;
    confidence = none;
    evidence =
        record {
          rule_code = r4;
          evidence_type = status_agreement;
          computed =
              ("order_id", Operand.text (or_empty invoice.reference_id))
              ∷ ("payment.status", Operand.status payment.status)
              ∷ ("invoice.status", Operand.status invoice.status)
              ∷ ("amount", Operand.amount payment.gross_amount_minor)
              ∷ [];
          passed = false;
        }
        ∷ [];
  }

  -- Exactly one payment for the order, which is in conflict with the invoice.
  unfoldable pub conflict_among :
      Policy W
      → (invoice : CanonicalTransaction) → List CanonicalTransaction
      → List (ExceptionCase W)
  unfolding conflict_case
  conflict_among policy invoice (payment ∷ []) =
      if is_conflict payment invoice then conflict_case policy payment invoice ∷ [] else []
  conflict_among policy invoice _ = []

  unfoldable pub conflicts_from :
      TransactionIndex → Policy W → List CanonicalTransaction → List (ExceptionCase W)
  conflicts_from ix policy [] = []
  conflicts_from ix policy (invoice ∷ rest) =
      (if is_blank invoice.reference_id
        then []
        else conflict_among policy invoice (payments_of_order ix invoice.reference_id))
      ++ conflicts_from ix policy rest

  unfoldable pub detect_status_conflicts : TransactionIndex → Policy W → List (ExceptionCase W)
  detect_status_conflicts ix policy =
      conflicts_from ix policy (of_type ix (EntityType.invoice ∷ []))
