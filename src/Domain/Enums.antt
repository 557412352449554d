-- ===== src/Domain/Enums.antt =====
-- The controlled vocabularies of packages/domain/ledgergraph_domain/enums.py that the engine
-- branches on. `is` between two members is a test on their positions.
use ai_finance_controller.Common.{ℕ, ◌≡◌, Bool, true, false, arith, ◌==◌}

pub data UserRole : Type 0 where
  analyst reviewer controller admin : UserRole

pub data SourceSystem : Type 0 where
  gateway_payments razorpay_settlements bank_statement invoices internal_ledger : SourceSystem

pub data EntityType : Type 0 where
  payment refund settlement_batch settlement_line bank_transaction : EntityType
  invoice ledger_entry adjustment dispute : EntityType

pub data TxnDirection : Type 0 where
  credit debit : TxnDirection

pub data TxnStatus : Type 0 where
  created authorized captured failed refunded partially_refunded : TxnStatus
  settled reversed disputed cancelled posted pending : TxnStatus

pub data GroupType : Type 0 where
  one_to_one many_to_one one_to_many many_to_many : GroupType

pub data GroupStatus : Type 0 where
  proposed auto_resolved pending_review approved rejected superseded : GroupStatus

pub data LinkRole : Type 0 where
  payment refund settlement_batch settlement_line bank_credit bank_debit invoice : LinkRole
  ledger_debit ledger_credit fee tax adjustment split_component : LinkRole

pub data ExceptionType : Type 0 where
  unmatched_payment missing_bank_credit amount_mismatch date_mismatch : ExceptionType
  duplicate refund_unlinked status_conflict fee_tax_discrepancy : ExceptionType

pub data ExceptionSeverity : Type 0 where
  critical high medium low : ExceptionSeverity

pub data RuleTier : Type 0 where
  deterministic scored : RuleTier

-- Positions in the declarations above.
abbrev pub entity_index : EntityType → ℕ
entity_index EntityType.payment = 0
entity_index EntityType.refund = 1
entity_index EntityType.settlement_batch = 2
entity_index EntityType.settlement_line = 3
entity_index EntityType.bank_transaction = 4
entity_index EntityType.invoice = 5
entity_index EntityType.ledger_entry = 6
entity_index EntityType.adjustment = 7
entity_index EntityType.dispute = 8

abbrev pub same_entity : EntityType → EntityType → Bool
same_entity a b = entity_index a == entity_index b

abbrev pub exception_index : ExceptionType → ℕ
exception_index unmatched_payment = 0
exception_index missing_bank_credit = 1
exception_index amount_mismatch = 2
exception_index date_mismatch = 3
exception_index duplicate = 4
exception_index refund_unlinked = 5
exception_index status_conflict = 6
exception_index fee_tax_discrepancy = 7

abbrev pub same_exception : ExceptionType → ExceptionType → Bool
same_exception a b = exception_index a == exception_index b

abbrev pub same_direction : TxnDirection → TxnDirection → Bool
same_direction credit credit = true
same_direction debit debit = true
same_direction _ _ = false

abbrev pub is_debit : TxnDirection → Bool
is_debit debit = true
is_debit credit = false

abbrev pub is_captured : TxnStatus → Bool
is_captured captured = true
is_captured _ = false

abbrev pub is_deterministic : RuleTier → Bool
is_deterministic deterministic = true
is_deterministic scored = false

abbrev pub is_payment_role : LinkRole → Bool
is_payment_role LinkRole.payment = true
is_payment_role _ = false

abbrev pub is_invoice_role : LinkRole → Bool
is_invoice_role LinkRole.invoice = true
is_invoice_role _ = false

abbrev pub is_pending_review : GroupStatus → Bool
is_pending_review pending_review = true
is_pending_review _ = false

abbrev pub is_auto_resolved : GroupStatus → Bool
is_auto_resolved auto_resolved = true
is_auto_resolved _ = false

pub eq_of_same_entity : (a b : EntityType) → same_entity a b ≡ true → a ≡ b
eq_of_same_entity a b h = ground arith

pub eq_of_same_exception : (a b : ExceptionType) → same_exception a b ≡ true → a ≡ b
eq_of_same_exception a b h = ground arith
