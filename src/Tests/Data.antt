-- ===== src/Tests/Data.antt =====
-- A run of two settlements: one is complete, the other has no reference and no bank credit.
use ai_finance_controller.Common.{ℕ, false, Option, none, some, List, [], ◌∷◌}
use ai_finance_controller.Common.Int.{pos}
use ai_finance_controller.Common.Text.{Text, codes}
use ai_finance_controller.Domain.Enums.{
  EntityType, TxnDirection, credit, debit, captured, settled, posted, gateway_payments,
  SourceSystem, razorpay_settlements, bank_statement, internal_ledger, invoices, TxnStatus,
}
use ai_finance_controller.Domain.Canonical.{CanonicalTransaction}

abbrev pub transaction :
    SourceSystem
    → EntityType
    → (id : Text) (gross fee tax net : ℕ) → TxnDirection
    → TxnStatus
    → (day : ℕ) (parent reference : Option Text) → CanonicalTransaction
transaction source entity id gross fee tax net direction status day parent reference = record {
  source_system = source;
  entity_type = entity;
  external_id = id;
  external_id_norm = id;
  currency = codes "INR";
  gross_amount_minor = pos gross;
  net_amount_minor = pos net;
  direction = direction;
  status = status;
  fee_amount_minor = pos fee;
  tax_amount_minor = pos tax;
  event_at = record { instant = 0; utcoffset = some (pos 0) };
  business_date = day;
  business_timezone = codes "Asia/Kolkata";
  tz_assumed = false;
  available_at = none;
  parent_external_id = parent;
  reference_id = reference;
  customer_ref = none;
  counterparty = none;
  description = none;
  metadata = (codes "method", codes "netbanking") ∷ [];
  data_quality_flags = [];
}

abbrev pub batch : CanonicalTransaction
batch =
    transaction razorpay_settlements EntityType.settlement_batch (codes "B1") 100_000 2000 360
      97_640 credit settled 11 none (some (codes "UTR1"))

abbrev pub line : CanonicalTransaction
line =
    transaction razorpay_settlements EntityType.settlement_line (codes "L1") 100_000 2000 360 97_640
      credit settled 11 (some (codes "P1")) (some (codes "B1"))

abbrev pub payment : CanonicalTransaction
payment =
    transaction gateway_payments EntityType.payment (codes "P1") 100_000 0 0 100_000 credit captured
      10 none (some (codes "O1"))

abbrev pub bank_row : CanonicalTransaction
bank_row =
    transaction bank_statement EntityType.bank_transaction (codes "T1") 97_640 0 0 97_640 credit
      posted 12 none (some (codes "UTR1"))

abbrev pub journal_debit : CanonicalTransaction
journal_debit =
    transaction internal_ledger EntityType.ledger_entry (codes "J1") 97_640 0 0 97_640 debit posted
      12 none (some (codes "B1"))

abbrev pub journal_credit : CanonicalTransaction
journal_credit =
    transaction internal_ledger EntityType.ledger_entry (codes "J2") 97_640 0 0 97_640 credit posted
      12 none (some (codes "B1"))

abbrev pub lost_batch : CanonicalTransaction
lost_batch =
    transaction razorpay_settlements EntityType.settlement_batch (codes "B2") 50_000 0 0 50_000
      credit settled 11 none none

abbrev pub open_payment : CanonicalTransaction
open_payment =
    transaction gateway_payments EntityType.payment (codes "P2") 7000 0 0 7000 credit captured 10
      none (some (codes "O2"))

abbrev pub invoice_row : CanonicalTransaction
invoice_row =
    transaction invoices EntityType.invoice (codes "I2") 7000 0 0 7000 debit captured 9 none
      (some (codes "O2"))

abbrev pub records : List CanonicalTransaction
records =
    batch ∷ line ∷ payment ∷ bank_row ∷ journal_debit ∷ journal_credit ∷ lost_batch ∷ open_payment
    ∷ invoice_row ∷ []
