-- ===== src/Recon/Bridge.antt =====
-- Amount bridges and the fee schedule, of
-- packages/reconciliation/ledgergraph_reconciliation/bridge.py.
pub mod Balance
use ai_finance_controller.Common.{
  ℕ, ◌+◌, Bool, true, false, not, ◌&&◌, Option, none, some, List, [], ◌∷◌, ◌++◌, map, leb,
  if◌then◌else◌, filter, length,
}
use ai_finance_controller.Common.Int.{ℤ, pos, ◌-ℤ◌, ◌*ℤ◌, ◌==ℤ◌, floor_div, abs, leb_ℤ, sum}
use ai_finance_controller.Common.Text.{Text, codes, text_eq, lower, or_empty}
use ai_finance_controller.Domain.Enums.{is_debit}
use ai_finance_controller.Domain.Canonical.{CanonicalTransaction}
use ai_finance_controller.Recon.Models.{
  Bridge, BridgeComponent, ComponentLabel, gross_captured, refunds_of, debits_of, credits_of,
  gateway_fee, gst_on_fee, Operation, base, subtract,
}

-- Basis points.
abbrev pub default_fee_bps : ℕ
default_fee_bps = 200

abbrev pub gst_bps_on_fee : ℕ
gst_bps_on_fee = 1800

unfoldable pub gross_total : List CanonicalTransaction → ℤ
gross_total ts = sum (map (λ t. t.gross_amount_minor) ts)

unfoldable pub fee_total : List CanonicalTransaction → ℤ
fee_total ts = sum (map (λ t. t.fee_amount_minor) ts)

unfoldable pub tax_total : List CanonicalTransaction → ℤ
tax_total ts = sum (map (λ t. t.tax_amount_minor) ts)

-- A component that is appended only if its amount is not zero.
abbrev pub unless_zero : ComponentLabel → ℤ → Text → List BridgeComponent
unless_zero label amount source =
    if amount ==ℤ pos 0
    then []
    else record {
      label = label;
      amount_minor = amount;
      operation = subtract;
      source_ref = some source;
    }
      ∷ []

-- Refunds that are not given (`None`) are none.
unfoldable pub build_settlement_bridge :
    (batch : CanonicalTransaction) (lines : List CanonicalTransaction) (tolerance_minor : ℤ)
    (refunds : List CanonicalTransaction)
    → Bridge
build_settlement_bridge batch lines tolerance refunds =
    let gross = gross_total lines in
    let fee = fee_total lines in
    let tax = tax_total lines in
    let refund_total = gross_total refunds in
    record {
      currency = batch.currency;
      components =
          record {
            label = gross_captured (length lines);
            amount_minor = gross;
            operation = base;
            source_ref = some batch.external_id;
          }
            ∷ unless_zero (refunds_of (length refunds)) refund_total batch.external_id
          ++ (unless_zero gateway_fee fee (codes "fee_schedule")
              ++ unless_zero gst_on_fee tax (codes "fee_schedule"));
      expected_net_minor = gross -ℤ refund_total -ℤ fee -ℤ tax;
      observed_net_minor = batch.net_amount_minor;
      tolerance_minor = tolerance;
    }

abbrev pub debits : List CanonicalTransaction → List CanonicalTransaction
debits = filter (λ e. is_debit e.direction)

abbrev pub credits : List CanonicalTransaction → List CanonicalTransaction
credits = filter (λ e. not (is_debit e.direction))

unfoldable pub build_ledger_bridge :
    (batch : CanonicalTransaction) (entries : List CanonicalTransaction) (tolerance_minor : ℤ)
    → Bridge
build_ledger_bridge batch entries tolerance =
    let debit_total = gross_total (debits entries) in
    let credit_total = gross_total (credits entries) in
    record {
      currency = batch.currency;
      components =
          record {
            label = debits_of (length (debits entries));
            amount_minor = debit_total;
            operation = base;
            source_ref = some batch.external_id;
          }
          ∷ record {
            label = credits_of (length (credits entries));
            amount_minor = credit_total;
            operation = subtract;
            source_ref = some batch.external_id;
          }
          ∷ [];
      expected_net_minor = credit_total;
      observed_net_minor = debit_total;
      tolerance_minor = tolerance;
    }

-- `METHOD_FEE_BPS.get(method, DEFAULT_FEE_BPS)`
unfoldable pub method_fee_bps : Text → ℕ
method_fee_bps m =
    if text_eq m (codes "upi")
    then 150
    else if text_eq m (codes "card")
    then 250
    else if text_eq m (codes "netbanking")
    then 200
    else if text_eq m (codes "wallet")
    then 180
    else default_fee_bps

unfoldable pub expected_fee_minor : ℤ → Option Text → ℤ × ℤ
unfolding method_fee_bps lower
expected_fee_minor gross method =
    let bps = method_fee_bps (lower (or_empty method)) in
    let fee = floor_div (gross *ℤ pos bps) 10_000 in
    (fee, floor_div (fee *ℤ pos gst_bps_on_fee) 10_000)

unfoldable pub fee_matches_schedule : (gross fee tax : ℤ) → Option Text → (tolerance : ℤ) → Bool
fee_matches_schedule gross fee tax method tolerance =
    let (expected_fee, expected_tax) = expected_fee_minor gross method in
    leb_ℤ (pos (abs (fee -ℤ expected_fee))) tolerance
    && leb_ℤ (pos (abs (tax -ℤ expected_tax))) tolerance
