-- ===== src/Recon/Rules/Orders.antt =====
-- The invoices and payments that R4 of packages/reconciliation/ledgergraph_reconciliation/rules.py
-- pairs by their order.
use ai_finance_controller.Common.{◌≡◌, false, List, [], ◌∷◌, In, filter}
use ai_finance_controller.Common.Text.{is_blank}
use ai_finance_controller.Double.{Double}
use ai_finance_controller.Domain.Enums.{EntityType, is_captured}
use ai_finance_controller.Domain.Canonical.{CanonicalTransaction}
use ai_finance_controller.Recon.Models.{MatchGroup}
use ai_finance_controller.Recon.Index.Keys.{text_key}
use ai_finance_controller.Recon.Index.Claims.{ids_of}
use ai_finance_controller.Recon.Rules.{r4_group}
use ai_finance_controller.Recon.Rules.Open.{IsOpenPayment, is_open_payment}

module _ (W : Type 0) ⦃d : Double W⦄ (ts used : List CanonicalTransaction) where
  -- One invoice and the only open payment of its order.
  pub record PairsUp (g : MatchGroup W) : Type 0 where
    pub invoice : CanonicalTransaction
    pub payment : CanonicalTransaction
    pub group_eq : g ≡ r4_group invoice payment
    pub invoice_in : In invoice ts
    pub is_invoice : invoice.entity_type ≡ EntityType.invoice
    pub has_order : is_blank invoice.reference_id ≡ false
    pub invoice_open : ¬ (In invoice.external_id_norm (ids_of used))
    pub payment_open : IsOpenPayment ts used invoice payment
    pub listed_once : filter (is_open_payment used invoice) ts ≡ payment ∷ []
    pub only_one : (t : CanonicalTransaction) → IsOpenPayment ts used invoice t → t ≡ payment
    pub same_gross : payment.gross_amount_minor ≡ invoice.gross_amount_minor
    pub same_state : is_captured payment.status ≡ is_captured invoice.status
