-- ===== src/Recon/Rules/Chain.antt =====
-- The payments that R1 of packages/reconciliation/ledgergraph_reconciliation/rules.py links.
use mathlib.Core.Path.{subst}
use ai_finance_controller.Common.{
  ◌≡◌, refl, sym, ◌∙◌, true, Option, none, some, List, [], ◌∷◌, if◌then◌else◌, In, Bool-cases, inl,
  inr, ◌⊎◌,
}
use ai_finance_controller.Common.Int.{◌==ℤ◌, ==ℤ_iff}
use ai_finance_controller.Common.Text.{Text, text_eq}
use ai_finance_controller.Common.Dict.{lookup, lookup-insert}
use ai_finance_controller.Domain.Enums.{EntityType, eq_of_same_entity}
use ai_finance_controller.Domain.Canonical.{CanonicalTransaction}
use ai_finance_controller.Recon.Index.{TransactionIndex, of_type, get}
use ai_finance_controller.Recon.Index.Keys.{text_key, text_eq_iff}
use ai_finance_controller.Recon.Rules.{
  PaymentMap, is_type, link_line, link_lines, match_r1_payment_to_line,
}

-- The line names the payment, and both state the same gross amount.
pub record Settles (ix : TransactionIndex) (k : Text) (payment line : CanonicalTransaction)
    : Type 0 where
  pub key : line.external_id_norm ≡ k
  pub named : get ix line.parent_external_id ≡ some payment
  pub is_payment : payment.entity_type ≡ EntityType.payment
  pub same_gross : payment.gross_amount_minor ≡ line.gross_amount_minor

lookup-link_line :
    (ix : TransactionIndex) (linked : PaymentMap) (line : CanonicalTransaction)
    (o : Option CanonicalTransaction) (k : Text) (p : CanonicalTransaction)
    → get ix line.parent_external_id ≡ o
    → lookup k (link_line linked line o) ≡ some p
    → (lookup k linked ≡ some p) ⊎ Settles ix k p line
unfolding link_line
lookup-link_line ix linked line none k p g h = inl h
lookup-link_line ix linked line (some q) k p g h =
    elim (Bool-cases (is_type EntityType.payment q)) [
      | inr e ↦ inl (rw e at h)
      | inl e ↦ elim (Bool-cases (q.gross_amount_minor ==ℤ line.gross_amount_minor)) [
        | inr f ↦ inl (rw (e, f) at h)
        | inl f ↦
            inserted e f (sym (lookup-insert line.external_id_norm k q linked) ∙ rw (e, f) at h)
      ]
    ]
  where
    inserted :
        is_type EntityType.payment q ≡ true
        → (q.gross_amount_minor ==ℤ line.gross_amount_minor) ≡ true
        → (if text_eq line.external_id_norm k then some q else lookup k linked) ≡ some p
        → (lookup k linked ≡ some p) ⊎ Settles ix k p line
    inserted e f h' = elim (Bool-cases (text_eq line.external_id_norm k)) [
      | inr n ↦ inl (rw n at h')
      | inl n ↦
          let same : some q ≡ some p = rw n at h' in
          let eq : q ≡ p = cc in
          inr (
            subst (λ x. Settles ix k x line) eq
              (record {
                key = (text_eq_iff _ _).0 n;
                named = g;
                is_payment = eq_of_same_entity _ _ e;
                same_gross = (==ℤ_iff _ _).0 f;
              }))
    ]

lookup-link_lines :
    (ix : TransactionIndex) (linked : PaymentMap) (lines : List CanonicalTransaction) (k : Text)
    (p : CanonicalTransaction)
    → lookup k (link_lines ix linked lines) ≡ some p
    → (lookup k linked ≡ some p)
      ⊎ ((line : CanonicalTransaction) × In line lines × Settles ix k p line)
unfolding link_lines
lookup-link_lines ix linked [] k p h = inl h
lookup-link_lines ix linked (line ∷ lines) k p h =
    elim (lookup-link_lines ix (link_line linked line (get ix line.parent_external_id)) lines k p
      h) [
        | inr (l, i, s) ↦ inr (l, inr i, s)
        | inl e ↦ elim (lookup-link_line ix linked line _ k p refl e) [
          | inl f ↦ inl f
          | inr s ↦ inr (line, inl refl, s)
        ]
      ]

-- A payment that R1 holds for a line's key was put there by a settlement line with that key, which
-- names the payment as its parent and states the payment's gross amount; it is a payment.
pub match_r1_payment_to_line-Settles :
    (ix : TransactionIndex) (k : Text) (p : CanonicalTransaction)
    → lookup k (match_r1_payment_to_line ix) ≡ some p
    → (line : CanonicalTransaction) × In line (of_type ix (EntityType.settlement_line ∷ []))
      × Settles ix k p line
unfolding match_r1_payment_to_line lookup
match_r1_payment_to_line-Settles ix k p h =
    elim (lookup-link_lines ix [] (of_type ix (EntityType.settlement_line ∷ [])) k p h) [
      | inl e ↦ cc
      | inr r ↦ r
    ]
