-- ===== src/Recon/Rules/Open.antt =====
-- The open payments of an order, which R4 of
-- packages/reconciliation/ledgergraph_reconciliation/rules.py looks for, as records of the run.
use ai_finance_controller.Common.{
  any, ◌≡◌, ◌↔◌, refl, ◌∙◌, Bool, true, false, not, ◌&&◌, Option, none, some, List, [], ◌∷◌, arith,
  In, In-filter, In-filter_intro, filter, Bool-cases, inl, inr,
}
use ai_finance_controller.Common.Int.{pos}
use ai_finance_controller.Common.Text.{text_eq, Text, is_blank, or_empty}
use ai_finance_controller.Domain.Enums.{EntityType, same_entity, eq_of_same_entity}
use ai_finance_controller.Domain.Canonical.{CanonicalTransaction, norm}
use ai_finance_controller.Recon.Index.{build, consume, referencing, is_consumed}
use ai_finance_controller.Recon.Index.Keys.{text_key, same_entity_iff, text_eq_iff}
use ai_finance_controller.Recon.Index.Lookups.{has_key, build_lookups}
use ai_finance_controller.Recon.Index.Claims.{
  ids_of, is_consumed-built, is_consumed_iff, referencing-consume,
}
use ai_finance_controller.Recon.Rules.{is_type, open_payments}

-- A record that has the invoice's order reference, up to spaces and letter case.
abbrev pub IsOfOrder : (invoice t : CanonicalTransaction) → Type 0
IsOfOrder invoice t =
    (is_blank t.reference_id ≡ false)
    × (norm (or_empty t.reference_id) ≡ norm (or_empty invoice.reference_id))

-- A payment of the run for the invoice's order, whose id is none of a consumed record.
abbrev pub IsOpenPayment :
    (ts used : List CanonicalTransaction) (invoice t : CanonicalTransaction) → Type 0
IsOpenPayment ts used invoice t =
    In t ts
    × (t.entity_type ≡ EntityType.payment)
    × IsOfOrder invoice t
    × ¬ (In t.external_id_norm (ids_of used))

-- The same as a test.
abbrev pub is_open_payment :
    (used : List CanonicalTransaction) (invoice t : CanonicalTransaction) → Bool
is_open_payment used invoice t =
    has_key (norm (or_empty invoice.reference_id)) t.reference_id
    && (same_entity t.entity_type EntityType.payment
        && not (any (text_eq t.external_id_norm) (ids_of used)))

filter-filter :
    {A : Type 0} (p q r : A → Bool) (xs : List A)
    → ((x : A) → r x ≡ (q x && p x))
    → filter p (filter q xs) ≡ filter r xs
filter-filter p q r [] h = refl
filter-filter p q r (x ∷ xs) h = ground (arith, filter-filter p q r xs h, h x)

has_key_iff :
    (invoice t : CanonicalTransaction)
    → (has_key (norm (or_empty invoice.reference_id)) t.reference_id ≡ true) ↔ IsOfOrder invoice t
has_key_iff invoice t = (
  λ h. (
    ground arith,
    (text_eq_iff (norm (or_empty t.reference_id)) (norm (or_empty invoice.reference_id))).0
        (ground arith),
  ),
  λ (b, e). ground (
    arith,
    (text_eq_iff (norm (or_empty t.reference_id)) (norm (or_empty invoice.reference_id))).1 e,
  ),
)

module _ (ts used : List CanonicalTransaction) where
  pub not_consumed_iff :
      (t : CanonicalTransaction)
      → (is_consumed (consume (build ts) used) t ≡ false)
        ↔ (¬ (In t.external_id_norm (ids_of used)))
  not_consumed_iff t = (
    λ h i. let c = (is_consumed_iff ts used t).1 i in cc,
    λ n. elim (Bool-cases (is_consumed (consume (build ts) used) t)) [
      | inl e ↦ absurd (n ((is_consumed_iff ts used t).0 e))
      | inr e ↦ e
    ],
  )

  referencing_built :
      (reference : Option Text)
      → is_blank reference ≡ false
      → referencing (consume (build ts) used) reference
        ≡ filter (λ t. has_key (norm (or_empty reference)) t.reference_id) ts
  referencing_built none h = cc
  referencing_built (some k) h =
      referencing-consume (build ts) used (some k)
      ∙ (build_lookups ts k EntityType.invoice (pos 0) 0 h).0

  pub open_payments_iff :
      (invoice t : CanonicalTransaction)
      → is_blank invoice.reference_id ≡ false
      → In t (open_payments (consume (build ts) used) invoice) ↔ IsOpenPayment ts used invoice t
  unfolding open_payments
  open_payments_iff invoice t h =
      let ix = consume (build ts) used in
      let is_open : CanonicalTransaction → Bool =
        λ t. is_type EntityType.payment t && not (is_consumed ix t) in
      let named : CanonicalTransaction → Bool =
        λ t. has_key (norm (or_empty invoice.reference_id)) t.reference_id in
      let listed = referencing_built invoice.reference_id h in
      (
        λ i.
            let (j, o) = In-filter t is_open (referencing ix invoice.reference_id) i in
            let (k, n) = In-filter t named ts (rw listed at j) in
            (
              k,
              eq_of_same_entity t.entity_type EntityType.payment (ground arith),
              (has_key_iff invoice t).0 n,
              (not_consumed_iff t).0 (ground arith),
            ),
        λ (k, p, n, c).
            let type = (same_entity_iff t.entity_type EntityType.payment).1 p in
            let free = (not_consumed_iff t).1 c in
            In-filter_intro t is_open (referencing ix invoice.reference_id)
              (rw listed (In-filter_intro t named ts k ((has_key_iff invoice t).1 n)))
              (rw (type, free) refl),
      )

  pub open_payments_lem :
      (invoice : CanonicalTransaction)
      → is_blank invoice.reference_id ≡ false
      → open_payments (consume (build ts) used) invoice ≡ filter (is_open_payment used invoice) ts
  unfolding open_payments
  open_payments_lem invoice h =
      let ix = consume (build ts) used in
      rw (referencing_built invoice.reference_id h) (
        filter-filter (λ t. is_type EntityType.payment t && not (is_consumed ix t))
          (λ t. has_key (norm (or_empty invoice.reference_id)) t.reference_id)
          (is_open_payment used invoice) ts (λ t. rw (is_consumed-built ts used t) refl))
