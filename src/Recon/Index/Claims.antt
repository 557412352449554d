-- ===== src/Recon/Index/Claims.antt =====
-- What consuming records does to an index: it marks their identifiers, and every lookup stays.
use ai_finance_controller.Common.{
  ◌≡◌, ◌↔◌, refl, ◌∙◌, true, false, ◌||◌, Option, List, [], ◌∷◌, arith, map, any, In,
}
use ai_finance_controller.Common.Text.{Text, text_eq}
use ai_finance_controller.Common.Keys.{In-any, any-In}
use ai_finance_controller.Domain.Enums.{EntityType}
use ai_finance_controller.Domain.Canonical.{CanonicalTransaction}
use ai_finance_controller.Recon.Index.{
  TransactionIndex, add_transaction, add_transactions, empty_index, build, of_type, referencing,
  is_consumed, consume,
}

abbrev pub ids_of : List CanonicalTransaction → List Text
ids_of ts = map (λ t. t.external_id_norm) ts

is_consumed-consume :
    (ix : TransactionIndex) (used : List CanonicalTransaction) (t : CanonicalTransaction)
    → is_consumed (consume ix used) t
      ≡ (any (text_eq t.external_id_norm) (ids_of used) || is_consumed ix t)
unfolding is_consumed consume
is_consumed-consume ix [] t = refl
is_consumed-consume ix (u ∷ used) t =
    is_consumed-consume (record ix { consumed = u.external_id_norm ∷ ix.consumed }) used t
    ∙ ground arith

consumed-add_transactions :
    (ix : TransactionIndex) (ts : List CanonicalTransaction)
    → (add_transactions ix ts).consumed ≡ ix.consumed
unfolding add_transactions add_transaction
consumed-add_transactions ix [] = refl
consumed-add_transactions ix (t ∷ ts) = consumed-add_transactions (add_transaction ix t) ts

none_consumed :
    (ts : List CanonicalTransaction) (t : CanonicalTransaction) → is_consumed (build ts) t ≡ false
unfolding is_consumed build
none_consumed ts t = rw (consumed-add_transactions (empty_index ts) ts) refl

pub is_consumed-built :
    (ts used : List CanonicalTransaction) (t : CanonicalTransaction)
    → is_consumed (consume (build ts) used) t ≡ any (text_eq t.external_id_norm) (ids_of used)
is_consumed-built ts used t =
    let e = is_consumed-consume (build ts) used t in
    let n = none_consumed ts t in ground (arith, e, n)

-- After a fresh index has consumed some records, the consumed ones are those with their ids.
pub is_consumed_iff :
    (ts used : List CanonicalTransaction) (t : CanonicalTransaction)
    → (is_consumed (consume (build ts) used) t ≡ true) ↔ In t.external_id_norm (ids_of used)
is_consumed_iff ts used t =
    let e = is_consumed-consume (build ts) used t in
    let n = none_consumed ts t in
    (
      λ h. In-any t.external_id_norm (ids_of used) (ground (arith, e, n)),
      λ i. ground (arith, e, any-In t.external_id_norm (ids_of used) i),
    )

pub referencing-consume :
    (ix : TransactionIndex) (used : List CanonicalTransaction) (key : Option Text)
    → referencing (consume ix used) key ≡ referencing ix key
unfolding consume referencing
referencing-consume ix [] key = refl
referencing-consume ix (u ∷ used) key =
    referencing-consume (record ix { consumed = u.external_id_norm ∷ ix.consumed }) used key

pub of_type-consume :
    (ix : TransactionIndex) (used : List CanonicalTransaction) (e : EntityType)
    → of_type (consume ix used) (e ∷ []) ≡ of_type ix (e ∷ [])
unfolding consume of_type
of_type-consume ix [] e = refl
of_type-consume ix (u ∷ used) e =
    of_type-consume (record ix { consumed = u.external_id_norm ∷ ix.consumed }) used e
