-- ===== src/Recon/Index/Lookups.antt =====
-- Each lookup of a freshly built index is a filter over the transactions, in their order.
use mathlib.Core.List.{append-nil}
use ai_finance_controller.Common.{
  ℕ, ◌≡◌, sym, ap, ◌∙◌, Bool, false, not, ◌&&◌, Option, none, some, List, [], ◌∷◌, ◌++◌, arith,
  if◌then◌else◌, filter, find, snoc_if, Bool-cases, inl, inr,
}
use ai_finance_controller.Common.Int.{ℤ}
use ai_finance_controller.Common.Text.{Text, text_eq, is_blank, or_empty}
use ai_finance_controller.Common.Dict.{Dict, lookup, get_list, get_list-push, lookup-set_default}
use ai_finance_controller.Domain.Enums.{EntityType, same_entity}
use ai_finance_controller.Domain.Canonical.{CanonicalTransaction, norm}
use ai_finance_controller.Recon.Index.{
  TransactionIndex, add_transaction, add_transactions, empty_index, build, push_unless_blank,
  of_type, get, children_of, referencing,
}
use ai_finance_controller.Recon.Index.Keys.{text_key, entity_key, amount_date_key, same_amount_date}

-- An optional identifier that is there and has the key `k`.
abbrev pub has_key : Text → Option Text → Bool
has_key k key = not (is_blank key) && text_eq (norm (or_empty key)) k

get_list-push_unless_blank :
    (k : Text) (key : Option Text) (t : CanonicalTransaction)
    (m : Dict Text (List CanonicalTransaction))
    → get_list k (push_unless_blank key t m)
      ≡ (if has_key k key then get_list k m ++ t ∷ [] else get_list k m)
get_list-push_unless_blank k key t m = elim (Bool-cases (is_blank key)) [
  | inl e ↦ rw e
  | inr e ↦ rw e (get_list-push (norm (or_empty key)) k t m)
]

by_reference-add_transactions :
    (k : Text) (ix : TransactionIndex) (ts : List CanonicalTransaction)
    → get_list k (add_transactions ix ts).by_reference
      ≡ get_list k ix.by_reference ++ filter (λ t. has_key k t.reference_id) ts
unfolding add_transactions add_transaction
by_reference-add_transactions k ix [] = sym (append-nil _)
by_reference-add_transactions k ix (t ∷ ts) =
    by_reference-add_transactions k (add_transaction ix t) ts
    ∙ ap (λ xs. xs ++ filter (λ u. has_key k u.reference_id) ts)
        (get_list-push_unless_blank k t.reference_id t ix.by_reference)
    ∙ snoc_if (has_key k t.reference_id) (get_list k ix.by_reference) _ t

by_parent-add_transactions :
    (k : Text) (ix : TransactionIndex) (ts : List CanonicalTransaction)
    → get_list k (add_transactions ix ts).by_parent
      ≡ get_list k ix.by_parent ++ filter (λ t. has_key k t.parent_external_id) ts
unfolding add_transactions add_transaction
by_parent-add_transactions k ix [] = sym (append-nil _)
by_parent-add_transactions k ix (t ∷ ts) =
    by_parent-add_transactions k (add_transaction ix t) ts
    ∙ ap (λ xs. xs ++ filter (λ u. has_key k u.parent_external_id) ts)
        (get_list-push_unless_blank k t.parent_external_id t ix.by_parent)
    ∙ snoc_if (has_key k t.parent_external_id) (get_list k ix.by_parent) _ t

by_type-add_transactions :
    (e : EntityType) (ix : TransactionIndex) (ts : List CanonicalTransaction)
    → get_list e (add_transactions ix ts).by_type
      ≡ get_list e ix.by_type ++ filter (λ t. same_entity t.entity_type e) ts
unfolding add_transactions add_transaction
by_type-add_transactions e ix [] = sym (append-nil _)
by_type-add_transactions e ix (t ∷ ts) =
    by_type-add_transactions e (add_transaction ix t) ts
    ∙ ap (λ xs. xs ++ filter (λ u. same_entity u.entity_type e) ts)
        (get_list-push t.entity_type e t ix.by_type)
    ∙ snoc_if (same_entity t.entity_type e) (get_list e ix.by_type) _ t

by_amount_date-add_transactions :
    (p : ℤ × ℕ) (ix : TransactionIndex) (ts : List CanonicalTransaction)
    → get_list p (add_transactions ix ts).by_amount_date
      ≡ get_list p ix.by_amount_date
        ++ filter (λ t. same_amount_date (t.net_amount_minor, t.business_date) p) ts
unfolding add_transactions add_transaction
by_amount_date-add_transactions p ix [] = sym (append-nil _)
by_amount_date-add_transactions p ix (t ∷ ts) =
    by_amount_date-add_transactions p (add_transaction ix t) ts
    ∙ ap (λ xs. xs ++ filter (λ u. same_amount_date (u.net_amount_minor, u.business_date) p) ts)
        (get_list-push (t.net_amount_minor, t.business_date) p t ix.by_amount_date)
    ∙ snoc_if (same_amount_date (t.net_amount_minor, t.business_date) p)
        (get_list p ix.by_amount_date) _ t

-- The value found first, or else the second.
abbrev or_else : {A : Type 0} → Option A → Option A → Option A
or_else (some a) o = some a
or_else none o = o

by_id-add_transactions :
    (k : Text) (ix : TransactionIndex) (ts : List CanonicalTransaction)
    → lookup k (add_transactions ix ts).by_id
      ≡ or_else (lookup k ix.by_id) (find (λ t. text_eq t.external_id_norm k) ts)
unfolding add_transactions add_transaction
by_id-add_transactions k ix [] = ground arith
by_id-add_transactions k ix (t ∷ ts) =
    by_id-add_transactions k (add_transaction ix t) ts
    ∙ ap (λ o. or_else o (find (λ u. text_eq u.external_id_norm k) ts))
        (lookup-set_default t.external_id_norm k t ix.by_id)
    ∙ ground arith

-- A built index answers as a search through the transactions would: the records that name a
-- reference, the children of a record, the records of a type and those of an amount and a date are
-- all of them, in the order of the run; an identifier finds the first record that carries it.
pub build_lookups :
    (ts : List CanonicalTransaction) (key : Text) (e : EntityType) (amount : ℤ) (day : ℕ)
    → is_blank (some key) ≡ false
    → (referencing (build ts) (some key) ≡ filter (λ t. has_key (norm key) t.reference_id) ts)
      × (children_of (build ts) key ≡ filter (λ t. has_key (norm key) t.parent_external_id) ts)
      × (of_type (build ts) (e ∷ []) ≡ filter (λ t. same_entity t.entity_type e) ts)
      × (get_list (amount, day) (build ts).by_amount_date
          ≡ filter (λ t. same_amount_date (t.net_amount_minor, t.business_date) (amount, day)) ts)
      × (get (build ts) (some key) ≡ find (λ t. text_eq t.external_id_norm (norm key)) ts)
unfolding build referencing children_of of_type get get_list lookup
build_lookups ts key e amount day present = (
  rw present (by_reference-add_transactions (norm key) (empty_index ts) ts),
  by_parent-add_transactions (norm key) (empty_index ts) ts,
  append-nil _ ∙ by_type-add_transactions e (empty_index ts) ts,
  by_amount_date-add_transactions (amount, day) (empty_index ts) ts,
  rw present (by_id-add_transactions (norm key) (empty_index ts) ts),
)
