-- ===== src/Recon/Index.antt =====
-- The indexes over a run's transactions, of
-- packages/reconciliation/ledgergraph_reconciliation/index.py.
pub mod Keys
pub mod Lookups
pub mod Candidates
pub mod Claims
pub mod Overflow
use ai_finance_controller.Common.{
  ℕ, zero, suc, ◌+◌, Bool, true, false, not, ◌&&◌, ◌||◌, Option, none, some, List, [], ◌∷◌, ◌++◌,
  if◌then◌else◌, any, filter, take, length, ltb,
}
use ai_finance_controller.Common.Int.{ℤ, pos, ◌+ℤ◌, ◌-ℤ◌, ltb_ℤ, ◌==ℤ◌, pos_part}
use ai_finance_controller.Common.Text.{Text, text_eq, is_blank, or_empty}
use ai_finance_controller.Common.Dict.{Dict, lookup, set_default, push, get_list}
use ai_finance_controller.Domain.Enums.{EntityType, same_entity}
use ai_finance_controller.Domain.Canonical.{CanonicalTransaction, norm}
use Keys.{text_key, entity_key, amount_date_key}

-- `MAX_CANDIDATES`
abbrev pub max_candidates : ℕ
max_candidates = 20

pub record TransactionIndex : Type 0 where
  pub transactions : List CanonicalTransaction
  pub by_id : Dict Text CanonicalTransaction
  pub by_parent : Dict Text (List CanonicalTransaction)
  pub by_reference : Dict Text (List CanonicalTransaction)
  pub by_type : Dict EntityType (List CanonicalTransaction)
  pub by_amount_date : Dict (ℤ × ℕ) (List CanonicalTransaction)
  pub consumed : List Text

abbrev pub push_unless_blank :
    Option Text
    → CanonicalTransaction
    → Dict Text (List CanonicalTransaction)
    → Dict Text (List CanonicalTransaction)
push_unless_blank key t m = if is_blank key then m else push (norm (or_empty key)) t m

-- The body of the loop in `__init__`.
unfoldable pub add_transaction : TransactionIndex → CanonicalTransaction → TransactionIndex
add_transaction ix t = record ix {
  by_id = set_default t.external_id_norm t ix.by_id;
  by_parent = push_unless_blank t.parent_external_id t ix.by_parent;
  by_reference = push_unless_blank t.reference_id t ix.by_reference;
  by_type = push t.entity_type t ix.by_type;
  by_amount_date = push (t.net_amount_minor, t.business_date) t ix.by_amount_date;
}

unfoldable pub add_transactions : TransactionIndex → List CanonicalTransaction → TransactionIndex
add_transactions ix [] = ix
add_transactions ix (t ∷ ts) = add_transactions (add_transaction ix t) ts

abbrev pub empty_index : List CanonicalTransaction → TransactionIndex
empty_index ts = record {
  transactions = ts;
  by_id = [];
  by_parent = [];
  by_reference = [];
  by_type = [];
  by_amount_date = [];
  consumed = [];
}

-- `TransactionIndex(transactions)`
unfoldable pub build : List CanonicalTransaction → TransactionIndex
build ts = add_transactions (empty_index ts) ts

unfoldable pub of_type : TransactionIndex → List EntityType → List CanonicalTransaction
of_type ix [] = []
of_type ix (e ∷ es) = get_list e ix.by_type ++ of_type ix es

unfoldable pub get : TransactionIndex → Option Text → Option CanonicalTransaction
get ix external_id =
    if is_blank external_id then none else lookup (norm (or_empty external_id)) ix.by_id

unfoldable pub children_of : TransactionIndex → Text → List CanonicalTransaction
children_of ix external_id = get_list (norm external_id) ix.by_parent

unfoldable pub referencing : TransactionIndex → Option Text → List CanonicalTransaction
referencing ix reference =
    if is_blank reference then [] else get_list (norm (or_empty reference)) ix.by_reference

unfoldable pub is_consumed : TransactionIndex → CanonicalTransaction → Bool
is_consumed ix t = any (text_eq t.external_id_norm) ix.consumed

-- `_consumed` is a set, of which only membership is asked.
unfoldable pub consume : TransactionIndex → List CanonicalTransaction → TransactionIndex
consume ix [] = ix
consume ix (t ∷ ts) = consume (record ix { consumed = t.external_id_norm ∷ ix.consumed }) ts

unfoldable pub unconsumed : TransactionIndex → List EntityType → List CanonicalTransaction
unconsumed ix types = filter (λ t. not (is_consumed ix t)) (of_type ix types)

-- The tests in the innermost loop of `candidates`.
unfoldable pub is_plausible :
    TransactionIndex
    → (subject : CanonicalTransaction) (entity_types : List EntityType) (include_consumed : Bool)
    → CanonicalTransaction
    → Bool
is_plausible ix subject entity_types include_consumed candidate =
    not (text_eq candidate.external_id_norm subject.external_id_norm)
    && any (same_entity candidate.entity_type) entity_types
    && text_eq candidate.currency subject.currency
    && (include_consumed || not (is_consumed ix candidate))

-- The loops keep `out`, and stop once it holds more than the ceiling.
pub data Scan : Type 0 where
  collecting returned : List CanonicalTransaction → Scan

unfoldable pub visit : Bool → CanonicalTransaction → Scan → Scan
visit plausible candidate (returned out) = returned out
visit plausible candidate (collecting out) =
    if plausible
    then (if ltb max_candidates (length (out ++ candidate ∷ []))
        then returned (take max_candidates (out ++ candidate ∷ []))
        else collecting (out ++ candidate ∷ []))
    else collecting out

unfoldable pub scan_bucket : (CanonicalTransaction → Bool) → List CanonicalTransaction → Scan → Scan
scan_bucket test [] s = s
scan_bucket test (c ∷ cs) s = scan_bucket test cs (visit (test c) c s)

-- `range(low, low + n)`
abbrev pub range_ℤ : ℤ → ℕ → List ℤ
range_ℤ low zero = []
range_ℤ low (suc n) = low ∷ range_ℤ (low +ℤ pos 1) n

-- `range(low, high + 1) if amount_tolerance_minor else (low,)`
abbrev pub amounts_around : ℤ → ℤ → List ℤ
amounts_around net tolerance =
    if tolerance ==ℤ pos 0
    then (net -ℤ tolerance) ∷ []
    else range_ℤ (net -ℤ tolerance) (pos_part (net +ℤ tolerance +ℤ pos 1 -ℤ (net -ℤ tolerance)))

unfoldable pub scan_amounts :
    TransactionIndex → (CanonicalTransaction → Bool) → (day : ℕ) → List ℤ → Scan → Scan
scan_amounts ix test day [] s = s
scan_amounts ix test day (a ∷ as') s =
    scan_amounts ix test day as' (scan_bucket test (get_list (a, day) ix.by_amount_date) s)

-- The days from `day` on, as many as are left.
unfoldable pub scan_days :
    TransactionIndex → (CanonicalTransaction → Bool) → List ℤ → (day left : ℕ) → Scan → Scan
scan_days ix test amounts day zero s = s
scan_days ix test amounts day (suc left) s =
    scan_days ix test amounts (day + 1) left (scan_amounts ix test day amounts s)

abbrev pub scanned : Scan → List CanonicalTransaction
scanned (collecting out) = out
scanned (returned out) = out

-- Where the window leaves Python's dates the code raises, which Recon/Index/Overflow says.
unfoldable pub candidates :
    TransactionIndex
    → (subject : CanonicalTransaction) (entity_types : List EntityType) (window_days : ℕ)
      (amount_tolerance_minor : ℤ) (include_consumed : Bool)
    → List CanonicalTransaction
candidates ix subject entity_types window_days tolerance include_consumed = scanned (
    scan_days ix (is_plausible ix subject entity_types include_consumed)
      (amounts_around subject.net_amount_minor tolerance) subject.business_date (suc window_days)
      (collecting []))
