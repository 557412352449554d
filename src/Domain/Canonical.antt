-- ===== src/Domain/Canonical.antt =====
-- The canonical transaction of packages/domain/ledgergraph_domain/canonical.py. Amounts are
-- Python's ints, so the check that they are ints has nothing to model. A date is its ordinal, which
-- Python ends at 9999-12-31 (Recon/Index/Overflow), an instant its number of seconds with the offset
-- that it was given in.
pub mod Accept
use ai_finance_controller.Common.{
  ℕ, ◌≡◌, Bool, true, false, not, ◌&&◌, ◌||◌, Option, none, some, List, [], ◌∷◌, ◌++◌, ltb, leb,
  ◌==◌, if◌then◌else◌, any, is_empty,
}
use ai_finance_controller.Common.Int.{ℤ, pos, ◌-ℤ◌, ltb_ℤ, ◌==ℤ◌}
use ai_finance_controller.Common.Text.{Text, text_eq, strip, upper}
use ai_finance_controller.Common.Result.{Result, ok, err, ◌>>=◌, ◌>>◌, raise_if}
use ai_finance_controller.Domain.Enums.{SourceSystem, EntityType, TxnDirection, TxnStatus, is_debit}

-- `event_at`: an instant, and the offset in seconds; `none` is a naive timestamp.
pub record Timestamp : Type 0 where
  pub instant : ℕ
  pub utcoffset : Option ℤ

pub record CanonicalTransaction : Type 0 where
  pub source_system : SourceSystem
  pub entity_type : EntityType
  pub external_id : Text
  pub external_id_norm : Text
  pub currency : Text
  pub gross_amount_minor : ℤ
  pub net_amount_minor : ℤ
  pub direction : TxnDirection
  pub status : TxnStatus
  pub fee_amount_minor : ℤ
  pub tax_amount_minor : ℤ
  pub event_at : Timestamp
  pub business_date : ℕ
  pub business_timezone : Text
  pub tz_assumed : Bool
  pub available_at : Option Timestamp
  pub parent_external_id : Option Text
  pub reference_id : Option Text
  pub customer_ref : Option Text
  pub counterparty : Option Text
  pub description : Option Text
  pub metadata : List (Text × Text)
  pub data_quality_flags : List Text

-- The codes of `CanonicalError`.
pub data CanonicalError : Type 0 where
  missing_field invalid_currency amount_negative amount_identity_violation : CanonicalError
  fee_out_of_scope naive_timestamp non_utc_timestamp : CanonicalError

-- The join key of an identifier: `.strip().upper()`.
unfoldable pub norm : Text → Text
unfolding strip upper
norm t = upper (strip t)

-- `FEE_BEARING`
unfoldable pub fee_bearing : EntityType → Bool
fee_bearing EntityType.settlement_batch = true
fee_bearing EntityType.settlement_line = true
fee_bearing EntityType.adjustment = true
fee_bearing _ = false

unfoldable pub is_capital : ℕ → Bool
is_capital c = leb b'A' c && leb c b'Z'

-- `_CURRENCY_RE.match`: the pattern's `$` also matches in front of a final newline.
unfoldable pub currency_matches : Text → Bool
unfolding is_capital
currency_matches (a ∷ b ∷ c ∷ []) = is_capital a && is_capital b && is_capital c
currency_matches (a ∷ b ∷ c ∷ d ∷ []) = is_capital a && is_capital b && is_capital c && d == 10
currency_matches _ = false

abbrev pub is_utc : Option ℤ → Bool
is_utc none = false
is_utc (some offset) = offset ==ℤ pos 0

abbrev pub is_naive : Option ℤ → Bool
is_naive none = true
is_naive (some offset) = false

-- The tests of `__post_init__`, one for each error.
unfoldable pub lacks_id : CanonicalTransaction → Bool
unfolding strip
lacks_id t = is_empty (strip t.external_id)

unfoldable pub has_bad_currency : CanonicalTransaction → Bool
unfolding currency_matches
has_bad_currency t = not (currency_matches t.currency)

unfoldable pub has_negative_amount : CanonicalTransaction → Bool
has_negative_amount t =
    ltb_ℤ t.gross_amount_minor (pos 0)
    || ltb_ℤ t.fee_amount_minor (pos 0)
    || ltb_ℤ t.tax_amount_minor (pos 0)

unfoldable pub violates_identity : CanonicalTransaction → Bool
violates_identity t =
    not (t.net_amount_minor ==ℤ t.gross_amount_minor -ℤ t.fee_amount_minor -ℤ t.tax_amount_minor)

unfoldable pub has_fee_out_of_scope : CanonicalTransaction → Bool
unfolding fee_bearing
has_fee_out_of_scope t =
    not (fee_bearing t.entity_type)
    && (not (t.fee_amount_minor ==ℤ pos 0) || not (t.tax_amount_minor ==ℤ pos 0))

-- `__post_init__`: the checks in their order, and the join key filled in.
unfoldable pub post_init : CanonicalTransaction → Result CanonicalError CanonicalTransaction
post_init t = do
  raise_if (lacks_id t) missing_field
  raise_if (has_bad_currency t) invalid_currency
  raise_if (has_negative_amount t) amount_negative
  raise_if (violates_identity t) amount_identity_violation
  raise_if (has_fee_out_of_scope t) fee_out_of_scope
  raise_if (is_naive t.event_at.utcoffset) naive_timestamp
  raise_if (not (is_utc t.event_at.utcoffset)) non_utc_timestamp
  ok (record t { external_id_norm = norm t.external_id })

unfoldable pub is_zero_amount : CanonicalTransaction → Bool
is_zero_amount t = t.gross_amount_minor ==ℤ pos 0

unfoldable pub signed_net_minor : CanonicalTransaction → ℤ
signed_net_minor t =
    if is_debit t.direction then pos 0 -ℤ t.net_amount_minor else t.net_amount_minor

-- The copy is built by `replace`, which runs `__post_init__` again.
unfoldable pub with_flag : Text → CanonicalTransaction → Result CanonicalError CanonicalTransaction
unfolding post_init
with_flag flag t =
    if any (text_eq flag) t.data_quality_flags
    then ok t
    else post_init (record t { data_quality_flags = t.data_quality_flags ++ flag ∷ [] })
