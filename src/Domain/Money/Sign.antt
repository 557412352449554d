-- ===== src/Domain/Money/Sign.antt =====
-- `split_sign` and `apply_direction` of packages/domain/ledgergraph_domain/money.py.
use ai_finance_controller.Common.{◌≡◌, arith, if◌then◌else◌}
use ai_finance_controller.Common.Int.{ℤ, pos, ◌-ℤ◌, ltb_ℤ, abs, ◌≤ℤ◌}
use ai_finance_controller.Common.Result.{Result, ok, err}
use ai_finance_controller.Domain.Enums.{TxnDirection, credit, debit, is_debit}
use ai_finance_controller.Domain.Money.{MoneyError, amount_negative}

unfoldable pub split_sign : ℤ → ℤ × TxnDirection
split_sign minor = (pos (abs minor), if ltb_ℤ minor (pos 0) then debit else credit)

unfoldable pub apply_direction : ℤ → TxnDirection → Result MoneyError ℤ
apply_direction minor_abs direction =
    if ltb_ℤ minor_abs (pos 0)
    then err amount_negative
    else ok (if is_debit direction then pos 0 -ℤ minor_abs else minor_abs)

-- A signed amount survives the split into magnitude and direction, and the magnitude stored is
-- not negative.
pub apply_direction-split_sign :
    (minor : ℤ)
    → let (magnitude, direction) = split_sign minor in
      (apply_direction magnitude direction ≡ ok minor) × (pos 0 ≤ℤ magnitude)
unfolding split_sign apply_direction ◌-ℤ◌
apply_direction-split_sign minor = ground arith
