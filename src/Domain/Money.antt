-- ===== src/Domain/Money.antt =====
-- Money of packages/domain/ledgergraph_domain/money.py: signs, and the split of an amount.
pub mod Sign
pub mod Allocate

-- The codes of `MoneyError` that the modelled functions raise.
pub data MoneyError : Type 0 where
  amount_negative allocation_empty allocation_negative_weight allocation_zero_weight : MoneyError
