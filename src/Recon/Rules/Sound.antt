-- ===== src/Recon/Rules/Sound.antt =====
-- What the exact rules of packages/reconciliation/ledgergraph_reconciliation/rules.py find.
use ai_finance_controller.Common.{
  ◌≡◌, refl, true, false, Option, none, some, arith, find, find-some, find-none, In, All,
  Bool-cases, inl, inr, is_some,
}
use ai_finance_controller.Common.Int.{==ℤ_iff}
use ai_finance_controller.Common.Text.{is_blank}
use ai_finance_controller.Domain.Enums.{EntityType, eq_of_same_entity}
use ai_finance_controller.Domain.Canonical.{CanonicalTransaction}
use ai_finance_controller.Recon.Index.{TransactionIndex, referencing, is_consumed}
use ai_finance_controller.Recon.Index.Keys.{text_key}
use ai_finance_controller.Recon.Rules.{is_exact_credit, r2_result, match_r2_batch_to_bank}

-- No record with the batch's reference is an exact credit, or the one that is chosen is.
abbrev pub IsExactChoice :
    TransactionIndex → CanonicalTransaction → Option CanonicalTransaction → Type 0
IsExactChoice ix batch none =
    All (λ t. is_exact_credit ix batch t ≡ false) (referencing ix batch.reference_id)
IsExactChoice ix batch (some bank) =
    In bank (referencing ix batch.reference_id)
    × (bank.entity_type ≡ EntityType.bank_transaction)
    × (is_consumed ix bank ≡ false)
    × (bank.net_amount_minor ≡ batch.net_amount_minor)

exact_credit-parts :
    (ix : TransactionIndex) (batch bank : CanonicalTransaction)
    → is_exact_credit ix batch bank ≡ true
    → (bank.entity_type ≡ EntityType.bank_transaction)
      × (is_consumed ix bank ≡ false)
      × (bank.net_amount_minor ≡ batch.net_amount_minor)
unfolding is_exact_credit
exact_credit-parts ix batch bank h = ground (
  arith,
  eq_of_same_entity bank.entity_type EntityType.bank_transaction,
  ==ℤ_iff bank.net_amount_minor batch.net_amount_minor,
)

referencing-blank :
    (ix : TransactionIndex) (batch : CanonicalTransaction)
    → is_blank batch.reference_id ≡ true
    → IsExactChoice ix batch none
unfolding referencing
referencing-blank ix batch h = rw h tt

module _ (W : Type 0) (batch : CanonicalTransaction) (ix : TransactionIndex) where
  -- R2 chooses a record that carries the batch's reference, is a bank transaction, is not consumed
  -- and has exactly the batch's net amount; if it chooses none, no record that carries the
  -- reference passes these tests. Its evidence passed exactly if it chose a record.
  pub match_r2_batch_to_bank-choice :
      IsExactChoice ix batch (match_r2_batch_to_bank {W = W} batch ix).0
      × ((match_r2_batch_to_bank {W = W} batch ix).1.passed
          ≡ is_some (match_r2_batch_to_bank {W = W} batch ix).0)
  unfolding match_r2_batch_to_bank
  match_r2_batch_to_bank-choice = elim (Bool-cases (is_blank batch.reference_id)) [
    | inl e ↦ rw e (referencing-blank ix batch e, refl)
    | inr e ↦ rw e (r2_result_lem _ refl)
  ]
    where
      r2_result_lem :
          (o : Option CanonicalTransaction)
          → find (is_exact_credit ix batch) (referencing ix batch.reference_id) ≡ o
          → IsExactChoice ix batch (r2_result {W = W} batch o).0
            × ((r2_result {W = W} batch o).1.passed ≡ is_some (r2_result {W = W} batch o).0)
      r2_result_lem none h = (find-none _ _ h, refl)
      r2_result_lem (some bank) h =
          let (i, t) = find-some _ _ bank h in
          let (is_bank, free, exact) = exact_credit-parts ix batch bank t in
          ((i, is_bank, free, exact), refl)
