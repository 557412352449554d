-- ===== src/Recon/Engine/Overflow.antt =====
-- Where the run of packages/reconciliation/ledgergraph_reconciliation/engine.py raises: a settlement
-- that R2 does not link is looked up in a window, which can leave the range of dates.
use ai_finance_controller.Common.{
  inl, inr, suc, ◌+◌, ◌≤◌, ◌≡◌, refl, Bool, false, not, ◌&&◌, ◌||◌, List, [], ◌∷◌, arith,
  if◌then◌else◌, is_some, All, All-In, In, In-filter,
}
use ai_finance_controller.Common.Int.{pos}
use ai_finance_controller.Common.Text.{Text, codes}
use ai_finance_controller.Common.Result.{Result, ok, err}
use ai_finance_controller.Double.{Double}
use ai_finance_controller.Domain.Enums.{EntityType, same_entity}
use ai_finance_controller.Domain.Canonical.{CanonicalTransaction}
use ai_finance_controller.Recon.Models.{RunResult}
use ai_finance_controller.Recon.Index.{
  TransactionIndex, build, of_type, collecting, amounts_around, is_plausible,
}
use ai_finance_controller.Recon.Index.Lookups.{build_lookups}
use ai_finance_controller.Recon.Index.Overflow.{max_ordinal, candidates_overflow, scan-fits}
use ai_finance_controller.Recon.Policy.{Policy}
use ai_finance_controller.Recon.Rules.{PaymentMap, match_r1_payment_to_line, match_r2_batch_to_bank}
use ai_finance_controller.Recon.Settlement.{RunState, settle_batch}
use ai_finance_controller.Recon.Engine.{initial_state, execute}

module _ {W : Type 0} ⦃d : Double W⦄ where
  -- R6 is reached where R2 finds nothing.
  unfoldable pub find_bank_overflows : CanonicalTransaction → TransactionIndex → Policy W → Bool
  find_bank_overflows batch ix policy =
      not (is_some (match_r2_batch_to_bank {W = W} batch ix).0)
      && candidates_overflow ix batch (EntityType.bank_transaction ∷ [])
          policy.settlement_window_days (pos 0) false

  unfoldable pub batches_overflow :
      PaymentMap → Policy W → RunState W → List CanonicalTransaction → Bool
  batches_overflow linked policy s [] = false
  batches_overflow linked policy s (batch ∷ rest) =
      find_bank_overflows batch s.index policy
      || batches_overflow linked policy (settle_batch linked policy s batch) rest

  unfoldable pub run_overflows : Policy W → List CanonicalTransaction → Bool
  run_overflows policy transactions =
      batches_overflow (match_r1_payment_to_line (build transactions)) policy
        (initial_state transactions)
        (of_type (build transactions) (EntityType.settlement_batch ∷ []))

  -- What `execute` returns, or the text of what it raises.
  unfoldable pub run_engine :
      List CanonicalTransaction
      → (run_id : Text) → Policy W
      → (ruleset_version : Text) → Result Text (RunResult W)
  run_engine transactions run_id policy ruleset_version =
      if run_overflows policy transactions
      then err (codes "OverflowError: date value out of range")
      else ok (execute transactions run_id policy ruleset_version)

module _ {W : Type 0} ⦃d : Double W⦄ (policy : Policy W) where
  find_bank-fits :
      (batch : CanonicalTransaction) (ix : TransactionIndex)
      → batch.business_date + policy.settlement_window_days ≤ max_ordinal
      → find_bank_overflows batch ix policy ≡ false
  unfolding find_bank_overflows candidates_overflow
  find_bank-fits batch ix h = ground (
    arith,
    scan-fits ix (is_plausible ix batch (EntityType.bank_transaction ∷ []) false)
        (amounts_around batch.net_amount_minor (pos 0)) batch.business_date
        (suc policy.settlement_window_days) (collecting []) (omega arith),
  )

  batches-fit :
      (linked : PaymentMap) (s : RunState W) (batches : List CanonicalTransaction)
      → ((b : CanonicalTransaction)
          → In b batches
          → b.business_date + policy.settlement_window_days ≤ max_ordinal)
      → batches_overflow linked policy s batches ≡ false
  unfolding batches_overflow
  batches-fit linked s [] h = refl
  batches-fit linked s (batch ∷ rest) h =
      rw
        (
          find_bank-fits batch s.index (h batch (inl refl)),
          batches-fit linked (settle_batch linked policy s batch) rest (λ b i. h b (inr i)),
        )
        refl

  -- Where no settlement window of a record ends behind 9999-12-31, the engine raises nothing and
  -- returns what `execute` computes.
  pub run_engine-returns :
      (transactions : List CanonicalTransaction) (run_id ruleset_version : Text)
      → All (λ t. t.business_date + policy.settlement_window_days ≤ max_ordinal) transactions
      → run_engine transactions run_id policy ruleset_version
        ≡ ok (execute transactions run_id policy ruleset_version)
  unfolding run_engine run_overflows
  run_engine-returns transactions run_id ruleset_version h =
      let listed =
        (build_lookups transactions (0 ∷ []) EntityType.settlement_batch (pos 0) 0 refl).2 in
      rw
        (batches-fit (match_r1_payment_to_line (build transactions)) (initial_state transactions)
          (of_type (build transactions) (EntityType.settlement_batch ∷ []))
          (λ b i.
            All-In (λ t. t.business_date + policy.settlement_window_days ≤ max_ordinal) b
              transactions h
              (In-filter b (λ t. same_entity t.entity_type EntityType.settlement_batch) transactions
                (rw listed at i)).0))
        refl
