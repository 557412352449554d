-- ===== src/Recon/Rules/Scored.antt =====
-- R6, the scored rule of packages/reconciliation/ledgergraph_reconciliation/rules.py. It stands on
-- the index and the scores alone, so it is a module of its own.
use Prim.Native.String
use Prim.Native.String.{String}
use ai_finance_controller.Common.{
  Bool, true, false, not, ◌&&◌, ◌||◌, Option, none, some, List, [], ◌∷◌, ◌++◌, if◌then◌else◌,
  filter, any, is_empty, map, length, ltb,
}
use ai_finance_controller.Common.Int.{pos, ◌-ℤ◌, ◌==ℤ◌, abs}
use ai_finance_controller.Common.Text.{Text, text_eq, text_leb, upper, split, or_empty}
use ai_finance_controller.Common.Sort.{sort}
use ai_finance_controller.Double.{Double, gt}
use ai_finance_controller.Domain.Enums.{EntityType, TxnStatus, settled, posted, is_debit}
use ai_finance_controller.Domain.Canonical.{CanonicalTransaction}
use ai_finance_controller.Recon.Models.{Evidence, r6, amount_and_window, candidate, Operand, absent}
use ai_finance_controller.Recon.Index.{TransactionIndex, candidates}
use ai_finance_controller.Recon.Policy.{Policy, set_from}
use ai_finance_controller.Recon.Scoring.{score_candidate, margin_between}

-- `SETTLED_STATUSES`
abbrev is_settled : TxnStatus → Bool
is_settled settled = true
is_settled posted = true
is_settled _ = false

-- The set of the words of more than two letters.
unfoldable pub tokens : Text → List Text
tokens t = set_from [] (filter (λ w. ltb 2 (length w)) (split (upper t)))

-- A credit with the score that it was given.
pub record ScoredCredit (W : Type 0) : Type 0 where
  pub score : W
  pub credit : CanonicalTransaction
  pub components : List (String × W)

-- `(chosen, margin, evidence)`
abbrev pub Choice : Type 0 → Type 0
Choice W = Option CanonicalTransaction × Option W × List (Evidence W)

module _ {W : Type 0} ⦃d : Double W⦄ where
  unfoldable pub counterparty_similarity : (a b : CanonicalTransaction) → W
  counterparty_similarity a b =
      let left = tokens (or_empty a.counterparty) in
      let right = tokens (or_empty b.counterparty ++ (32 ∷ or_empty b.description)) in
      if is_empty left || is_empty right
      then d.literal 0
      else d.div (d.of_nat (length (filter (λ w. any (text_eq w) right) left)))
          (d.of_nat (length left))

  unfoldable pub bank_credits :
      CanonicalTransaction → TransactionIndex → Policy W → List CanonicalTransaction
  bank_credits batch ix policy =
      filter (λ c. not (is_debit c.direction))
        (candidates ix batch (EntityType.bank_transaction ∷ []) policy.settlement_window_days
          (pos 0) false)

  unfoldable pub score_credit :
      CanonicalTransaction → Policy W → CanonicalTransaction → ScoredCredit W
  score_credit batch policy c =
      let (score, components) =
        score_candidate batch.reference_id c.reference_id
          (c.net_amount_minor ==ℤ batch.net_amount_minor)
          (abs (pos c.business_date -ℤ pos batch.business_date)) policy.settlement_window_days
          (is_settled c.status) (counterparty_similarity batch c) in
      record { score = score; credit = c; components = components }

  -- The key `(-score, external_id_norm)`.
  unfoldable pub better_first : ScoredCredit W → ScoredCredit W → Bool
  better_first x y =
      gt x.score y.score
      || (d.le x.score y.score
          && d.le y.score x.score
          && text_leb x.credit.external_id_norm y.credit.external_id_norm)

  unfoldable pub ranked :
      CanonicalTransaction → Policy W → List CanonicalTransaction → List (ScoredCredit W)
  ranked batch policy credits = sort better_first (map (score_credit batch policy) credits)

  abbrev keyed_scores : List (String × W) → List (String × Operand W)
  keyed_scores = map (λ p. (String.◌++◌ "score_" p.0, Operand.score p.1))

  candidate_evidence : Bool → ScoredCredit W → Evidence W
  candidate_evidence is_best s = record {
    rule_code = r6;
    evidence_type = candidate;
    computed =
        keyed_scores s.components
        ++ (("bank_txn", Operand.text s.credit.external_id)
            ∷ ("posted_on", Operand.day s.credit.business_date)
            ∷ []);
    passed = is_best;
  }

  abbrev margin_operand : Option W → Operand W
  margin_operand none = absent
  margin_operand (some m) = Operand.score m

  unfoldable pub choose : CanonicalTransaction → Policy W → List (ScoredCredit W) → Choice W
  unfolding candidate_evidence
  choose batch policy [] = (
    none,
    none,
    record {
      rule_code = r6;
      evidence_type = amount_and_window;
      computed =
          ("batch.net", Operand.amount batch.net_amount_minor)
          ∷ ("window_days", Operand.count policy.settlement_window_days)
          ∷ ("candidates", Operand.count 0)
          ∷ [];
      passed = false;
    }
        ∷ [],
  )
  choose batch policy (best ∷ rest) =
      let margin = margin_between (map (λ s. s.score) (best ∷ rest)) in
      (
        some best.credit,
        margin,
        record {
          rule_code = r6;
          evidence_type = amount_and_window;
          computed =
              ("candidates_in_window", Operand.count (length (best ∷ rest)))
              ∷ ("best_score", Operand.score best.score)
              ∷ ("margin_to_runner_up", margin_operand margin)
              ∷ ("required_margin", Operand.score policy.candidate_margin)
              ∷ [];
          passed = true;
        }
            ∷ candidate_evidence true best
            ∷ map (candidate_evidence false) rest,
      )

  unfoldable pub match_r6_batch_to_bank_scored :
      CanonicalTransaction → TransactionIndex → Policy W → Choice W
  match_r6_batch_to_bank_scored batch ix policy =
      choose batch policy (ranked batch policy (bank_credits batch ix policy))
