-- ===== src/Recon/Models.antt =====
-- The result shapes of packages/reconciliation/ledgergraph_reconciliation/models.py. Sentences for
-- the reader (statements, labels, recommendations, explanations) are left out; the values that
-- they print are kept as data, before they are turned into text.
use Prim.Native.String.{String}
use ai_finance_controller.Common.{ℕ, Bool, Option, List, [], ◌∷◌, map, if◌then◌else◌, any, filter}
use ai_finance_controller.Common.Int.{ℤ, pos, ◌-ℤ◌, ◌==ℤ◌, abs, ltb_ℤ, leb_ℤ}
use ai_finance_controller.Common.Text.{Text, codes}
use ai_finance_controller.Domain.Enums.{
  ExceptionType, ExceptionSeverity, GroupStatus, GroupType, LinkRole, RuleTier, TxnStatus,
  is_auto_resolved, is_pending_review,
}
use ai_finance_controller.Domain.Canonical.{CanonicalTransaction}

pub data RuleCode : Type 0 where
  r1 r2 r3 r4 r5 r6 dup : RuleCode

pub data EvidenceType : Type 0 where
  exact_parent exact_reference amount_identity fee_identity fee_schedule : EvidenceType
  amount_and_window candidate exact_order_and_amount ledger_present double_entry : EvidenceType
  content_hash missing_source_data status_agreement date_window settlement_window : EvidenceType

-- A value that a rule compared, before it is printed.
pub data Operand (W : Type 0) : Type 0 where
  amount : ℤ → Operand W
  count : ℕ → Operand W
  day : ℕ → Operand W
  text : Text → Operand W
  score : W → Operand W
  status : TxnStatus → Operand W
  absent : Operand W

pub record Evidence (W : Type 0) : Type 0 where
  pub rule_code : RuleCode
  pub evidence_type : EvidenceType
  pub computed : List (String × Operand W)
  pub passed : Bool

-- What a component's label says, with the number of records that it counts.
pub data ComponentLabel : Type 0 where
  gross_captured refunds_of debits_of credits_of : ℕ → ComponentLabel
  gateway_fee gst_on_fee : ComponentLabel

pub data Operation : Type 0 where
  base subtract add : Operation

pub record BridgeComponent : Type 0 where
  pub label : ComponentLabel
  pub amount_minor : ℤ
  pub operation : Operation
  pub source_ref : Option Text

pub record Bridge : Type 0 where
  pub currency : Text
  pub components : List BridgeComponent
  pub expected_net_minor : ℤ
  pub observed_net_minor : ℤ
  pub tolerance_minor : ℤ

unfoldable pub difference_minor : Bridge → ℤ
difference_minor b = b.observed_net_minor -ℤ b.expected_net_minor

unfoldable pub balances : Bridge → Bool
balances b = leb_ℤ (pos (abs (difference_minor b))) b.tolerance_minor

unfoldable pub balances_exactly : Bridge → Bool
balances_exactly b = difference_minor b ==ℤ pos 0

unfoldable pub tolerance_consumed_minor : Bridge → ℤ
tolerance_consumed_minor b = if balances b then pos (abs (difference_minor b)) else pos 0

pub record Link : Type 0 where
  pub transaction : CanonicalTransaction
  pub role : LinkRole
  pub matched_amount_minor : ℤ

pub data GateKey : Type 0 where
  confidence tier amount type margin quality : GateKey

-- The value that a condition was evaluated against.
pub data GateDetail (W : Type 0) : Type 0 where
  value : W → GateDetail W
  matched : RuleTier → RuleCode → GateDetail W
  exposure : ℤ → GateDetail W
  blocked case : ExceptionType → GateDetail W
  dispute_involved no_exception_type no_competing_candidate clean : GateDetail W
  flags : List Text → GateDetail W

pub record GateCondition (W : Type 0) : Type 0 where
  pub key : GateKey
  pub passed : Bool
  pub detail : GateDetail W

pub record MatchGroup (W : Type 0) : Type 0 where
  pub group_id : Text
  pub group_type : GroupType
  pub matched_by_rule : RuleCode
  pub tier : RuleTier
  pub links : List Link
  pub evidence : List (Evidence W)
  pub bridge : Option Bridge
  pub confidence : W
  pub confidence_components : List (String × W)
  pub gate : List (GateCondition W)
  pub status : GroupStatus

-- `max(amounts, default=0)`: the first amount, and the larger of it and each later one.
abbrev pub max_from : ℤ → List ℤ → ℤ
max_from best [] = best
max_from best (x ∷ xs) = max_from (if ltb_ℤ best x then x else best) xs

abbrev pub max_or_zero : List ℤ → ℤ
max_or_zero [] = pos 0
max_or_zero (x ∷ xs) = max_from x xs

abbrev first_currency : List Link → Text
first_currency [] = codes "INR"
first_currency (l ∷ ls) = l.transaction.currency

-- The sentence that a case opens with, by the situation that it describes.
pub data Hypothesis : Type 0 where
  nothing_found ambiguous unconfirmed : Hypothesis
  components_differ journal_differs : ℕ → Hypothesis
  revenue_net_of_tax not_settled off_schedule captured_but_unpaid : Hypothesis
  missing_parent : Hypothesis
  represented_row : ℕ → Hypothesis
  posted_outside_window settled_late : ℤ → Hypothesis

module _ {W : Type 0} where
  unfoldable pub total_amount_minor : MatchGroup W → ℤ
  total_amount_minor g = max_or_zero (map (λ l. l.matched_amount_minor) g.links)

  unfoldable pub group_currency : MatchGroup W → Text
  group_currency g = first_currency g.links

  unfoldable pub role_of : (LinkRole → Bool) → MatchGroup W → List CanonicalTransaction
  role_of is_role g = map (λ l. l.transaction) (filter (λ l. is_role l.role) g.links)

  unfoldable pub has_passing_evidence : MatchGroup W → Bool
  has_passing_evidence g = any (λ e. e.passed) g.evidence

-- `gate_failed` is the sentence that lists the conditions that did not pass.
pub data CaseText (W : Type 0) : Type 0 where
  hypothesis : Hypothesis → CaseText W
  gate_failed : RuleCode → List (GateCondition W) → CaseText W

pub record ExceptionCase (W : Type 0) : Type 0 where
  pub case_id : Text
  pub case_type : ExceptionType
  pub severity : ExceptionSeverity
  pub amount_at_risk_minor : ℤ
  pub currency : Text
  pub primary_transaction : Option CanonicalTransaction
  pub transactions : List CanonicalTransaction
  pub group : Option (MatchGroup W)
  pub case_text : CaseText W
  pub confidence : Option W
  pub evidence : List (Evidence W)

pub record RunResult (W : Type 0) : Type 0 where
  pub run_id : Text
  pub ruleset_version : Text
  pub groups : List (MatchGroup W)
  pub cases : List (ExceptionCase W)
  pub records_processed : ℕ

module _ {W : Type 0} where
  unfoldable pub auto_resolved : RunResult W → List (MatchGroup W)
  auto_resolved r = filter (λ g. is_auto_resolved g.status) r.groups

  unfoldable pub pending_review : RunResult W → List (MatchGroup W)
  pending_review r = filter (λ g. is_pending_review g.status) r.groups
