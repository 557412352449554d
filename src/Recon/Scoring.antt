-- ===== src/Recon/Scoring.antt =====
-- Confidence and candidate scores of
-- packages/reconciliation/ledgergraph_reconciliation/scoring.py.
pub mod Caps
use Prim.Native.String.{String}
use ai_finance_controller.Common.{
  ℕ, zero, suc, ◌+◌, ◌≡◌, Bool, true, false, not, ◌&&◌, ◌||◌, Option, none, some, List, [], ◌∷◌,
  ◌++◌, map, if◌then◌else◌, is_empty, length, leb,
}
use ai_finance_controller.Common.Text.{Text, text_eq, starts_with, is_blank, or_empty}
use ai_finance_controller.Common.Sort.{sort}
use ai_finance_controller.Double.{Double, gt, max, min, sum_from}
use ai_finance_controller.Domain.Enums.{RuleTier, is_deterministic}
use ai_finance_controller.Domain.Canonical.{norm}
use ai_finance_controller.Recon.Models.{
  RuleCode, r1, r2, r3, r4, r5, r6, Bridge, balances, balances_exactly, MatchGroup,
  has_passing_evidence,
}
use ai_finance_controller.Recon.Policy.{distinct_flags}

-- `RULE_STRENGTH.get(rule, default)`, in ten-thousandths.
unfoldable pub rule_strength : RuleCode → ℕ → ℕ
rule_strength r1 default = 9900
rule_strength r2 default = 9800
rule_strength r3 default = 9800
rule_strength r4 default = 9700
rule_strength r5 default = 9500
rule_strength r6 default = 8500
rule_strength _ default = default

abbrev pub cap_bridge_unbalanced : ℕ
cap_bridge_unbalanced = 6000

abbrev pub cap_competing_candidate : ℕ
cap_competing_candidate = 7000

abbrev pub cap_data_quality_flag : ℕ
cap_data_quality_flag = 7500

-- `bridge is not None and not bridge.balances`
unfoldable pub is_unbalanced : Option Bridge → Bool
is_unbalanced none = false
is_unbalanced (some b) = not (balances b)

-- `max(window_days, 1)`
abbrev at_least_one : ℕ → ℕ
at_least_one zero = 1
at_least_one (suc n) = suc n

module _ {W : Type 0} ⦃d : Double W⦄ where
  unfoldable pub data_quality : ℕ → W
  data_quality zero = d.literal 10_000
  data_quality (suc n) =
      max (d.literal 0) (d.sub (d.literal 10_000) (d.mul (d.literal 2500) (d.of_nat (suc n))))

  unfoldable pub consistency : MatchGroup W → Option Bridge → W
  consistency group none = if has_passing_evidence group then d.literal 10_000 else d.literal 5000
  consistency group (some b) =
      if balances_exactly b
      then d.literal 10_000
      else if balances b
      then d.literal 8500
      else d.literal 0

  unfoldable pub unambiguity : Option W → (candidate_margin : W) → W
  unambiguity none candidate_margin = d.literal 10_000
  unambiguity (some margin) candidate_margin =
      min (d.literal 10_000) (d.div margin (d.mul candidate_margin (d.of_nat 2)))

  -- `margin is not None and margin <= candidate_margin`
  unfoldable pub is_near_tie : Option W → (candidate_margin : W) → Bool
  is_near_tie none candidate_margin = false
  is_near_tie (some margin) candidate_margin = d.le margin candidate_margin

  abbrev pub bridge_cap : Option Bridge → List (String × W)
  bridge_cap bridge =
      if is_unbalanced bridge
      then ("cap_bridge_unbalanced", d.literal cap_bridge_unbalanced) ∷ []
      else []

  abbrev pub margin_cap : Option W → (candidate_margin : W) → List (String × W)
  margin_cap margin candidate_margin =
      if is_near_tie margin candidate_margin
      then ("cap_competing_candidate", d.literal cap_competing_candidate) ∷ []
      else []

  abbrev pub quality_cap : MatchGroup W → List (String × W)
  quality_cap group =
      if is_empty (distinct_flags group.links)
      then []
      else ("cap_data_quality_flag", d.literal cap_data_quality_flag) ∷ []

  abbrev pub tier_cap : MatchGroup W → List (String × W)
  tier_cap group =
      if is_deterministic group.tier
      then []
      else ("cap_scored_tier", d.literal (rule_strength group.matched_by_rule 8500)) ∷ []

  -- The caps that apply, in the order in which they are appended, by their components' names.
  unfoldable pub caps_of :
      MatchGroup W → Option Bridge → Option W → (candidate_margin : W) → List (String × W)
  caps_of group bridge margin candidate_margin =
      bridge_cap bridge
      ++ (margin_cap margin candidate_margin ++ (quality_cap group ++ tier_cap group))

  -- The loop over the caps: the capped score, and a component for each cap that bit.
  unfoldable pub apply_caps : W → List (String × W) → W × List (String × W)
  apply_caps final [] = (final, [])
  apply_caps final ((name, ceiling) ∷ caps) =
      let (rest, bit) = apply_caps (if gt final ceiling then ceiling else final) caps in
      (rest, if gt final ceiling then (name, ceiling) ∷ bit else bit)

  unfoldable pub raw_score : (strength quality consistent unambiguous : W) → W
  raw_score strength quality consistent unambiguous = sum_from (d.literal 0) (
      d.mul (d.literal 5000) strength
      ∷ d.mul (d.literal 2000) quality
      ∷ d.mul (d.literal 2000) consistent
      ∷ d.mul (d.literal 1000) unambiguous
      ∷ [])

  unfoldable pub score_group :
      MatchGroup W
      → (bridge : Option Bridge) (margin_to_runner_up : Option W) (candidate_margin : W)
      → W × List (String × W)
  score_group group bridge margin candidate_margin =
      let strength = d.literal (rule_strength group.matched_by_rule 5000) in
      let quality = data_quality (length (distinct_flags group.links)) in
      let consistent = consistency group bridge in
      let unambiguous = unambiguity margin candidate_margin in
      let (final, bit) =
        apply_caps (raw_score strength quality consistent unambiguous)
          (caps_of group bridge margin candidate_margin) in
      (
        d.round4 (min (d.literal 10_000) (max (d.literal 0) final)),
        ("rule_strength", strength)
            ∷ ("data_quality", quality)
            ∷ ("consistency", consistent)
            ∷ ("unambiguity", unambiguous)
            ∷ bit,
      )

  unfoldable pub identifier_similarity : Option Text → Option Text → W
  identifier_similarity a b =
      if is_blank a || is_blank b
      then d.literal 0
      else let left = norm (or_empty a) in
        let right = norm (or_empty b) in
        if text_eq left right
        then d.literal 10_000
        else if leb 6 (length left)
            && leb 6 (length right)
            && (starts_with left right || starts_with right left)
        then d.literal 7000
        else d.literal 0

  abbrev bool_score : Bool → W
  bool_score b = if b then d.literal 10_000 else d.literal 0

  unfoldable pub score_candidate :
      (subject_identifier candidate_identifier : Option Text) (amount_equal : Bool)
      (date_distance_days window_days : ℕ) (status_compatible : Bool) (counterparty_similarity : W)
      → W × List (String × W)
  unfolding identifier_similarity
  score_candidate subject candidate amount_equal distance window compatible similarity =
      let identifier = identifier_similarity subject candidate in
      let amount = bool_score amount_equal in
      let proximity =
        max (d.literal 0)
          (d.sub (d.literal 10_000) (d.div (d.of_nat distance) (d.of_nat (at_least_one window)))) in
      let status = bool_score compatible in
      (
        d.round4 (
            d.add
              (d.add
                (d.add (d.add (d.mul (d.literal 3500) identifier) (d.mul (d.literal 2500) amount))
                  (d.mul (d.literal 1500) proximity))
                (d.mul (d.literal 1500) status))
              (d.mul (d.literal 1000) similarity)),
        ("identifier", identifier)
            ∷ ("amount", amount)
            ∷ ("date", d.round4 proximity)
            ∷ ("status", status)
            ∷ ("counterparty", d.round4 similarity)
            ∷ [],
      )

  -- `sorted(scores, reverse=True)`, which keeps equal scores in their order.
  abbrev pub higher_first : W → W → Bool
  higher_first x y = d.le y x

  abbrev gap : List W → Option W
  gap [] = none
  gap (x ∷ []) = none
  gap (x ∷ y ∷ rest) = some (d.round4 (d.sub x y))

  unfoldable pub margin_between : List W → Option W
  margin_between scores = gap (sort higher_first scores)
