-- ===== src/Recon/Scoring/Caps.antt =====
-- The caps on the confidence of a group, and the margin between candidates.
use Prim.Native.String.{String}
use mathlib.Core.Path.{subst}
use mathlib.Core.Bool.{false≢true}
use mathlib.Core.Option.{some-injective}
use mathlib.Core.List.{Perm}
use ai_finance_controller.Common.{
  ℕ, ◌<◌, ◌≡◌, ◌⊎◌, ◌∙◌, sym, ap, true, false, Option, none, some, List, [], ◌∷◌, arith, All, In,
  In-append_left, In-append_right, inl, inr, refl, ◌↔◌, is_empty, Bool-cases, length,
}
use ai_finance_controller.Common.Sort.{sort, sort-perm, IsSorted, length-sort, sort-IsSorted}
use ai_finance_controller.Double.{Double, IsOrdered, max, min}
use ai_finance_controller.Domain.Enums.{RuleTier, deterministic, scored, is_deterministic}
use ai_finance_controller.Recon.Models.{r6, Bridge, MatchGroup}
use ai_finance_controller.Recon.Policy.{distinct_flags}
use ai_finance_controller.Recon.Scoring.{
  rule_strength, is_unbalanced, is_near_tie, bridge_cap, margin_cap, quality_cap, tier_cap, caps_of,
  apply_caps, score_group, margin_between, higher_first, gap,
}

tier-cases : (t : RuleTier) → (t ≡ deterministic) ⊎ (t ≡ scored)
tier-cases deterministic = inl refl
tier-cases scored = inr refl

module _ {W : Type 0} ⦃d : Double W⦄ (o : IsOrdered d) where
  le_refl : (x : W) → d.le x x ≡ true
  le_refl x = elim (Bool-cases (d.le x x)) [ inl e ↦ e | inr e ↦ o.le_total x x e ]

  -- A capped score is at most the score, and at most each cap.
  apply_caps-le :
      (final : W) (caps : List (String × W)) → d.le (apply_caps final caps).0 final ≡ true
  unfolding apply_caps
  apply_caps-le final [] = le_refl final
  apply_caps-le final ((name, c) ∷ caps) = elim (Bool-cases (d.le final c)) [
    | inl e ↦ rw e (apply_caps-le final caps)
    | inr e ↦ rw e (o.le_trans _ _ _ (apply_caps-le c caps) (o.le_total final c e))
  ]

  apply_caps-le-cap :
      (final : W) (caps : List (String × W)) (p : String × W)
      → In p caps
      → d.le (apply_caps final caps).0 p.1 ≡ true
  unfolding apply_caps
  apply_caps-le-cap final [] p h = absurd h
  apply_caps-le-cap final ((name, c) ∷ caps) p (inl e) = rw e (elim (Bool-cases (d.le final c)) [
    | inl l ↦ rw l (o.le_trans _ _ _ (apply_caps-le final caps) l)
    | inr l ↦ rw l (apply_caps-le c caps)
  ])
  apply_caps-le-cap final ((name, c) ∷ caps) p (inr h) = elim (Bool-cases (d.le final c)) [
    | inl l ↦ rw l (apply_caps-le-cap final caps p h)
    | inr l ↦ rw l (apply_caps-le-cap c caps p h)
  ]

  max-le : (x y z : W) → d.le x z ≡ true → d.le y z ≡ true → d.le (max x y) z ≡ true
  max-le x y z h k = ground arith

  min-le : (x y : W) → (d.le (min x y) x ≡ true) × (d.le (min x y) y ≡ true)
  min-le x y = ground (arith, le_refl x, le_refl y, o.le_total x y)

  le-min : (x y z : W) → d.le z x ≡ true → d.le z y ≡ true → d.le z (min x y) ≡ true
  le-min x y z h k = ground arith

  le-max : (x y : W) → d.le x (max x y) ≡ true
  le-max x y = ground (arith, le_refl x, o.le_total y x)

  abbrev clamped : W → W
  clamped x = min (d.literal 10_000) (max (d.literal 0) x)

  -- Clamping and rounding keep a bound that is a literal.
  clamp-le :
      (x : W) (n : ℕ)
      → d.le x (d.literal n) ≡ true
      → d.le (d.round4 (clamped x)) (d.literal n) ≡ true
  clamp-le x n h =
      let below =
        o.le_trans (clamped x) _ _ (min-le _ _).1
          (max-le (d.literal 0) x (d.literal n) (o.literal_le 0 n (omega arith)) h) in
      rw (o.round4_literal n) at (o.round4_mono (clamped x) (d.literal n) below)

  clamp_range :
      (x : W)
      → (d.le (d.literal 0) (d.round4 (clamped x)) ≡ true)
        × (d.le (d.round4 (clamped x)) (d.literal 10_000) ≡ true)
  clamp_range x = (
    rw (o.round4_literal 0) at (
        o.round4_mono (d.literal 0) (clamped x)
          (le-min _ _ _ (o.literal_le 0 10_000 (omega arith)) (le-max _ _))),
    rw (o.round4_literal 10_000) at (o.round4_mono (clamped x) (d.literal 10_000) (min-le _ _).0),
  )

  module _ (g : MatchGroup W) (bridge : Option Bridge) (margin : Option W)
      (candidate_margin : W) where
    abbrev confidence_of : W
    confidence_of = (score_group g bridge margin candidate_margin).0

    capped_by :
        (name : String) (n : ℕ)
        → In (name, d.literal n) (caps_of g bridge margin candidate_margin)
        → d.le confidence_of (d.literal n) ≡ true
    unfolding score_group
    capped_by name n h =
        clamp-le _ n
          (apply_caps-le-cap _ (caps_of g bridge margin candidate_margin) (name, d.literal n) h)

    at_bridge :
        is_unbalanced bridge ≡ true
        → In ("cap_bridge_unbalanced", d.literal 6000) (bridge_cap bridge)
    at_bridge h = rw h (inl refl)

    at_margin :
        is_near_tie margin candidate_margin ≡ true
        → In ("cap_competing_candidate", d.literal 7000) (margin_cap margin candidate_margin)
    at_margin h = rw h (inl refl)

    at_quality :
        is_empty (distinct_flags g.links) ≡ false
        → In ("cap_data_quality_flag", d.literal 7500) (quality_cap g)
    at_quality h = rw h (inl refl)

    at_tier :
        g.tier ≡ scored
        → In ("cap_scored_tier", d.literal (rule_strength g.matched_by_rule 8500)) (tier_cap g)
    at_tier h = rw (ap is_deterministic h) (inl refl)

    caps_lem :
        (d.le (d.literal 0) confidence_of ≡ true)
        × (d.le confidence_of (d.literal 10_000) ≡ true)
        × (is_unbalanced bridge ≡ true → d.le confidence_of (d.literal 6000) ≡ true)
        × (is_near_tie margin candidate_margin ≡ true → d.le confidence_of (d.literal 7000) ≡ true)
        × (is_empty (distinct_flags g.links) ≡ false → d.le confidence_of (d.literal 7500) ≡ true)
        × (g.tier ≡ scored
            → d.le confidence_of (d.literal (rule_strength g.matched_by_rule 8500)) ≡ true)
    unfolding caps_of score_group
    caps_lem = (
      (clamp_range _).0,
      (clamp_range _).1,
      (λ h.
          capped_by "cap_bridge_unbalanced" 6000
            (In-append_left _ (bridge_cap bridge) _ (at_bridge h))),
      (λ h. capped_by "cap_competing_candidate" 7000 (
          In-append_right _ (bridge_cap bridge) _
            (In-append_left _ (margin_cap margin candidate_margin) _ (at_margin h)))),
      (λ h. capped_by "cap_data_quality_flag" 7500 (
          In-append_right _ (bridge_cap bridge) _ (
            In-append_right _ (margin_cap margin candidate_margin) _
              (In-append_left _ (quality_cap g) _ (at_quality h))))),
      (λ h. capped_by "cap_scored_tier" (rule_strength g.matched_by_rule 8500) (
          In-append_right _ (bridge_cap bridge) _ (
            In-append_right _ (margin_cap margin candidate_margin) _
              (In-append_right _ (quality_cap g) _ (at_tier h))))),
    )

    below_floor :
        (n : ℕ)
        → n < 9500
        → d.le confidence_of (d.literal n) ≡ true
        → d.le (d.literal 9500) confidence_of ≡ false
    below_floor n h k = elim (Bool-cases (d.le (d.literal 9500) confidence_of)) [
      | inl e ↦ absurd (false≢true (sym (o.literal_lt n 9500 h) ∙ o.le_trans _ _ _ e k))
      | inr e ↦ e
    ]

    -- The confidence lies between 0 and 1. It is at most 0.60 where the bridge does not balance, at
    -- most 0.70 where the margin to the runner-up is within the policy's, at most 0.75 where a member
    -- carries a data-quality flag, and at most the rule's own strength where the match is scored,
    -- whatever the other components are.
    pub score_group-caps :
        (d.le (d.literal 0) confidence_of ≡ true)
        × (d.le confidence_of (d.literal 10_000) ≡ true)
        × ((is_unbalanced bridge ≡ false) ⊎ (d.le confidence_of (d.literal 6000) ≡ true))
        × ((is_near_tie margin candidate_margin ≡ false)
            ⊎ (d.le confidence_of (d.literal 7000) ≡ true))
        × ((is_empty (distinct_flags g.links) ≡ true)
            ⊎ (d.le confidence_of (d.literal 7500) ≡ true))
        × ((g.tier ≡ deterministic)
            ⊎ (d.le confidence_of (d.literal (rule_strength g.matched_by_rule 8500)) ≡ true))
    score_group-caps =
        let (low, high, bridge_test, margin_test, flag_test, tier_test) = caps_lem in
        (
          low,
          high,
          elim (Bool-cases (is_unbalanced bridge)) [ inl e ↦ inr (bridge_test e) | inr e ↦ inl e ],
          elim (Bool-cases (is_near_tie margin candidate_margin)) [
            | inl e ↦ inr (margin_test e)
            | inr e ↦ inl e
          ],
          elim (Bool-cases (is_empty (distinct_flags g.links))) [
            | inl e ↦ inl e
            | inr e ↦ inr (flag_test e)
          ],
          elim (tier-cases g.tier) [ inl e ↦ inl e | inr e ↦ inr (tier_test e) ],
        )

    -- A veto holds: where the bridge does not balance, a competitor is within the margin, a member is
    -- flagged, or the match is by the scored rule R6, the confidence stays below the default floor of
    -- 0.95, and the gate's first condition fails.
    pub score_group_vetoed :
        (is_unbalanced bridge ≡ true)
          ⊎ (is_near_tie margin candidate_margin ≡ true)
          ⊎ (is_empty (distinct_flags g.links) ≡ false)
          ⊎ ((g.tier ≡ scored) × (g.matched_by_rule ≡ r6))
        → d.le (d.literal 9500) confidence_of ≡ false
    unfolding rule_strength
    score_group_vetoed (inl h) = below_floor 6000 (omega arith) (caps_lem.2 h)
    score_group_vetoed (inr (inl h)) = below_floor 7000 (omega arith) (caps_lem.3 h)
    score_group_vetoed (inr (inr (inl h))) = below_floor 7500 (omega arith) (caps_lem.4 h)
    score_group_vetoed (inr (inr (inr (t, r)))) =
        below_floor 8500 (omega arith) (
          subst (λ c. d.le confidence_of (d.literal (rule_strength c 8500)) ≡ true) r
            (caps_lem.5 t))

  -- The margin is asked of two candidates at least. It is the rounded gap between the two highest
  -- scores: the scores are a permutation of these two and others that are no higher.
  pub margin_between_lem :
      (scores : List W) {margin : W}
      → margin_between scores ≡ some margin
      → (best second : W) × (rest : List W) × Perm (best ∷ second ∷ rest) scores
        × (d.le second best ≡ true)
        × All (λ s. d.le s second ≡ true) rest
        × (d.round4 (d.sub best second) ≡ margin)
  unfolding margin_between
  margin_between_lem scores {margin} h =
      two (sort higher_first scores) (sort-perm higher_first scores)
        (sort-IsSorted higher_first (λ x y k. o.le_total y x k) (λ x y z k l. o.le_trans z y x l k)
          scores)
        h
    where
      two :
          (xs : List W)
          → Perm xs scores
          → IsSorted higher_first xs
          → gap xs ≡ some margin
          → (best second : W) × (rest : List W) × Perm (best ∷ second ∷ rest) scores
            × (d.le second best ≡ true)
            × All (λ s. d.le s second ≡ true) rest
            × (d.round4 (d.sub best second) ≡ margin)
      two [] p s e = cc
      two (x ∷ []) p s e = cc
      two (x ∷ y ∷ rest) p s e = (x, y, rest, p, s.0.0, s.1.0, some-injective _ _ e)

  gap-none : (xs : List W) → gap xs ≡ none ↔ length xs < 2
  gap-none [] = ((λ _. omega arith), (λ _. refl))
  gap-none (x ∷ []) = ((λ _. omega arith), (λ _. refl))
  gap-none (x ∷ y ∷ rest) = ((λ h. cc), (λ h. absurd (omega arith)))

  -- There is no margin exactly where there are fewer than two candidates.
  pub margin_between-none : (scores : List W) → margin_between scores ≡ none ↔ length scores < 2
  unfolding margin_between
  margin_between-none scores =
      rw (← length-sort higher_first scores) (gap-none (sort higher_first scores))
