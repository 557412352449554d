-- ===== src/Recon/Policy/Gate.antt =====
-- When a group is cleared without a human.
use ai_finance_controller.Common.{
  ◌≡◌, ◌↔◌, Bool, true, false, ◌&&◌, Option, none, some, List, [], ◌∷◌, ◌++◌, arith, ◌∙◌, ◌⊎◌, refl,
  sym, ap, &&_iff, ◌≢◌, All, all, is_empty, Bool-cases, inl, inr,
}
use mathlib.Core.Bool.{false≢true}
use ai_finance_controller.Common.Int.{ℤ, ◌≤ℤ◌, leb_ℤ}
use ai_finance_controller.Common.Text.{Text}
use ai_finance_controller.Double.{Double}
use ai_finance_controller.Domain.Enums.{
  EntityType, ExceptionType, auto_resolved, pending_review, RuleTier, deterministic, scored,
  same_exception, eq_of_same_exception, entity_index, eq_of_same_entity, is_deterministic,
}
use ai_finance_controller.Recon.Models.{Link, MatchGroup, has_passing_evidence}
use ai_finance_controller.Recon.Policy.{
  Policy, evaluate_gate, apply_gate, margin_ok, is_blocked, has_dispute, distinct_flags, set_from,
  all_flags, add_to_set,
}

is_empty-append : (xs ys : List Text) → is_empty (xs ++ ys) ≡ is_empty xs && is_empty ys
is_empty-append [] ys = refl
is_empty-append (x ∷ xs) ys = refl

is_empty-add_to_set : (seen : List Text) (t : Text) → is_empty (add_to_set seen t) ≡ false
unfolding add_to_set
is_empty-add_to_set [] t = refl
is_empty-add_to_set (x ∷ xs) t = ground arith

-- A set is empty only if nothing was put in.
is_empty-set_from :
    (seen ts : List Text) → is_empty (set_from seen ts) ≡ is_empty seen && is_empty ts
is_empty-set_from seen [] = ground arith
is_empty-set_from seen (t ∷ ts) =
    is_empty-set_from (add_to_set seen t) ts ∙ rw (is_empty-add_to_set seen t) (ground arith)

eq-nil_of_is_empty : (ts : List Text) → is_empty ts ≡ true → ts ≡ []
eq-nil_of_is_empty [] h = refl
eq-nil_of_is_empty (t ∷ ts) h = cc

all_flags-All :
    (links : List Link)
    → is_empty (all_flags links) ≡ true ↔ All (λ l. l.transaction.data_quality_flags ≡ []) links
all_flags-All [] = ((λ _. tt), (λ _. refl))
all_flags-All (l ∷ ls) = (
  (λ h.
      let here : (is_empty l.transaction.data_quality_flags && is_empty (all_flags ls)) ≡ true =
        sym (is_empty-append l.transaction.data_quality_flags (all_flags ls)) ∙ h in
      let (a, b) = (&&_iff _ _).0 here in (eq-nil_of_is_empty _ a, (all_flags-All ls).0 b)),
  (λ h.
      is_empty-append l.transaction.data_quality_flags (all_flags ls)
      ∙ rw (h.0, (all_flags-All ls).1 h.1)),
)

distinct_flags-All :
    (links : List Link)
    → is_empty (distinct_flags links) ≡ true
      ↔ All (λ l. l.transaction.data_quality_flags ≡ []) links
unfolding distinct_flags
distinct_flags-All links = rw (is_empty-set_from [] (all_flags links)) (all_flags-All links)

-- There is no case type, or the policy's list does not name it.
abbrev pub IsUnlisted : Option ExceptionType → List ExceptionType → Type 0
IsUnlisted none never = Unit
IsUnlisted (some t) never = All (λ u. t ≢ u) never

same_exception_refl : (t : ExceptionType) → same_exception t t ≡ true
same_exception_refl t = ground arith

is_blocked-IsUnlisted :
    (t : Option ExceptionType) (never : List ExceptionType)
    → is_blocked t never ≡ false ↔ IsUnlisted t never
unfolding is_blocked
is_blocked-IsUnlisted none never = ((λ _. tt), (λ _. refl))
is_blocked-IsUnlisted (some t) [] = ((λ _. tt), (λ _. refl))
is_blocked-IsUnlisted (some t) (u ∷ us) = (
  (λ h. (
    (λ e. ground (arith, same_exception_refl t, ap (same_exception t) e)),
    (is_blocked-IsUnlisted (some t) us).0 (ground arith),
  )),
  (λ h. ground (arith, h.0, eq_of_same_exception t u, (is_blocked-IsUnlisted (some t) us).1 h.1)),
)

has_dispute-All :
    (links : List Link)
    → has_dispute links ≡ false ↔ All (λ l. l.transaction.entity_type ≢ EntityType.dispute) links
unfolding has_dispute
has_dispute-All [] = ((λ _. tt), (λ _. refl))
has_dispute-All (l ∷ ls) = (
  (λ h. ((λ e. ground (arith, ap entity_index e)), (has_dispute-All ls).0 (ground arith))),
  (λ h. ground (
    arith,
    h.0,
    eq_of_same_entity l.transaction.entity_type EntityType.dispute,
    (has_dispute-All ls).1 h.1,
  )),
)

is_deterministic_iff : (t : RuleTier) → is_deterministic t ≡ true ↔ t ≡ deterministic
is_deterministic_iff deterministic = ((λ _. refl), (λ _. refl))
is_deterministic_iff scored = ((λ h. cc), (λ h. cc))

module _ {W : Type 0} ⦃d : Double W⦄ where
  -- The margin to the runner-up is above the policy's, or there is no runner-up.
  abbrev pub IsUnambiguous : Option W → Policy W → Type 0
  IsUnambiguous none policy = Unit
  IsUnambiguous (some margin) policy = d.le margin policy.candidate_margin ≡ false

  -- The six conditions and the evidence, on the group's own data.
  pub record IsClearable (group : MatchGroup W) (policy : Policy W)
      (case_type : Option ExceptionType) (margin : Option W) (at_risk : ℤ) : Type 0 where
    pub confident : d.le policy.auto_resolve_min_confidence group.confidence ≡ true
    pub by_rule : group.tier ≡ deterministic
    pub immaterial : at_risk ≤ℤ policy.auto_resolve_max_minor
    pub unlisted : IsUnlisted case_type policy.never_auto_resolve
    pub no_dispute : All (λ l. l.transaction.entity_type ≢ EntityType.dispute) group.links
    pub unambiguous : IsUnambiguous margin policy
    pub no_flags : All (λ l. l.transaction.data_quality_flags ≡ []) group.links
    pub evidenced : has_passing_evidence group ≡ true

  margin_ok-IsUnambiguous :
      (margin : Option W) (policy : Policy W)
      → margin_ok margin policy ≡ true ↔ IsUnambiguous margin policy
  unfolding margin_ok
  margin_ok-IsUnambiguous none policy = ((λ _. tt), (λ _. refl))
  margin_ok-IsUnambiguous (some m) policy = ground arith

  module _ (g : MatchGroup W) (policy : Policy W) (ct : Option ExceptionType) (margin : Option W)
      (at_risk : ℤ) where
    abbrev gate_passes : Bool
    gate_passes =
        all (λ c. c.passed) (evaluate_gate g policy ct margin at_risk) && has_passing_evidence g

    gate_passes-tests : gate_passes ≡ true ↔ (
        (d.le policy.auto_resolve_min_confidence g.confidence ≡ true)
        × (is_deterministic g.tier ≡ true)
        × (leb_ℤ at_risk policy.auto_resolve_max_minor ≡ true)
        × (is_blocked ct policy.never_auto_resolve ≡ false)
        × (has_dispute g.links ≡ false)
        × (margin_ok margin policy ≡ true)
        × (is_empty (distinct_flags g.links) ≡ true)
        × (has_passing_evidence g ≡ true))
    unfolding evaluate_gate
    gate_passes-tests = ground arith

    gate_passes-IsClearable : gate_passes ≡ true ↔ IsClearable g policy ct margin at_risk
    gate_passes-IsClearable = (
      (λ h.
          let (conf, tier, amount, listed, dispute, margin_test, flags, evidence) =
            gate_passes-tests.0 h in
          record {
            confident = conf;
            by_rule = (is_deterministic_iff g.tier).0 tier;
            immaterial = ground arith;
            unlisted = (is_blocked-IsUnlisted ct _).0 listed;
            no_dispute = (has_dispute-All g.links).0 dispute;
            unambiguous = (margin_ok-IsUnambiguous margin policy).0 margin_test;
            no_flags = (distinct_flags-All g.links).0 flags;
            evidenced = evidence;
          }),
      (λ c. gate_passes-tests.1 (
        c.confident,
        (is_deterministic_iff g.tier).1 c.by_rule,
        ground (arith, c.immaterial),
        (is_blocked-IsUnlisted ct _).1 c.unlisted,
        (has_dispute-All g.links).1 c.no_dispute,
        (margin_ok-IsUnambiguous margin policy).1 c.unambiguous,
        (distinct_flags-All g.links).1 c.no_flags,
        c.evidenced,
      )),
    )

    -- The gate clears a group exactly if the confidence reaches the floor, the match is by a
    -- deterministic rule, the exposure is within the limit, the case type is not on the policy's
    -- list, no member is a dispute, every competing candidate is more than the margin behind, no
    -- member carries a data-quality flag, and some evidence passed; otherwise it asks for review.
    pub apply_gate-IsClearable :
        ((apply_gate g policy ct margin at_risk).status ≡ auto_resolved
          ↔ IsClearable g policy ct margin at_risk)
        × (((apply_gate g policy ct margin at_risk).status ≡ auto_resolved)
            ⊎ ((apply_gate g policy ct margin at_risk).status ≡ pending_review))
    unfolding apply_gate
    apply_gate-IsClearable = elim (Bool-cases gate_passes) [
      | inl e ↦ rw e (((λ _. gate_passes-IsClearable.0 e), (λ _. refl)), inl refl)
      | inr e ↦
          rw e (
            ((λ h. cc), (λ c. absurd (false≢true (sym e ∙ gate_passes-IsClearable.1 c)))),
            inr refl,
          )
    ]
