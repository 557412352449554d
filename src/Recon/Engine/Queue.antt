-- ===== src/Recon/Engine/Queue.antt =====
-- The analyst's queue of packages/reconciliation/ledgergraph_reconciliation/engine.py: what is in it
-- and in which order.
use mathlib.Core.Path.{subst}
use mathlib.Core.List.{Perm}
use ai_finance_controller.Common.{
  ◌⊎◌, All, ◌≡◌, refl, true, false, List, [], ◌∷◌, arith, any, In, In-map, In-filter,
  In-filter_intro, In-append, In-append_left, In-append_right, Bool-cases, inl, inr,
}
use ai_finance_controller.Common.Int.{◌<ℤ◌, ltb_ℤ, ==ℤ_iff}
use ai_finance_controller.Common.Text.{Text, text_eq, text_leb, text_leb_total, text_leb_trans}
use ai_finance_controller.Common.Keys.{In-any}
use ai_finance_controller.Common.Sort.{IsSorted, sort-perm, sort-IsSorted, In-sort}
use ai_finance_controller.Double.{Double}
use ai_finance_controller.Domain.Enums.{is_pending_review}
use ai_finance_controller.Domain.Canonical.{CanonicalTransaction}
use ai_finance_controller.Recon.Models.{MatchGroup, ExceptionCase, pending_review}
use ai_finance_controller.Recon.Policy.{Policy}
use ai_finance_controller.Recon.Settlement.{RunState, reconcile_settlements}
use ai_finance_controller.Recon.Engine.{
  queued_by, queued_ids, is_lost, review_case, ensure_every_review_is_queued, riskier_first,
  reconcile_invoices, detect_standalone, initial_state, run_stages, execute,
}

module _ {W : Type 0} where
  -- The first case has more at risk, or as much and no later an id.
  abbrev pub IsAhead : (a b : ExceptionCase W) → Type 0
  IsAhead a b =
      (b.amount_at_risk_minor <ℤ a.amount_at_risk_minor)
      ⊎ ((a.amount_at_risk_minor ≡ b.amount_at_risk_minor) × (text_leb a.case_id b.case_id ≡ true))

  -- Each case is ahead of all that follow it.
  abbrev pub IsRanked : List (ExceptionCase W) → Type 0
  IsRanked [] = Unit
  IsRanked (c ∷ cases) = All (IsAhead c) cases × IsRanked cases

  -- The id of a case's group is queued.
  In-queued_ids :
      (case : ExceptionCase W) (id : Text) (cases : List (ExceptionCase W))
      → In case cases
      → In id (queued_by case.group)
      → In id (queued_ids cases)
  unfolding queued_ids
  In-queued_ids case id [] i h = i
  In-queued_ids case id (c ∷ cases) (inl e) h =
      In-append_left id (queued_by c.group) (queued_ids cases)
        (subst (λ x. In id (queued_by x.group)) e h)
  In-queued_ids case id (c ∷ cases) (inr i) h =
      In-append_right id (queued_by c.group) (queued_ids cases) (In-queued_ids case id cases i h)

  -- A queued id comes from a case.
  queued_ids-In :
      (id : Text) (cases : List (ExceptionCase W))
      → In id (queued_ids cases)
      → (case : ExceptionCase W) × In case cases × In id (queued_by case.group)
  unfolding queued_ids
  queued_ids-In id [] h = absurd h
  queued_ids-In id (c ∷ cases) h = elim (In-append id (queued_by c.group) (queued_ids cases) h) [
    | inl l ↦ (c, inl refl, l)
    | inr r ↦ let (case, i, k) = queued_ids-In id cases r in (case, inr i, k)
  ]

  -- What a larger list of cases queues.
  queued_ids_mono :
      (id : Text) (xs ys : List (ExceptionCase W))
      → ((c : ExceptionCase W) → In c xs → In c ys)
      → In id (queued_ids xs)
      → In id (queued_ids ys)
  queued_ids_mono id xs ys sub h =
      let (case, i, k) = queued_ids-In id xs h in In-queued_ids case id ys (sub case i) k

module _ {W : Type 0} ⦃d : Double W⦄ where
  lost :
      (ids : List Text) (g : MatchGroup W)
      → is_pending_review g.status ≡ true
      → any (text_eq g.group_id) ids ≡ false
      → is_lost ids g ≡ true
  unfolding is_lost
  lost ids g h e = rw (h, e) refl

  queued :
      (policy : Policy W) (g : MatchGroup W)
      → In g.group_id (queued_by (review_case policy g).group)
  unfolding review_case
  queued policy g = inl refl

  ensure_queues :
      (policy : Policy W) (s : RunState W) (g : MatchGroup W)
      → In g s.groups
      → is_pending_review g.status ≡ true
      → In g.group_id (queued_ids (ensure_every_review_is_queued policy s).cases)
  unfolding ensure_every_review_is_queued
  ensure_queues policy s g i h = elim (Bool-cases (any (text_eq g.group_id) (queued_ids s.cases))) [
    | inl e ↦
        queued_ids_mono g.group_id s.cases _ (λ c k. In-append_left c s.cases _ k) (In-any _ _ e)
    | inr e ↦
        In-queued_ids (review_case policy g) g.group_id _
          (In-append_right _ s.cases _ (
            In-map (review_case policy) g _
              (In-filter_intro g (is_lost (queued_ids s.cases)) s.groups i (lost _ g h e))))
          (queued policy g)
  ]

  module _ (transactions : List CanonicalTransaction) (run_id : Text) (policy : Policy W)
      (version : Text) where
    -- Every group of a run that the gate sent to review is pointed at by a case of the run's
    -- queue: a case whose group has the same id.
    pub execute-queues_every_review :
        (g : MatchGroup W)
        → In g (pending_review (execute transactions run_id policy version))
        → In g.group_id (queued_ids (execute transactions run_id policy version).cases)
    unfolding execute pending_review run_stages ensure_every_review_is_queued detect_standalone
    execute-queues_every_review g i =
        let (k, p) = In-filter g (λ x. is_pending_review x.status) _ i in
        let s =
          detect_standalone policy (
            reconcile_invoices policy
              (reconcile_settlements policy (initial_state transactions))) in
        queued_ids_mono g.group_id (ensure_every_review_is_queued policy s).cases _
          (λ c m. In-sort riskier_first c _ m) (ensure_queues policy s g k p)

    riskier_total : (x y : ExceptionCase W) → riskier_first x y ≡ false → riskier_first y x ≡ true
    unfolding riskier_first
    riskier_total x y h = ground (arith, text_leb_total x.case_id y.case_id)

    riskier_trans :
        (x y z : ExceptionCase W)
        → riskier_first x y ≡ true
        → riskier_first y z ≡ true
        → riskier_first x z ≡ true
    unfolding riskier_first
    riskier_trans x y z h k = ground (arith, text_leb_trans x.case_id y.case_id z.case_id)

    riskier_first-IsAhead : (x y : ExceptionCase W) → riskier_first x y ≡ true → IsAhead x y
    unfolding riskier_first
    riskier_first-IsAhead x y h =
        elim (Bool-cases (ltb_ℤ y.amount_at_risk_minor x.amount_at_risk_minor)) [
          | inl e ↦ inl (ground arith)
          | inr e ↦ inr (ground (arith, ==ℤ_iff x.amount_at_risk_minor y.amount_at_risk_minor))
        ]

    each-IsAhead :
        (x : ExceptionCase W) (ys : List (ExceptionCase W))
        → All (λ y. riskier_first x y ≡ true) ys
        → All (IsAhead x) ys
    each-IsAhead x [] h = tt
    each-IsAhead x (y ∷ ys) (h, k) = (riskier_first-IsAhead x y h, each-IsAhead x ys k)

    IsSorted-IsRanked : (xs : List (ExceptionCase W)) → IsSorted riskier_first xs → IsRanked xs
    IsSorted-IsRanked [] h = tt
    IsSorted-IsRanked (x ∷ xs) (h, k) = (each-IsAhead x xs h, IsSorted-IsRanked xs k)

    -- In the queue of a run each case is ahead of all that follow it: it has the larger amount at
    -- risk, or the same amount and a case id that is not later. The queue holds exactly the cases
    -- that the stages raised, none lost and none repeated.
    pub execute-sorts_cases :
        IsRanked (execute transactions run_id policy version).cases
        × Perm
            (execute transactions run_id policy version).cases
            (run_stages policy transactions).cases
    unfolding execute
    execute-sorts_cases = (
      IsSorted-IsRanked _ (
          sort-IsSorted riskier_first riskier_total riskier_trans
            (run_stages policy transactions).cases),
      sort-perm riskier_first (run_stages policy transactions).cases,
    )
