-- ===== src/Backend/Decision/Kept.antt =====
-- What a decision writes, and that no later request for a decision changes it.
use ai_finance_controller.Common.{
  ℕ, ◌≡◌, refl, sym, ◌∙◌, inl, inr, Bool, ◌&&◌, none, some, List, [], ◌∷◌, ◌++◌, if◌then◌else◌,
}
use ai_finance_controller.Common.Text.{Text, text_eq}
use ai_finance_controller.Common.Keys.{text_cases}
use ai_finance_controller.Common.Result.{is_ok}
use ai_finance_controller.Double.{Double}
use ai_finance_controller.Backend.Store.{User, audit_for, add_audit}
use ai_finance_controller.Backend.Books.{
  CaseDecision, Repository, get_decision, record_decision, audited,
}
use ai_finance_controller.Backend.Decision.{DecisionRequest, new_decision, decision_event, decide}
use ai_finance_controller.Backend.Decision.Recorded.{Leaves, decide-Leaves, recorded_at, audited_at}

-- A request, with the instant and the event's id.
pub record Posted : Type 0 where
  pub now : ℕ
  pub event_id : Text
  pub case_id : Text
  pub body : DecisionRequest
  pub decider : User

-- Everything but the decisions and the audit trail.
abbrev pub IsSameElsewhere : {W : Type 0} → (s r : Repository W) → Type 0
IsSameElsewhere s r =
    (r.imports ≡ s.imports)
    × (r.transactions ≡ s.transactions)
    × (r.runs ≡ s.runs)
    × (r.cases ≡ s.cases)
    × (r.groups ≡ s.groups)
    × (r.accounts.users ≡ s.accounts.users)
    × (r.accounts.refresh_tokens ≡ s.accounts.refresh_tokens)

module _ {W : Type 0} ⦃d : Double W⦄ (now : ℕ) (event_id ruleset_version : Text) where
  Leaves-writes :
      (case_id j : Text) (body : DecisionRequest) (u : User) (s r : Repository W) (accepted : Bool)
      → Leaves now event_id ruleset_version case_id body u s r accepted
      → (get_decision j r ≡ (
          if accepted && text_eq case_id j
          then some (new_decision case_id body u now)
          else get_decision j s))
        × (audit_for j r.accounts ≡ (
            if accepted && text_eq case_id j
            then audit_for j s.accounts
              ++ decision_event event_id case_id ruleset_version body u now ∷ []
            else audit_for j s.accounts))
        × IsSameElsewhere s r
  unfolding new_decision decision_event audited record_decision add_audit
  Leaves-writes case_id j body u s r accepted (inl (a, e)) =
      rw (a, e) (refl, refl, (refl, refl, refl, refl, refl, refl, refl))
  Leaves-writes case_id j body u s r accepted (inr (a, _, e)) =
      rw (a, e)
        (
          recorded_at now event_id ruleset_version (new_decision case_id body u now) _ j s,
          audited_at now event_id ruleset_version (new_decision case_id body u now)
              (decision_event event_id case_id ruleset_version body u now) j s,
          (refl, refl, refl, refl, refl, refl, refl),
        )

  -- A decision that is accepted is stored at its case with one event behind the earlier ones; every
  -- other decision and trail stays as it was, and a refused request changes none. The imports, the
  -- transactions, the runs, the cases, the groups, the users and the refresh tokens stay as they are.
  pub decide-writes :
      (case_id j : Text) (body : DecisionRequest) (u : User) (s : Repository W)
      → (get_decision j (decide now event_id ruleset_version case_id body u s).repository ≡ (
          if is_ok (decide now event_id ruleset_version case_id body u s).result
            && text_eq case_id j
          then some (new_decision case_id body u now)
          else get_decision j s))
        × (audit_for j (decide now event_id ruleset_version case_id body u s).repository.accounts
            ≡ (if is_ok (decide now event_id ruleset_version case_id body u s).result
                  && text_eq case_id j
                then audit_for j s.accounts
                  ++ decision_event event_id case_id ruleset_version body u now ∷ []
                else audit_for j s.accounts))
        × IsSameElsewhere s (decide now event_id ruleset_version case_id body u s).repository
  decide-writes case_id j body u s =
      Leaves-writes case_id j body u s _ _
        (decide-Leaves now event_id ruleset_version case_id body u s)

-- The requests for decisions, in their order.
unfoldable pub decide_all :
    {W : Type 0} ⦃d : Double W⦄
    → (ruleset_version : Text) → List Posted
    → Repository W
    → Repository W
decide_all ruleset_version [] s = s
decide_all ruleset_version (p ∷ ps) s =
    decide_all ruleset_version ps
      (decide p.now p.event_id ruleset_version p.case_id p.body p.decider s).repository

module _ {W : Type 0} ⦃d : Double W⦄ (ruleset_version : Text) (k : Text) (x : CaseDecision) where
  Leaves-keeps :
      (p : Posted) (s r : Repository W) (accepted : Bool)
      → Leaves p.now p.event_id ruleset_version p.case_id p.body p.decider s r accepted
      → get_decision k s ≡ some x
      → (get_decision k r ≡ some x) × (audit_for k r.accounts ≡ audit_for k s.accounts)
  unfolding new_decision decision_event
  Leaves-keeps p s r accepted (inl (_, e)) h = rw e (h, refl)
  Leaves-keeps p s r accepted (inr (a, n, e)) h = elim (text_cases p.case_id k) [
    | inl q ↦ let clash : none ≡ some x = sym n ∙ rw q h in cc
    | inr q ↦
        let (writes, trail, _) =
          Leaves-writes p.now p.event_id ruleset_version p.case_id k p.body p.decider s r accepted
            (inr (a, n, e)) in
        (writes ∙ rw (a, q) h, trail ∙ rw (a, q) refl)
  ]

  -- Once a case is decided, no sequence of decision requests, on this case or on others,
  -- changes its decision or its audit trail.
  pub decide_all-keeps :
      (ps : List Posted) (s : Repository W)
      → get_decision k s ≡ some x
      → (get_decision k (decide_all ruleset_version ps s) ≡ some x)
        × (audit_for k (decide_all ruleset_version ps s).accounts ≡ audit_for k s.accounts)
  unfolding decide_all
  decide_all-keeps [] s h = (h, refl)
  decide_all-keeps (p ∷ ps) s h =
      let (kept, trail) =
        Leaves-keeps p s _ _
          (decide-Leaves p.now p.event_id ruleset_version p.case_id p.body p.decider s) h in
      let (last, whole) = decide_all-keeps ps _ kept in (last, whole ∙ trail)
