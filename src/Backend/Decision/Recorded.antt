-- ===== src/Backend/Decision/Recorded.antt =====
-- When a decision is recorded, and that it stays.
use ai_finance_controller.Common.{
  ℕ, ◌≡◌, ◌↔◌, refl, ◌⊎◌, inl, inr, Bool, true, false, not, ◌&&◌, Option, none, some, [], ◌∷◌, ◌++◌,
  arith, is_some, if◌then◌else◌,
}
use ai_finance_controller.Common.Text.{Text, text_eq}
use ai_finance_controller.Common.Keys.{text_key}
use ai_finance_controller.Common.Dict.{lookup-insert, get_list-push}
use ai_finance_controller.Common.Result.{is_ok}
use ai_finance_controller.Double.{Double}
use ai_finance_controller.Recon.Models.{ExceptionCase}
use ai_finance_controller.Recon.Policy.{requires_controller, default_policy}
use ai_finance_controller.Backend.Errors.{ApiError}
use ai_finance_controller.Backend.Store.{User, AuditEvent, audit_for, add_audit}
use ai_finance_controller.Backend.Books.{
  CaseDecision, Repository, get_case, record_decision, get_decision, audited,
}
use ai_finance_controller.Backend.Decision.{
  DecisionRequest, is_auto, is_override, approves_material, new_decision, decision_event, refusal,
  settle_case, settle_unless, decide_found, decide,
}

-- What `decide` asks for: a stored case without a decision, a controller or an admin for a material
-- amount, a resolution of people, and a reason for an override.
abbrev pub IsDecidable :
    (W : Type 0) ⦃d : Double W⦄ → (case_id : Text) → DecisionRequest → User → Repository W → Type 0
IsDecidable W case_id body u s =
    (case : ExceptionCase W) × (get_case case_id s ≡ some case)
    × (get_decision case_id s ≡ none)
    × ((requires_controller {W = W} case.amount_at_risk_minor default_policy
          && not (approves_material u.role))
        ≡ false)
    × (is_auto body.resolution ≡ false)
    × ((is_override body.resolution && not (is_some body.reason_code)) ≡ false)

module _ {W : Type 0} ⦃d : Double W⦄ where
  refusal-none :
      (case : ExceptionCase W) (o : Option CaseDecision) (body : DecisionRequest) (u : User)
      → refusal case o body u ≡ none
      → (o ≡ none)
        × ((requires_controller {W = W} case.amount_at_risk_minor default_policy
              && not (approves_material u.role))
            ≡ false)
        × (is_auto body.resolution ≡ false)
        × ((is_override body.resolution && not (is_some body.reason_code)) ≡ false)
  unfolding refusal
  refusal-none case (some x) body u h = cc
  refusal-none case none body u h = ground arith

  none_refused :
      (case : ExceptionCase W) (body : DecisionRequest) (u : User)
      → (requires_controller {W = W} case.amount_at_risk_minor default_policy
          && not (approves_material u.role))
        ≡ false
      → is_auto body.resolution ≡ false
      → (is_override body.resolution && not (is_some body.reason_code)) ≡ false
      → refusal case none body u ≡ none
  unfolding refusal
  none_refused case body u m a r = rw (m, a, r) refl

module _ {W : Type 0} ⦃d : Double W⦄ (now : ℕ) (event_id ruleset_version : Text) where
  settle_unless-ok :
      (o : Option ApiError) (case_id : Text) (body : DecisionRequest) (u : User) (s : Repository W)
      → (is_ok (settle_unless now event_id ruleset_version o case_id body u s).result ≡ true)
        ↔ (o ≡ none)
  unfolding settle_unless settle_case
  settle_unless-ok (some e) case_id body u s = (λ h. cc, λ h. cc)
  settle_unless-ok none case_id body u s = (λ h. refl, λ h. refl)

  decide_found-ok :
      (o : Option (ExceptionCase W)) (case_id : Text) (body : DecisionRequest) (u : User)
      (s : Repository W)
      → get_case case_id s ≡ o
      → is_ok (decide_found now event_id ruleset_version o case_id body u s).result ≡ true
      → IsDecidable W case_id body u s
  unfolding decide_found
  decide_found-ok none case_id body u s f h = cc
  decide_found-ok (some case) case_id body u s f h =
      let passed =
        (settle_unless-ok (refusal case (get_decision case_id s) body u) case_id body u s).0 h in
      let (n, m, a, r) = refusal-none case (get_decision case_id s) body u passed in
      (case, f, n, m, a, r)

  decidable-ok :
      (case_id : Text) (body : DecisionRequest) (u : User) (s : Repository W)
      → IsDecidable W case_id body u s
      → is_ok (decide now event_id ruleset_version case_id body u s).result ≡ true
  unfolding decide decide_found
  decidable-ok case_id body u s (case, f, n, m, a, r) =
      rw (f, n)
        ((settle_unless-ok (refusal case none body u) case_id body u s).1
          (none_refused case body u m a r))

  -- A decision is accepted exactly where the case is stored and undecided, a controller or an admin
  -- decides if the amount is material, the resolution is not the gate's own, and an override has a
  -- reason.
  pub decide-accepts_iff :
      (case_id : Text) (body : DecisionRequest) (u : User) (s : Repository W)
      → (is_ok (decide now event_id ruleset_version case_id body u s).result ≡ true)
        ↔ IsDecidable W case_id body u s
  unfolding decide
  decide-accepts_iff case_id body u s =
      (decide_found-ok (get_case case_id s) case_id body u s refl, decidable-ok case_id body u s)

  -- What a request leaves: the repository, or one with the decision and its event.
  abbrev pub Leaves :
      (case_id : Text) → DecisionRequest → User → (s r : Repository W) → Bool → Type 0
  Leaves case_id body u s r accepted =
      ((accepted ≡ false) × (r ≡ s))
      ⊎ ((accepted ≡ true)
          × (get_decision case_id s ≡ none)
          × (r
              ≡ audited (decision_event event_id case_id ruleset_version body u now)
                  (record_decision (new_decision case_id body u now) s)))

  settle_unless-Leaves :
      (case : ExceptionCase W) (o : Option ApiError) (case_id : Text) (body : DecisionRequest)
      (u : User) (s : Repository W)
      → refusal case (get_decision case_id s) body u ≡ o
      → Leaves case_id body u s
          (settle_unless now event_id ruleset_version o case_id body u s).repository
          (is_ok (settle_unless now event_id ruleset_version o case_id body u s).result)
  unfolding settle_unless settle_case
  settle_unless-Leaves case (some e) case_id body u s f = inl (refl, refl)
  settle_unless-Leaves case none case_id body u s f =
      inr (refl, (refusal-none case (get_decision case_id s) body u f).0, refl)

  decide_found-Leaves :
      (o : Option (ExceptionCase W)) (case_id : Text) (body : DecisionRequest) (u : User)
      (s : Repository W)
      → Leaves case_id body u s
          (decide_found now event_id ruleset_version o case_id body u s).repository
          (is_ok (decide_found now event_id ruleset_version o case_id body u s).result)
  unfolding decide_found
  decide_found-Leaves none case_id body u s = inl (refl, refl)
  decide_found-Leaves (some case) case_id body u s =
      settle_unless-Leaves case (refusal case (get_decision case_id s) body u) case_id body u s refl

  pub decide-Leaves :
      (case_id : Text) (body : DecisionRequest) (u : User) (s : Repository W)
      → Leaves case_id body u s
          (decide now event_id ruleset_version case_id body u s).repository
          (is_ok (decide now event_id ruleset_version case_id body u s).result)
  unfolding decide
  decide-Leaves case_id body u s = decide_found-Leaves (get_case case_id s) case_id body u s

  pub recorded_at :
      (x : CaseDecision) (e : AuditEvent) (j : Text) (s : Repository W)
      → get_decision j (audited e (record_decision x s))
        ≡ (if text_eq x.case_id j then some x else get_decision j s)
  unfolding get_decision record_decision audited
  recorded_at x e j s = lookup-insert x.case_id j x s.decisions

  pub audited_at :
      (x : CaseDecision) (e : AuditEvent) (j : Text) (s : Repository W)
      → audit_for j (audited e (record_decision x s)).accounts ≡ (
          if text_eq e.entity_id j
          then audit_for j s.accounts ++ e ∷ []
          else audit_for j s.accounts)
  unfolding audit_for record_decision audited add_audit
  audited_at x e j s = get_list-push e.entity_id j e s.accounts.audit
