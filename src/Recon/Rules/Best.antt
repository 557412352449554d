-- ===== src/Recon/Rules/Best.antt =====
-- What the scored rule R6 of packages/reconciliation/ledgergraph_reconciliation/rules.py chooses.
use mathlib.Core.Path.{subst}
use mathlib.Core.Option.{some-injective}
use ai_finance_controller.Common.{
  ◌≡◌, refl, sym, ap, ◌∙◌, Bool, true, false, Option, none, some, List, [], ◌∷◌, arith, filter, map,
  In, All, All-take, All-In, Bool-cases, inl, inr,
}
use ai_finance_controller.Common.Int.{pos}
use ai_finance_controller.Common.Sort.{sort-All}
use ai_finance_controller.Double.{Double}
use ai_finance_controller.Domain.Enums.{EntityType}
use ai_finance_controller.Domain.Canonical.{CanonicalTransaction}
use ai_finance_controller.Recon.Index.{
  TransactionIndex, is_consumed, is_plausible, candidates, max_candidates,
}
use ai_finance_controller.Recon.Index.Candidates.{candidates_lem}
use ai_finance_controller.Recon.Policy.{Policy}
use ai_finance_controller.Recon.Rules.Scored.{
  ScoredCredit, bank_credits, score_credit, better_first, ranked, choose,
  match_r6_batch_to_bank_scored,
}

module _ {A : Type 0} where
  All-filter {κ} :
      (P : A → Type κ) (p : A → Bool) (xs : List A)
      → ((x : A) → p x ≡ true → P x)
      → All P (filter p xs)
  All-filter P p [] h = tt
  All-filter P p (x ∷ xs) h = elim (Bool-cases (p x)) [
    | inl e ↦ rw e (h x e, All-filter P p xs h)
    | inr e ↦ rw e (All-filter P p xs h)
  ]

  All-filter_keep {κ} :
      (P : A → Type κ) (p : A → Bool) (xs : List A) → All P xs → All P (filter p xs)
  All-filter_keep P p [] h = tt
  All-filter_keep P p (x ∷ xs) h = elim (Bool-cases (p x)) [
    | inl e ↦ rw e (h.0, All-filter_keep P p xs h.1)
    | inr e ↦ rw e (All-filter_keep P p xs h.1)
  ]

  All-of_In {κ} : (P : A → Type κ) (xs : List A) → ((x : A) → In x xs → P x) → All P xs
  All-of_In P [] h = tt
  All-of_In P (x ∷ xs) h = (h x (inl refl), All-of_In P xs (λ y i. h y (inr i)))

All-map {κ} :
    {A B : Type 0} (f : A → B) (P : B → Type κ) (xs : List A)
    → All (λ x. P (f x)) xs
    → All P (map f xs)
All-map f P [] h = tt
All-map f P (x ∷ xs) h = (h.0, All-map f P xs h.1)

plausible-open :
    (ix : TransactionIndex) (batch : CanonicalTransaction) (types : List EntityType)
    (c : CanonicalTransaction)
    → is_plausible ix batch types false c ≡ true
    → is_consumed ix c ≡ false
unfolding is_plausible
plausible-open ix batch types c h = ground arith

module _ {W : Type 0} ⦃d : Double W⦄ (batch : CanonicalTransaction) (ix : TransactionIndex)
    (policy : Policy W) where
  candidates-open :
      All
        (λ c. is_consumed ix c ≡ false)
        (candidates ix batch
          (EntityType.bank_transaction ∷ [])
          policy.settlement_window_days
          (pos 0)
          false)
  candidates-open =
      rw
        (candidates_lem ix batch (EntityType.bank_transaction ∷ []) policy.settlement_window_days
          (pos 0) false)
        (All-take (λ c. is_consumed ix c ≡ false) max_candidates _
          (All-filter (λ c. is_consumed ix c ≡ false) _ _
            (λ c h. plausible-open ix batch (EntityType.bank_transaction ∷ []) c h)))

  bank_credits-open : All (λ c. is_consumed ix c ≡ false) (bank_credits batch ix policy)
  unfolding bank_credits
  bank_credits-open = All-filter_keep _ _ _ candidates-open

  credit_lem : (c : CanonicalTransaction) → (score_credit batch policy c).credit ≡ c
  unfolding score_credit
  credit_lem c = refl

  abbrev pub score_of : CanonicalTransaction → W
  score_of c = (score_credit batch policy c).score

  -- No credit is in the window, or none of those in it scores higher than the one chosen.
  abbrev pub IsBestChoice : Option CanonicalTransaction → Type 0
  IsBestChoice none = bank_credits batch ix policy ≡ []
  IsBestChoice (some best) =
      In best (bank_credits batch ix policy)
      × (is_consumed ix best ≡ false)
      × All (λ c. d.le (score_of c) (score_of best) ≡ true) (bank_credits batch ix policy)

  -- A ranked credit is the score of a credit of the window.
  abbrev IsScored : ScoredCredit W → Type 0
  IsScored s =
      (c : CanonicalTransaction) × In c (bank_credits batch ix policy)
      × (s ≡ score_credit batch policy c)

  ranked-IsScored : All IsScored (ranked batch policy (bank_credits batch ix policy))
  unfolding ranked
  ranked-IsScored =
      sort-All better_first IsScored
        (map (score_credit batch policy) (bank_credits batch ix policy))
        (All-map (score_credit batch policy) IsScored (bank_credits batch ix policy)
          (All-of_In _ _ (λ c i. (c, i, refl))))

  choose-open :
      (r : List (ScoredCredit W)) (b : CanonicalTransaction)
      → All IsScored r
      → (choose batch policy r).0 ≡ some b
      → is_consumed ix b ≡ false
  unfolding choose
  choose-open [] b h e = cc
  choose-open (best ∷ rest) b ((c, i, is_c), h) e =
      let eq : c ≡ b = sym (ap (λ s. s.credit) is_c ∙ credit_lem c) ∙ some-injective _ _ e in
      subst (λ x. is_consumed ix x ≡ false) eq
        (All-In (λ x. is_consumed ix x ≡ false) c _ bank_credits-open i)

  pub match_r6_batch_to_bank_scored-open :
      (b : CanonicalTransaction)
      → (match_r6_batch_to_bank_scored batch ix policy).0 ≡ some b
      → is_consumed ix b ≡ false
  unfolding match_r6_batch_to_bank_scored
  match_r6_batch_to_bank_scored-open b e = choose-open _ b ranked-IsScored e
