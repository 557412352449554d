-- ===== src/Recon/Settlement/Consumed.antt =====
-- No bank credit settles two batches, in packages/reconciliation/ledgergraph_reconciliation/engine.py.
use mathlib.Core.Path.{subst}
use mathlib.Core.List.{map-append, append-nil, append_assoc}
use mathlib.Core.Option.{some-injective}
use ai_finance_controller.Common.{
  ◌≡◌, refl, sym, ap, ◌∙◌, Bool, true, false, Option, none, some, List, [], ◌∷◌, ◌++◌, arith,
  filter, filter-append, map, In, In-append, All, All-append, All-In, Bool-cases, inl, inr,
}
use ai_finance_controller.Common.Text.{Text}
use ai_finance_controller.Common.Keys.{any-In}
use ai_finance_controller.Double.{Double}
use ai_finance_controller.Domain.Enums.{LinkRole, is_debit, bank_credit}
use ai_finance_controller.Domain.Canonical.{CanonicalTransaction}
use ai_finance_controller.Recon.Models.{Evidence, Link, MatchGroup, role_of}
use ai_finance_controller.Recon.Index.{TransactionIndex, is_consumed, consume}
use ai_finance_controller.Recon.Policy.{Policy, apply_gate}
use ai_finance_controller.Recon.Rules.{PaymentMap, match_r2_batch_to_bank}
use ai_finance_controller.Recon.Rules.Sound.{IsExactChoice, match_r2_batch_to_bank-choice}
use ai_finance_controller.Recon.Rules.Best.{match_r6_batch_to_bank_scored-open}
use ai_finance_controller.Recon.Settlement.{
  payment_links, line_links, bank_links, entry_link, settlement_links, RunState, or_scored,
  find_bank, settlement_group, with_score, settlement_outcome, settle_batch, settle_batches,
  reconcile_settlements,
}

abbrev pub is_bank_credit : LinkRole → Bool
is_bank_credit bank_credit = true
is_bank_credit _ = false

-- The ids of the bank credits of the groups.
abbrev pub credit_ids : {W : Type 0} → List (MatchGroup W) → List Text
credit_ids [] = []
credit_ids (g ∷ gs) = map (λ t. t.external_id_norm) (role_of is_bank_credit g) ++ credit_ids gs

abbrev pub IsUnique : List Text → Type 0
IsUnique [] = Unit
IsUnique (x ∷ xs) = ¬ (In x xs) × IsUnique xs

IsUnique-snoc : (xs : List Text) (x : Text) → IsUnique xs → ¬ (In x xs) → IsUnique (xs ++ x ∷ [])
IsUnique-snoc [] x u n = ((λ h. h), tt)
IsUnique-snoc (y ∷ ys) x u n = (
  (λ i. elim (In-append y ys (x ∷ []) i) [
    | inl l ↦ u.0 l
    | inr (inl e) ↦ n (inl (sym e))
    | inr (inr f) ↦ f
  ]),
  IsUnique-snoc ys x u.1 (λ i. n (inr i)),
)

not-consumed :
    (ix : TransactionIndex) (t : CanonicalTransaction)
    → is_consumed ix t ≡ false
    → ¬ (In t.external_id_norm ix.consumed)
unfolding is_consumed
not-consumed ix t h i = ground (arith, any-In t.external_id_norm ix.consumed i)

consume-keeps :
    (id : Text) (ix : TransactionIndex) (ts : List CanonicalTransaction)
    → In id ix.consumed
    → In id (consume ix ts).consumed
unfolding consume
consume-keeps id ix [] h = h
consume-keeps id ix (t ∷ ts) h = consume-keeps id _ ts (inr h)

consume-In :
    (ix : TransactionIndex) (ts : List CanonicalTransaction) (t : CanonicalTransaction)
    → In t ts
    → In t.external_id_norm (consume ix ts).consumed
unfolding consume
consume-In ix [] t h = absurd h
consume-In ix (u ∷ ts) t (inl e) =
    consume-keeps t.external_id_norm _ ts (inl (ap (λ x. x.external_id_norm) e))
consume-In ix (u ∷ ts) t (inr h) = consume-In _ ts t h

abbrev bank_list : Option CanonicalTransaction → List CanonicalTransaction
bank_list none = []
bank_list (some bank) = bank ∷ []

abbrev credits_in : List Link → List CanonicalTransaction
credits_in links = map (λ l. l.transaction) (filter (λ l. is_bank_credit l.role) links)

credits_in-append : (ks ls : List Link) → credits_in (ks ++ ls) ≡ credits_in ks ++ credits_in ls
credits_in-append ks ls =
    rw (filter-append (λ l. is_bank_credit l.role) ks ls) (map-append (λ l. l.transaction) _ _)

credits_in-payments : (o : Option CanonicalTransaction) → credits_in (payment_links o) ≡ []
credits_in-payments none = refl
credits_in-payments (some p) = refl

credits_in-lines :
    (linked : PaymentMap) (lines : List CanonicalTransaction)
    → credits_in (line_links linked lines) ≡ []
unfolding line_links
credits_in-lines linked [] = refl
credits_in-lines linked (line ∷ rest) =
    credits_in-append (payment_links _) (line_links linked rest)
    ∙ rw (credits_in-payments _, credits_in-lines linked rest) refl

credits_in-entries :
    (entries : List CanonicalTransaction) → credits_in (map entry_link entries) ≡ []
credits_in-entries [] = refl
credits_in-entries (e ∷ entries) = elim (Bool-cases (is_debit e.direction)) [
  | inl h ↦ rw h (credits_in-entries entries)
  | inr h ↦ rw h (credits_in-entries entries)
]

credits_in-bank : (o : Option CanonicalTransaction) → credits_in (bank_links o) ≡ bank_list o
credits_in-bank none = refl
credits_in-bank (some b) = refl

-- The only bank credit of a settlement's links is the one that was found.
credits_in-settlement :
    (linked : PaymentMap) (batch : CanonicalTransaction) (lines : List CanonicalTransaction)
    (bank : Option CanonicalTransaction) (entries : List CanonicalTransaction)
    → credits_in (settlement_links linked batch lines bank entries) ≡ bank_list bank
unfolding settlement_links
credits_in-settlement linked batch lines bank entries =
    credits_in-append (line_links linked lines) (bank_links bank ++ map entry_link entries)
    ∙ rw
        (
          credits_in-lines linked lines,
          credits_in-append (bank_links bank) (map entry_link entries),
          credits_in-bank bank,
          credits_in-entries entries,
        )
        (append-nil _)

All-mono :
    (P Q : Text → Type 0) (ids : List Text) → ((id : Text) → P id → Q id) → All P ids → All Q ids
All-mono P Q [] f h = tt
All-mono P Q (id ∷ ids) f h = (f id h.0, All-mono P Q ids f h.1)

abbrev ids_of : Option CanonicalTransaction → List Text
ids_of o = map (λ t. t.external_id_norm) (bank_list o)

claim :
    (ids : List Text) (ix : TransactionIndex) (o : Option CanonicalTransaction)
    → IsUnique ids
    → All (λ id. In id ix.consumed) ids
    → ((b : CanonicalTransaction) → o ≡ some b → is_consumed ix b ≡ false)
    → IsUnique (ids ++ ids_of o)
claim ids ix none u a free = rw (append-nil ids) u
claim ids ix (some b) u a free = IsUnique-snoc ids b.external_id_norm u (λ i.
    not-consumed ix b (free b refl) (All-In (λ id. In id ix.consumed) b.external_id_norm ids a i))

filtered_ids :
    (P : Text → Type 0) (p : Link → Bool) (links : List Link)
    → All P (map (λ t. t.external_id_norm) (map (λ l. l.transaction) links))
    → All P (map (λ t. t.external_id_norm) (map (λ l. l.transaction) (filter p links)))
filtered_ids P p [] h = tt
filtered_ids P p (l ∷ links) h = elim (Bool-cases (p l)) [
  | inl e ↦ rw e (h.0, filtered_ids P p links h.1)
  | inr e ↦ rw e (filtered_ids P p links h.1)
]

consumed_ids :
    (ix : TransactionIndex) (ts : List CanonicalTransaction)
    → All (λ id. In id (consume ix ts).consumed) (map (λ t. t.external_id_norm) ts)
unfolding consume
consumed_ids ix [] = tt
consumed_ids ix (t ∷ ts) = (consume-keeps t.external_id_norm _ ts (inl refl), consumed_ids _ ts)

module _ {W : Type 0} ⦃d : Double W⦄ where
  or_scored-open :
      (batch : CanonicalTransaction) (ix : TransactionIndex) (policy : Policy W)
      (r : Option CanonicalTransaction × Evidence W) (b : CanonicalTransaction)
      → IsExactChoice ix batch r.0
      → (or_scored batch ix policy r).bank ≡ some b
      → is_consumed ix b ≡ false
  unfolding or_scored
  or_scored-open batch ix policy (some c, e) b h k =
      subst (λ x. is_consumed ix x ≡ false) (some-injective _ _ k) h.2
  or_scored-open batch ix policy (none, e) b h k =
      match_r6_batch_to_bank_scored-open batch ix policy b k

  -- The credit that a batch is given was not consumed.
  find_bank-open :
      (batch : CanonicalTransaction) (ix : TransactionIndex) (policy : Policy W)
      (b : CanonicalTransaction)
      → (find_bank batch ix policy).bank ≡ some b
      → is_consumed ix b ≡ false
  unfolding find_bank
  find_bank-open batch ix policy b k =
      or_scored-open batch ix policy (match_r2_batch_to_bank batch ix) b
        (match_r2_batch_to_bank-choice W batch ix).0 k

  outcome_credits :
      (linked : PaymentMap) (policy : Policy W) (ix : TransactionIndex)
      (batch : CanonicalTransaction)
      → role_of is_bank_credit (settlement_outcome linked policy ix batch).0
        ≡ bank_list (find_bank batch ix policy).bank
  unfolding role_of settlement_outcome apply_gate with_score settlement_group
  outcome_credits linked policy ix batch = credits_in-settlement linked batch _ _ _

  -- The claimed credits are distinct, and consumed.
  abbrev pub ClaimsOnce : RunState W → Type 0
  ClaimsOnce s =
      IsUnique (credit_ids s.groups) × All (λ id. In id s.index.consumed) (credit_ids s.groups)

  credit_ids-append :
      (gs hs : List (MatchGroup W)) → credit_ids (gs ++ hs) ≡ credit_ids gs ++ credit_ids hs
  credit_ids-append [] hs = refl
  credit_ids-append (g ∷ gs) hs =
      ap (λ r. map (λ t. t.external_id_norm) (role_of is_bank_credit g) ++ r)
        (credit_ids-append gs hs)
      ∙ sym (append_assoc (map (λ t. t.external_id_norm) (role_of is_bank_credit g)) _ _)

  settle_batch-ClaimsOnce :
      (linked : PaymentMap) (policy : Policy W) (s : RunState W) (batch : CanonicalTransaction)
      → ClaimsOnce s
      → ClaimsOnce (settle_batch linked policy s batch)
  unfolding settle_batch role_of
  settle_batch-ClaimsOnce linked policy s batch (u, a) =
      let g = (settlement_outcome linked policy s.index batch).0 in
      let taken = map (λ l. l.transaction) g.links in
      let fresh = map (λ t. t.external_id_norm) (credits_in g.links) in
      let ids : credit_ids (s.groups ++ g ∷ []) ≡ credit_ids s.groups ++ fresh =
        credit_ids-append s.groups (g ∷ [])
        ∙ ap (λ r. credit_ids s.groups ++ r) (append-nil fresh) in
      let found : fresh ≡ ids_of (find_bank batch s.index policy).bank =
        ap (map (λ t. t.external_id_norm)) (outcome_credits linked policy s.index batch) in
      (
        subst IsUnique (ap (λ r. credit_ids s.groups ++ r) (sym found) ∙ sym ids) (
            claim (credit_ids s.groups) s.index (find_bank batch s.index policy).bank u a
              (λ b e. find_bank-open batch s.index policy b e)),
        subst (All (λ id. In id (consume s.index taken).consumed)) (sym ids) (
            All-append _ (credit_ids s.groups) fresh
              (All-mono _ _ (credit_ids s.groups) (λ id h. consume-keeps id s.index taken h) a)
              (filtered_ids _ (λ l. is_bank_credit l.role) g.links (consumed_ids s.index taken))),
      )

  settle_batches-ClaimsOnce :
      (linked : PaymentMap) (policy : Policy W) (s : RunState W)
      (batches : List CanonicalTransaction)
      → ClaimsOnce s
      → ClaimsOnce (settle_batches linked policy s batches)
  unfolding settle_batches
  settle_batches-ClaimsOnce linked policy s [] h = h
  settle_batches-ClaimsOnce linked policy s (batch ∷ rest) h =
      settle_batches-ClaimsOnce linked policy (settle_batch linked policy s batch) rest
        (settle_batch-ClaimsOnce linked policy s batch h)

  -- The settlement chain keeps this: no two groups hold a bank credit with the same id, and every
  -- bank credit that a group holds is consumed. So a credit settles at most one batch.
  pub reconcile_settlements-ClaimsOnce :
      (policy : Policy W) (s : RunState W)
      → ClaimsOnce s
      → ClaimsOnce (reconcile_settlements policy s)
  unfolding reconcile_settlements
  reconcile_settlements-ClaimsOnce policy s h = settle_batches-ClaimsOnce _ policy s _ h
