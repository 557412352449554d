-- ===== src/Recon/Exceptions/Duplicates.antt =====
-- The duplicates that packages/reconciliation/ledgergraph_reconciliation/exceptions.py reports.
use ai_finance_controller.Common.{
  ◌≤◌, ◌≡◌, refl, sym, ◌∙◌, true, false, List, [], ◌∷◌, arith, filter, length, All, All-append,
  Bool-cases, inl, inr,
}
use ai_finance_controller.Common.Int.{pos, ◌*ℤ◌}
use ai_finance_controller.Common.Eq.{Eq}
use ai_finance_controller.Common.Dict.{Dict, push, get_list}
use ai_finance_controller.Double.{Double}
use ai_finance_controller.Domain.Enums.{EntityType}
use ai_finance_controller.Domain.Canonical.{CanonicalTransaction, is_zero_amount}
use ai_finance_controller.Recon.Models.{ExceptionCase}
use ai_finance_controller.Recon.Index.{TransactionIndex, of_type}
use ai_finance_controller.Recon.Policy.{Policy}
use ai_finance_controller.Recon.Exceptions.Standalone.{
  ContentKey, content_key, content_eq, add_to_bucket, fill_buckets, has_reference, bucket_cases,
  all_bucket_cases, detect_duplicates,
}
use ai_finance_controller.Recon.Exceptions.Buckets.{belongs, fill_buckets_lem}

module _ {K : Type 0} ⦃e : Eq K⦄ where
  beq_sym : (i k : K) → e.beq i k ≡ false → e.beq k i ≡ false
  beq_sym i k h = ground (arith, e.beq_iff i k, e.beq_iff k i)

module _ {K V : Type 0} ⦃e : Eq K⦄ where
  -- No entry has the key.
  abbrev IsFresh : K → Dict K (List V) → Type 0
  IsFresh k m = All (λ p. e.beq p.0 k ≡ false) m

  abbrev HasDistinctKeys : Dict K (List V) → Type 0
  HasDistinctKeys [] = Unit
  HasDistinctKeys ((k, vs) ∷ m) = IsFresh k m × HasDistinctKeys m

  push-IsFresh :
      (j k : K) (v : V) (m : Dict K (List V))
      → e.beq k j ≡ false
      → IsFresh j m
      → IsFresh j (push k v m)
  unfolding push
  push-IsFresh j k v [] h f = (h, tt)
  push-IsFresh j k v ((i, ws) ∷ m) h f = elim (Bool-cases (e.beq i k)) [
    | inl t ↦ rw t f
    | inr t ↦ rw t (f.0, push-IsFresh j k v m h f.1)
  ]

  push-HasDistinctKeys :
      (k : K) (v : V) (m : Dict K (List V)) → HasDistinctKeys m → HasDistinctKeys (push k v m)
  unfolding push
  push-HasDistinctKeys k v [] h = (tt, tt)
  push-HasDistinctKeys k v ((i, ws) ∷ m) h = elim (Bool-cases (e.beq i k)) [
    | inl t ↦ rw t h
    | inr t ↦ rw t (push-IsFresh i k v m (beq_sym i k t) h.0, push-HasDistinctKeys k v m h.1)
  ]

  -- The entry of a key is what the key finds.
  get_list-fresh :
      (i : K) (ws : List V) (m n : Dict K (List V))
      → IsFresh i n
      → All (λ p. get_list p.0 m ≡ p.1) n
      → All (λ p. get_list p.0 ((i, ws) ∷ m) ≡ p.1) n
  unfolding get_list
  get_list-fresh i ws m [] f h = tt
  get_list-fresh i ws m ((j, vs) ∷ n) f h =
      (rw (beq_sym j i f.0) h.0, get_list-fresh i ws m n f.1 h.1)

  get_list-entries : (m : Dict K (List V)) → HasDistinctKeys m → All (λ p. get_list p.0 m ≡ p.1) m
  unfolding get_list
  get_list-entries [] h = tt
  get_list-entries ((i, ws) ∷ m) h =
      (rw ((e.beq_iff i i).1 refl) refl, get_list-fresh i ws m m h.0 (get_list-entries m h.1))

fill_buckets-HasDistinctKeys :
    (buckets : Dict ContentKey (List CanonicalTransaction)) (ts : List CanonicalTransaction)
    → HasDistinctKeys buckets
    → HasDistinctKeys (fill_buckets buckets ts)
unfolding fill_buckets add_to_bucket
fill_buckets-HasDistinctKeys buckets [] h = h
fill_buckets-HasDistinctKeys buckets (t ∷ ts) h =
    fill_buckets-HasDistinctKeys (add_to_bucket buckets t) ts
      (elim (Bool-cases (is_zero_amount t)) [
        | inl z ↦ rw z h
        | inr z ↦ rw z (push-HasDistinctKeys (content_key t) t buckets h)
      ])

-- The case reports all records of one content that has a reference, two at least, and the amount
-- that all but the first of them add.
pub record ReportsRepeat {W : Type 0} (ts : List CanonicalTransaction) (c : ExceptionCase W)
    : Type 0 where
  pub key : ContentKey
  pub first : CanonicalTransaction
  pub others : List CanonicalTransaction
  pub all_of_them : c.transactions ≡ filter (belongs key) ts
  pub in_order : c.transactions ≡ first ∷ others
  pub repeated : 1 ≤ length others
  pub referenced : has_reference key ≡ true
  pub excess : c.amount_at_risk_minor ≡ first.net_amount_minor *ℤ pos (length others)

module _ {W : Type 0} ⦃d : Double W⦄ (policy : Policy W) (ts : List CanonicalTransaction) where
  bucket_cases-ReportsRepeat :
      (key : ContentKey) (members : List CanonicalTransaction)
      → members ≡ filter (belongs key) ts
      → All (ReportsRepeat ts) (bucket_cases policy key members)
  unfolding bucket_cases
  bucket_cases-ReportsRepeat key [] h = tt
  bucket_cases-ReportsRepeat key (t ∷ []) h = tt
  bucket_cases-ReportsRepeat key (t ∷ u ∷ rest) h = elim (Bool-cases (has_reference key)) [
    | inr r ↦ rw r tt
    | inl r ↦ rw r (
      record {
        key = key;
        first = t;
        others = u ∷ rest;
        all_of_them = h;
        in_order = refl;
        repeated = omega arith;
        referenced = r;
        excess = refl;
      },
      tt,
    )
  ]

  all_bucket_cases-ReportsRepeat :
      (buckets : Dict ContentKey (List CanonicalTransaction))
      → All (λ p. p.1 ≡ filter (belongs p.0) ts) buckets
      → All (ReportsRepeat ts) (all_bucket_cases policy buckets)
  unfolding all_bucket_cases
  all_bucket_cases-ReportsRepeat [] h = tt
  all_bucket_cases-ReportsRepeat ((key, members) ∷ buckets) h =
      All-append (ReportsRepeat ts) (bucket_cases policy key members)
        (all_bucket_cases policy buckets) (bucket_cases-ReportsRepeat key members h.0)
        (all_bucket_cases-ReportsRepeat buckets h.1)

  entries_lem :
      (m : Dict ContentKey (List CanonicalTransaction))
      → All (λ p. get_list p.0 (fill_buckets [] ts) ≡ p.1) m
      → All (λ p. p.1 ≡ filter (belongs p.0) ts) m
  entries_lem [] h = tt
  entries_lem ((key, members) ∷ m) h = (sym h.0 ∙ fill_buckets_lem key ts, entries_lem m h.1)

module _ {W : Type 0} ⦃d : Double W⦄ where
  -- Each duplicate case of a run reports all bank and ledger records of one business content that
  -- has a reference, at least two, in the order of the run; its amount is the net amount of the
  -- first times the number of the others.
  pub detect_duplicates-ReportsRepeat :
      (ix : TransactionIndex) (policy : Policy W)
      → All
          (ReportsRepeat (of_type ix (EntityType.bank_transaction ∷ EntityType.ledger_entry ∷ [])))
          (detect_duplicates ix policy)
  unfolding detect_duplicates
  detect_duplicates-ReportsRepeat ix policy =
      let ts = of_type ix (EntityType.bank_transaction ∷ EntityType.ledger_entry ∷ []) in
      all_bucket_cases-ReportsRepeat policy ts (fill_buckets [] ts) (
        entries_lem policy ts (fill_buckets [] ts)
          (get_list-entries (fill_buckets [] ts) (fill_buckets-HasDistinctKeys [] ts tt)))
