-- ===== src/Tests/Matching.antt =====
-- The rules, the index and the outcome at concrete inputs.
use ai_finance_controller.Common.{
  ◌≡◌, ◌⊎◌, refl, some, none, Option, List, [], ◌∷◌, inl, inr, In, All, true, false, Bool, map,
  head?, filter, find, is_some, ltb, leb, ◌&&◌, length,
}
use ai_finance_controller.Common.Int.{ℤ, pos}
use ai_finance_controller.Common.Text.{codes, text_eq}
use ai_finance_controller.Common.Dict.{lookup, get_list}
use ai_finance_controller.Double.Scaled.{scaled}
use ai_finance_controller.Domain.Enums.{EntityType, same_entity}
use ai_finance_controller.Domain.Canonical.{CanonicalTransaction, norm}
use ai_finance_controller.Recon.Models.{MatchGroup, max_or_zero}
use ai_finance_controller.Recon.Index.Overflow.{
  max_ordinal, candidates_overflow, candidates_overflow_lem,
}
use ai_finance_controller.Recon.Index.{
  TransactionIndex, build, of_type, get, referencing, children_of, max_candidates, is_plausible,
  amounts_around, consume,
}
use ai_finance_controller.Recon.Index.Keys.{text_key, amount_date_key, same_amount_date}
use ai_finance_controller.Recon.Index.Lookups.{has_key, build_lookups}
use ai_finance_controller.Recon.Index.Candidates.{in_window}
use ai_finance_controller.Recon.Policy.{Policy, default_policy}
use ai_finance_controller.Recon.Rules.{
  r4_group, match_r1_payment_to_line, match_r2_batch_to_bank, match_r4_invoice_to_payment,
}
use ai_finance_controller.Recon.Rules.Sound.{IsExactChoice, match_r2_batch_to_bank-choice}
use ai_finance_controller.Recon.Rules.Chain.{Settles, match_r1_payment_to_line-Settles}
use ai_finance_controller.Recon.Exceptions.Standalone.{content_eq}
use ai_finance_controller.Recon.Outcome.{classify, amount_at_risk, raised_cases}
use ai_finance_controller.Recon.Outcome.Agreement.{exposure_of}
use ai_finance_controller.Recon.Outcome.Exposure.{
  amounts_of, classify-raised_cases, amount_at_risk-raised_cases,
}
use ai_finance_controller.Recon.Settlement.{settlement_outcome}
use ai_finance_controller.Tests.Data.{
  invoice_row, open_payment, batch, payment, bank_row, lost_batch, records,
}

abbrev policy : Policy ℤ
policy = default_policy

abbrev index : TransactionIndex
index = build records

match_r2_batch_to_bank-choice_example :
    IsExactChoice index batch (match_r2_batch_to_bank {W = ℤ} batch index).0
    × ((match_r2_batch_to_bank {W = ℤ} batch index).1.passed
        ≡ is_some (match_r2_batch_to_bank {W = ℤ} batch index).0)
match_r2_batch_to_bank-choice_example = match_r2_batch_to_bank-choice ℤ batch index

r2_finds_bank_row : (match_r2_batch_to_bank {W = ℤ} batch index).0 ≡ some bank_row
unfolding ai_finance_controller.Recon.Index.add_transaction
    ai_finance_controller.Recon.Index.add_transactions ai_finance_controller.Recon.Index.build
    ai_finance_controller.Recon.Index.referencing ai_finance_controller.Recon.Index.is_consumed
    ai_finance_controller.Recon.Rules.is_exact_credit
    ai_finance_controller.Recon.Rules.match_r2_batch_to_bank
    ai_finance_controller.Domain.Canonical.norm ai_finance_controller.Common.Dict.push
    ai_finance_controller.Common.Dict.get_list
r2_finds_bank_row = refl

r1_links_payment : lookup (codes "L1") (match_r1_payment_to_line index) ≡ some payment
unfolding ai_finance_controller.Recon.Index.add_transaction
    ai_finance_controller.Recon.Index.add_transactions ai_finance_controller.Recon.Index.build
    ai_finance_controller.Recon.Index.of_type ai_finance_controller.Recon.Index.get
    ai_finance_controller.Recon.Rules.match_r1_payment_to_line
    ai_finance_controller.Domain.Canonical.norm ai_finance_controller.Common.Dict.lookup
    ai_finance_controller.Common.Dict.insert ai_finance_controller.Common.Dict.set_default
    ai_finance_controller.Common.Dict.push ai_finance_controller.Common.Dict.get_list
r1_links_payment = refl

match_r1_payment_to_line-Settles_example :
    (l : CanonicalTransaction) × In l (of_type index (EntityType.settlement_line ∷ []))
    × Settles index (codes "L1") payment l
match_r1_payment_to_line-Settles_example =
    match_r1_payment_to_line-Settles index (codes "L1") payment r1_links_payment

-- With the bank row consumed, R4 still pairs the invoice with its payment.
r4_pairs_one :
    length (match_r4_invoice_to_payment {W = ℤ} (consume (build records) (bank_row ∷ []))) ≡ 1
unfolding match_r4_invoice_to_payment of_type get_list consume build
    ai_finance_controller.Recon.Index.add_transactions
    ai_finance_controller.Recon.Index.add_transaction ai_finance_controller.Common.Dict.push
    ai_finance_controller.Recon.Index.is_consumed referencing norm
r4_pairs_one = refl

abbrev paired : MatchGroup ℤ
paired = r4_group invoice_row open_payment

abbrev group : MatchGroup ℤ
group = (settlement_outcome [] policy index lost_batch).0

classify-raised_cases_example :
    head?
      (map (λ c. c.case_type) (raised_cases lost_batch none none none none [] [] group policy []))
    ≡ classify lost_batch none none none none [] policy []
classify-raised_cases_example =
    classify-raised_cases lost_batch none none none none [] [] group policy []

amount_at_risk-raised_cases_example :
    amount_at_risk (classify lost_batch none none none none [] policy []) lost_batch none none
    ≡ max_or_zero (
        amounts_of
          (classify lost_batch none none none none [] policy [])
          (map exposure_of (raised_cases lost_batch none none none none [] [] group policy [])))
amount_at_risk-raised_cases_example =
    amount_at_risk-raised_cases lost_batch none none none none [] [] group policy []

build_lookups_example :
    (referencing (build records) (some (codes "UTR1"))
      ≡ filter (λ t. has_key (norm (codes "UTR1")) t.reference_id) records)
    × (children_of (build records) (codes "UTR1")
        ≡ filter (λ t. has_key (norm (codes "UTR1")) t.parent_external_id) records)
    × (of_type (build records) (EntityType.payment ∷ [])
        ≡ filter (λ t. same_entity t.entity_type EntityType.payment) records)
    × (get_list (pos 97_640, 12) (build records).by_amount_date
        ≡ filter
            (λ t. same_amount_date (t.net_amount_minor, t.business_date) (pos 97_640, 12))
            records)
    × (get (build records) (some (codes "UTR1"))
        ≡ find (λ t. text_eq t.external_id_norm (norm (codes "UTR1"))) records)
build_lookups_example = build_lookups records (codes "UTR1") EntityType.payment (pos 97_640) 12 refl

-- A batch on the last day of the calendar, which has one day left.
abbrev last_batch : CanonicalTransaction
last_batch = record lost_batch { business_date = max_ordinal }

candidates_overflow_lem_example :
    candidates_overflow index last_batch (EntityType.bank_transaction ∷ []) 3 (pos 0) false ≡ (
      ltb 1 4
      && leb
          (length (
            filter
              (is_plausible index last_batch (EntityType.bank_transaction ∷ []) false)
              (in_window index (amounts_around last_batch.net_amount_minor (pos 0)) max_ordinal 1)))
          max_candidates)
candidates_overflow_lem_example =
    candidates_overflow_lem index last_batch (EntityType.bank_transaction ∷ []) 3 1 (pos 0) false
      refl
