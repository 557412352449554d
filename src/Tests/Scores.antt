-- ===== src/Tests/Scores.antt =====
-- The gate and the scores at concrete inputs.
use ai_finance_controller.Common.{
  ◌≡◌, ◌⊎◌, ◌↔◌, ◌<◌, refl, some, none, Option, List, [], ◌∷◌, inl, inr, All, true, false, is_empty,
  length,
}
use ai_finance_controller.Common.Int.{ℤ, pos}
use ai_finance_controller.Common.Text.{codes}
use ai_finance_controller.Double.Scaled.{scaled, scaled-IsOrdered}
use ai_finance_controller.Domain.Enums.{
  one_to_one, RuleTier, deterministic, proposed, auto_resolved, pending_review, LinkRole,
  EntityType,
}
use ai_finance_controller.Recon.Index.{build, of_type}
use ai_finance_controller.Recon.Exceptions.Standalone.{detect_duplicates}
use ai_finance_controller.Recon.Exceptions.Duplicates.{
  ReportsRepeat, detect_duplicates-ReportsRepeat,
}
use ai_finance_controller.Recon.Models.{MatchGroup, r6}
use ai_finance_controller.Recon.Policy.{Policy, default_policy, apply_gate, distinct_flags}
use ai_finance_controller.Recon.Policy.Gate.{IsClearable, apply_gate-IsClearable}
use ai_finance_controller.Recon.Scoring.{
  is_unbalanced, is_near_tie, rule_strength, score_group, margin_between,
}
use ai_finance_controller.Recon.Scoring.Caps.{score_group-caps, score_group_vetoed}
use ai_finance_controller.Tests.Data.{bank_row, open_payment, invoice_row}

abbrev policy : Policy ℤ
policy = default_policy

abbrev group : MatchGroup ℤ
group = record {
  group_id = codes "grp_r4_I2";
  group_type = one_to_one;
  matched_by_rule = r6;
  tier = RuleTier.scored;
  links =
      record { transaction = invoice_row; role = LinkRole.invoice; matched_amount_minor = pos 7000 }
      ∷ record {
        transaction = open_payment;
        role = LinkRole.payment;
        matched_amount_minor = pos 7000;
      }
      ∷ [];
  evidence = [];
  bridge = none;
  confidence = pos 9700;
  confidence_components = [];
  gate = [];
  status = proposed;
}

apply_gate-IsClearable_example :
    ((apply_gate group policy none none (pos 0)).status ≡ auto_resolved
      ↔ IsClearable group policy none none (pos 0))
    × (((apply_gate group policy none none (pos 0)).status ≡ auto_resolved)
        ⊎ ((apply_gate group policy none none (pos 0)).status ≡ pending_review))
apply_gate-IsClearable_example = apply_gate-IsClearable group policy none none (pos 0)

abbrev confidence : ℤ
confidence = (score_group group none (some (pos 300)) (pos 500)).0

score_group-caps_example :
    (scaled.le (pos 0) confidence ≡ true)
    × (scaled.le confidence (pos 10_000) ≡ true)
    × ((is_unbalanced none ≡ false) ⊎ (scaled.le confidence (pos 6000) ≡ true))
    × ((is_near_tie (some (pos 300)) (pos 500) ≡ false) ⊎ (scaled.le confidence (pos 7000) ≡ true))
    × ((is_empty (distinct_flags group.links) ≡ true) ⊎ (scaled.le confidence (pos 7500) ≡ true))
    × ((group.tier ≡ deterministic)
        ⊎ (scaled.le confidence (pos (rule_strength group.matched_by_rule 8500)) ≡ true))
score_group-caps_example = score_group-caps scaled-IsOrdered group none (some (pos 300)) (pos 500)

score_group_vetoed_example : scaled.le (pos 9500) confidence ≡ false
score_group_vetoed_example =
    score_group_vetoed scaled-IsOrdered group none (some (pos 300)) (pos 500)
      (inr (inr (inr (refl, refl))))

margin_of_two : margin_between (pos 4000 ∷ pos 9000 ∷ []) ≡ some (pos 5000)
unfolding ai_finance_controller.Recon.Scoring.margin_between ai_finance_controller.Common.Sort.sort
    ai_finance_controller.Common.Sort.insert ai_finance_controller.Common.Int.◌-ℤ◌
margin_of_two = refl

detect_duplicates-ReportsRepeat_example :
    All
      (ReportsRepeat (
        of_type
          (build (bank_row ∷ bank_row ∷ []))
          (EntityType.bank_transaction ∷ EntityType.ledger_entry ∷ [])))
      (detect_duplicates (build (bank_row ∷ bank_row ∷ [])) policy)
detect_duplicates-ReportsRepeat_example =
    detect_duplicates-ReportsRepeat (build (bank_row ∷ bank_row ∷ [])) policy
