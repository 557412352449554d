-- ===== src/Tests/Amounts.antt =====
-- Money, bridges and the canonical transaction at concrete inputs.
use mathlib.Core.Path.{subst}
use ai_finance_controller.Common.{
  ◌≡◌, ◌≢◌, ◌⊎◌, ◌↔◌, ◌≤◌, ◌<◌, ◌+◌, ◌*◌, ◌/◌, ℕ, refl, sym, some, none, List, [], ◌∷◌, ◌++◌, inl,
  inr, All, true, false, any, get_elem?, length,
}
use ai_finance_controller.Common.Int.{ℤ, pos, negsuc, sum, abs, pos_part, ltb_ℤ, ◌≤ℤ◌, ◌-ℤ◌}
use ai_finance_controller.Common.Text.{codes, text_eq, lower, or_empty}
use ai_finance_controller.Common.Result.{ok, err}
use ai_finance_controller.Domain.Canonical.{CanonicalTransaction, post_init, with_flag}
use ai_finance_controller.Domain.Canonical.Accept.{
  IsCanonical, keyed_copy, post_init-IsCanonical, post_init-accepts, with_flag_lem,
}
use ai_finance_controller.Domain.Money.{
  allocation_empty, allocation_negative_weight, allocation_zero_weight,
}
use ai_finance_controller.Domain.Money.Sign.{
  split_sign, apply_direction, apply_direction-split_sign,
}
use ai_finance_controller.Domain.Money.Allocate.{allocate_minor}
use ai_finance_controller.Domain.Money.Allocate.Total.{
  allocate_minor-total, allocate_minor_near, allocate_minor_errors,
}
use ai_finance_controller.Recon.Bridge.{
  build_settlement_bridge, build_ledger_bridge, expected_fee_minor, method_fee_bps,
}
use ai_finance_controller.Recon.Models.{balances_exactly, difference_minor}
use ai_finance_controller.Recon.Bridge.Balance.{
  settlement_bridge_exact, explained, components_explain, expected_fee_minor_bounds, HoldsIdentity,
  net_total,
}
use ai_finance_controller.Tests.Data.{batch, line}

line-HoldsIdentity : All HoldsIdentity (line ∷ [])
unfolding ai_finance_controller.Common.Int.◌-ℤ◌
line-HoldsIdentity = (refl, tt)

settlement_bridge_exact_example :
    (balances_exactly (build_settlement_bridge batch (line ∷ []) (pos 100) []) ≡ true)
    ↔ (batch.net_amount_minor ≡ net_total (line ∷ []))
settlement_bridge_exact_example =
    settlement_bridge_exact batch (line ∷ []) (pos 100) line-HoldsIdentity

expected_fee_minor_bounds_example :
    let (fee, tax) = expected_fee_minor (pos 100_000) (some (codes "card")) in
    let bps = method_fee_bps (lower (or_empty (some (codes "card")))) in
    (f : ℕ) × (t : ℕ) × (fee ≡ pos f)
    × (tax ≡ pos t)
    × (f * 10_000 ≤ 100_000 * bps)
    × (100_000 * bps < (f + 1) * 10_000)
    × (t * 10_000 ≤ f * 1800)
    × (f * 1800 < (t + 1) * 10_000)
    × (f + t ≤ 100_000)
expected_fee_minor_bounds_example = expected_fee_minor_bounds 100_000 (some (codes "card"))

components_explain_example :
    (let b = build_settlement_bridge batch (line ∷ []) (pos 100) [] in
      explained (pos 0) b.components ≡ b.expected_net_minor)
    × (let b = build_ledger_bridge batch [] (pos 100) in
        explained (pos 0) b.components ≡ difference_minor b)
components_explain_example = components_explain batch (line ∷ []) [] [] (pos 100)

apply_direction-split_sign_example :
    let (magnitude, direction) = split_sign (negsuc 41) in
    (apply_direction magnitude direction ≡ ok (negsuc 41)) × (pos 0 ≤ℤ magnitude)
apply_direction-split_sign_example = apply_direction-split_sign (negsuc 41)

three_ways :
    allocate_minor (pos 100) (pos 1 ∷ pos 1 ∷ pos 1 ∷ []) ≡ ok (pos 34 ∷ pos 33 ∷ pos 33 ∷ [])
unfolding ai_finance_controller.Common.Int.◌+ℤ◌ ai_finance_controller.Common.Sort.sort
    ai_finance_controller.Domain.Money.Allocate.floors
    ai_finance_controller.Domain.Money.Allocate.remainders
    ai_finance_controller.Domain.Money.Allocate.larger_first
    ai_finance_controller.Domain.Money.Allocate.add_ones
    ai_finance_controller.Domain.Money.Allocate.increments
    ai_finance_controller.Domain.Money.Allocate.shares
    ai_finance_controller.Domain.Money.Allocate.allocate_minor
three_ways = refl

allocate_minor-total_example :
    (sum (pos 34 ∷ pos 33 ∷ pos 33 ∷ []) ≡ pos 100)
    × (length (pos 34 ∷ pos 33 ∷ pos 33 ∷ []) ≡ length (pos 1 ∷ pos 1 ∷ pos 1 ∷ []))
allocate_minor-total_example =
    allocate_minor-total (pos 100) (pos 1 ∷ pos 1 ∷ pos 1 ∷ []) three_ways

allocate_minor_near_example :
    let floor = abs (pos 100) * pos_part (pos 1) / pos_part (sum (pos 1 ∷ pos 1 ∷ pos 1 ∷ [])) in
    (floor ≤ abs (pos 34)) × (abs (pos 34) ≤ floor + 1)
allocate_minor_near_example =
    allocate_minor_near (pos 100) (pos 1 ∷ pos 1 ∷ pos 1 ∷ []) three_ways 0 refl refl

abbrev zeros : List ℤ
zeros = pos 0 ∷ pos 0 ∷ []

allocate_minor_errors_example :
    ((allocate_minor (pos 100) zeros ≡ err allocation_empty) ↔ (zeros ≡ []))
    × ((allocate_minor (pos 100) zeros ≡ err allocation_negative_weight)
        ↔ (any (λ w. ltb_ℤ w (pos 0)) zeros ≡ true))
    × ((allocate_minor (pos 100) zeros ≡ err allocation_zero_weight)
        ↔ ((zeros ≢ []) × (any (λ w. ltb_ℤ w (pos 0)) zeros ≡ false) × (sum zeros ≡ pos 0)))
    × (((out : List ℤ) × (allocate_minor (pos 100) zeros ≡ ok out))
        ↔ ((zeros ≢ []) × (any (λ w. ltb_ℤ w (pos 0)) zeros ≡ false) × (sum zeros ≢ pos 0)))
allocate_minor_errors_example = allocate_minor_errors (pos 100) zeros

line-made : post_init line ≡ ok line
unfolding ai_finance_controller.Domain.Canonical.norm
    ai_finance_controller.Domain.Canonical.lacks_id
    ai_finance_controller.Domain.Canonical.has_bad_currency
    ai_finance_controller.Domain.Canonical.has_negative_amount
    ai_finance_controller.Domain.Canonical.violates_identity
    ai_finance_controller.Domain.Canonical.has_fee_out_of_scope
    ai_finance_controller.Domain.Canonical.post_init ai_finance_controller.Common.Int.◌-ℤ◌
line-made = refl

post_init-IsCanonical_example : (keyed_copy line ≡ line) × IsCanonical (keyed_copy line)
post_init-IsCanonical_example = post_init-IsCanonical line line-made

line-IsCanonical : IsCanonical line
line-IsCanonical =
    let (same, valid) = post_init-IsCanonical line line-made in subst IsCanonical same valid

post_init-accepts_example : post_init line ≡ ok line
post_init-accepts_example = post_init-accepts line line-IsCanonical

with_flag_lem_example :
    (u : CanonicalTransaction) × (with_flag (codes "tz_assumed") line ≡ ok u)
    × IsCanonical u
    × (any (text_eq (codes "tz_assumed")) u.data_quality_flags ≡ true)
    × ((u ≡ line)
        ⊎ (u ≡ record line {
          data_quality_flags = line.data_quality_flags ++ codes "tz_assumed" ∷ [];
        }))
with_flag_lem_example = with_flag_lem (codes "tz_assumed") line line-IsCanonical
