-- ===== src/Recon/Bridge/Balance.antt =====
-- What a bridge explains, and the bounds of the fee schedule.
use ai_finance_controller.Common.{
  ℕ, ◌+◌, ◌*◌, ◌/◌, ◌≤◌, ◌<◌, ◌≡◌, ◌↔◌, refl, ◌∙◌, ap, true, Option, List, [], ◌∷◌, ◌++◌, map,
  arith, All, Bool-cases, inl, inr, length, sym,
}
use ai_finance_controller.Common.Int.{
  ℤ, pos, sum, floor_div, ◌+ℤ◌, ◌-ℤ◌, ◌*ℤ◌, ◌==ℤ◌, int_laws, ==ℤ_iff, parts_of_eq,
}
use ai_finance_controller.Common.Text.{Text, codes, lower, or_empty}
use ai_finance_controller.Domain.Canonical.{CanonicalTransaction}
use ai_finance_controller.Recon.Models.{
  BridgeComponent, ComponentLabel, refunds_of, gateway_fee, gst_on_fee, Operation, base, subtract,
  add, balances_exactly, difference_minor,
}
use ai_finance_controller.Recon.Bridge.{
  build_settlement_bridge, build_ledger_bridge, gross_total, fee_total, tax_total, unless_zero,
  expected_fee_minor, method_fee_bps,
}

-- A bridge read from its components: a base replaces the total, the others change it.
abbrev pub apply_component : ℤ → Operation → ℤ → ℤ
apply_component acc base amount = amount
apply_component acc subtract amount = acc -ℤ amount
apply_component acc add amount = acc +ℤ amount

abbrev pub explained : ℤ → List BridgeComponent → ℤ
explained acc [] = acc
explained acc (c ∷ cs) = explained (apply_component acc c.operation c.amount_minor) cs

explained-append :
    (acc : ℤ) (xs ys : List BridgeComponent)
    → explained acc (xs ++ ys) ≡ explained (explained acc xs) ys
explained-append acc [] ys = refl
explained-append acc (x ∷ xs) ys =
    explained-append (apply_component acc x.operation x.amount_minor) xs ys

-- Leaving out a component of zero changes nothing.
explained-unless_zero :
    (acc : ℤ) (label : ComponentLabel) (amount : ℤ) (source : Text)
    → explained acc (unless_zero label amount source) ≡ acc -ℤ amount
explained-unless_zero acc label amount source = elim (Bool-cases (amount ==ℤ pos 0)) [
  | inl e ↦ rw (e, (==ℤ_iff amount (pos 0)).0 e) (omega int_laws)
  | inr e ↦ rw e
]

-- The components of a settlement bridge, also with the zero ones left out, lead from the gross to
-- the expected net; those of a ledger bridge lead from the debits to the difference.
pub components_explain :
    (batch : CanonicalTransaction) (lines refunds entries : List CanonicalTransaction)
    (tolerance : ℤ)
    → (let b = build_settlement_bridge batch lines tolerance refunds in
        explained (pos 0) b.components ≡ b.expected_net_minor)
      × (let b = build_ledger_bridge batch entries tolerance in
          explained (pos 0) b.components ≡ difference_minor b)
unfolding build_settlement_bridge build_ledger_bridge difference_minor
components_explain batch lines refunds entries tolerance = (
  explained-append (gross_total lines)
        (unless_zero (refunds_of (length refunds)) (gross_total refunds) batch.external_id) _
      ∙ explained-append _ (unless_zero gateway_fee (fee_total lines) (codes "fee_schedule")) _
      ∙ explained-unless_zero _ gst_on_fee (tax_total lines) (codes "fee_schedule")
      ∙ ap (λ x. x -ℤ tax_total lines)
          (explained-unless_zero _ gateway_fee (fee_total lines) (codes "fee_schedule"))
      ∙ ap (λ x. x -ℤ fee_total lines -ℤ tax_total lines)
          (explained-unless_zero (gross_total lines) (refunds_of (length refunds))
            (gross_total refunds) batch.external_id),
  refl,
)

-- `gross - fee - tax = net` on every line.
abbrev pub HoldsIdentity : CanonicalTransaction → Type 0
HoldsIdentity t =
    t.net_amount_minor ≡ t.gross_amount_minor -ℤ t.fee_amount_minor -ℤ t.tax_amount_minor

abbrev pub net_total : List CanonicalTransaction → ℤ
net_total ts = sum (map (λ t. t.net_amount_minor) ts)

regroup : (g f t g' f' t' : ℤ) → g +ℤ g' -ℤ (f +ℤ f') -ℤ (t +ℤ t') ≡ g -ℤ f -ℤ t +ℤ (g' -ℤ f' -ℤ t')
regroup g f t g' f' t' = omega int_laws

sum-net :
    (ts : List CanonicalTransaction)
    → All HoldsIdentity ts
    → gross_total ts -ℤ fee_total ts -ℤ tax_total ts ≡ net_total ts
unfolding gross_total fee_total tax_total
sum-net [] h = omega int_laws
sum-net (t ∷ ts) h =
    rw (← sum-net ts h.1, h.0)
      (regroup t.gross_amount_minor t.fee_amount_minor t.tax_amount_minor (gross_total ts)
        (fee_total ts) (tax_total ts))

no_refunds :
    (lines : List CanonicalTransaction)
    → gross_total lines -ℤ gross_total [] -ℤ fee_total lines -ℤ tax_total lines
      ≡ gross_total lines -ℤ fee_total lines -ℤ tax_total lines
unfolding gross_total
no_refunds lines = omega int_laws

equal_of_gap : (a b : ℤ) → a -ℤ b ≡ pos 0 → a ≡ b
equal_of_gap a b h = omega (int_laws, parts_of_eq (a -ℤ b) (pos 0) h)

gap_of_equal : (a b : ℤ) → a ≡ b → a -ℤ b ≡ pos 0
gap_of_equal a b h = omega (int_laws, parts_of_eq a b h)

-- Where every line holds its own identity, the settlement bridge without refunds balances exactly
-- if and only if the batch's net is the sum of the nets of its lines.
pub settlement_bridge_exact :
    (batch : CanonicalTransaction) (lines : List CanonicalTransaction) (tolerance : ℤ)
    → All HoldsIdentity lines
    → (balances_exactly (build_settlement_bridge batch lines tolerance []) ≡ true)
      ↔ (batch.net_amount_minor ≡ net_total lines)
unfolding balances_exactly difference_minor build_settlement_bridge
settlement_bridge_exact batch lines tolerance h =
    let expected = gross_total lines -ℤ gross_total [] -ℤ fee_total lines -ℤ tax_total lines in
    let same : expected ≡ net_total lines = no_refunds lines ∙ sum-net lines h in
    (
      (λ e.
          let zero_gap = (==ℤ_iff (batch.net_amount_minor -ℤ expected) (pos 0)).0 e in
          equal_of_gap batch.net_amount_minor expected zero_gap ∙ same),
      (λ e.
          (==ℤ_iff (batch.net_amount_minor -ℤ expected) (pos 0)).1
            (gap_of_equal _ _ (e ∙ sym same))),
    )

method_fee_bps-le : (m : Text) → method_fee_bps m ≤ 250
unfolding method_fee_bps
method_fee_bps-le m = ground arith

rate_product : (gross bps : ℕ) → bps ≤ 250 → gross * bps ≤ gross * 250
rate_product gross bps h = grind arith

-- On an amount that is not negative the scheduled fee is the rate of the method rounded down to a
-- minor unit, its tax is 18 % of it rounded down, and the two together stay within the amount.
pub expected_fee_minor_bounds :
    (gross : ℕ) (method : Option Text)
    → let (fee, tax) = expected_fee_minor (pos gross) method in
      let bps = method_fee_bps (lower (or_empty method)) in
      (f : ℕ) × (t : ℕ) × (fee ≡ pos f)
      × (tax ≡ pos t)
      × (f * 10_000 ≤ gross * bps)
      × (gross * bps < (f + 1) * 10_000)
      × (t * 10_000 ≤ f * 1800)
      × (f * 1800 < (t + 1) * 10_000)
      × (f + t ≤ gross)
unfolding expected_fee_minor floor_div ◌*ℤ◌
expected_fee_minor_bounds gross method =
    let bps = method_fee_bps (lower (or_empty method)) in
    let fee = gross * bps / 10_000 in
    let rate : bps ≤ 250 = method_fee_bps-le (lower (or_empty method)) in
    (
      fee,
      fee * 1800 / 10_000,
      ground arith,
      ground arith,
      omega arith,
      omega arith,
      omega arith,
      omega arith,
      omega (arith, rate_product gross bps rate),
    )
