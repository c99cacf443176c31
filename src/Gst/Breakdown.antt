-- ===== src/Gst/Breakdown.antt =====
-- `resolveChargedBreakdown`: which record of an order the invoice states.
use native.Mathlib.Decide.{dec_le}
use native.Mathlib.Nat.{mul-le-mul, le_refl}
use nation_wide.Common.{ℕ, ◌+◌, ◌-◌, ◌*◌, ◌≤◌, ◌≡◌, refl, Option, none, some, or_default, arith}
use nation_wide.Money.{round2, round2_bounds, round2_whole}

pub data BreakdownSource : Type 0 where
  pickup_verification rate_option manual_quote_inclusive custom : BreakdownSource

pub record ChargedBreakdown : Type 0 where
  pub taxable_value : ℕ
  pub gst_amount : ℕ
  pub non_taxable_charges : ℕ
  pub total_amount : ℕ
  pub source : BreakdownSource

pub record Verified : Type 0 where
  pub taxable_subtotal : Option ℕ
  pub gst_amount : Option ℕ
  pub nationwide_cut : Option ℕ
  pub price : Option ℕ

pub record RateOption : Type 0 where
  pub taxable_subtotal : ℕ
  pub gst_amount : ℕ
  pub nationwide_cut : ℕ
  pub final_price : ℕ

pub record BreakdownCandidates : Type 0 where
  pub verified : Option Verified
  pub rate_option : Option RateOption
  pub manual_gross_amount : Option ℕ
  pub fallback_gst_percent : ℕ

-- The last case: a gross figure that includes the tax. `manualGrossAmount - taxableValue` does
-- not go below zero: see `manual_breakdown_adds_up`.
manual_breakdown : Option ℕ → ℕ → Option ChargedBreakdown
manual_breakdown none percent = none
manual_breakdown (some gross) percent =
    let taxable = round2 (gross * 10_000) (10_000 + percent) in
    some (record {
      taxable_value = taxable;
      gst_amount = round2 (gross - taxable) 1;
      non_taxable_charges = 0;
      total_amount = round2 gross 1;
      source = manual_quote_inclusive;
    })

option_breakdown : Option RateOption → Option ℕ → ℕ → Option ChargedBreakdown
option_breakdown (some o) manual percent = some (record {
  taxable_value = round2 o.taxable_subtotal 1;
  gst_amount = round2 o.gst_amount 1;
  non_taxable_charges = round2 o.nationwide_cut 1;
  total_amount = round2 o.final_price 1;
  source = rate_option;
})
option_breakdown none manual percent = manual_breakdown manual percent

-- The first case: the price verified on site, if it came with its whole breakdown.
verified_breakdown :
    Option ℕ → Option ℕ → Option ℕ → Option ℕ → Option ChargedBreakdown → Option ChargedBreakdown
verified_breakdown (some taxable) (some gst) cut (some price) otherwise = some (record {
  taxable_value = round2 taxable 1;
  gst_amount = round2 gst 1;
  non_taxable_charges = round2 (or_default cut 0) 1;
  total_amount = round2 price 1;
  source = pickup_verification;
})
verified_breakdown _ _ _ _ otherwise = otherwise

verified_or : Option Verified → Option ChargedBreakdown → Option ChargedBreakdown
unfolding verified_breakdown
verified_or none later = later
verified_or (some v) later =
    verified_breakdown v.taxable_subtotal v.gst_amount v.nationwide_cut v.price later

unfoldable pub resolve_charged_breakdown : BreakdownCandidates → Option ChargedBreakdown
unfolding verified_or option_breakdown manual_breakdown
resolve_charged_breakdown c =
    verified_or c.verified
      (option_breakdown c.rate_option c.manual_gross_amount c.fallback_gst_percent)

le_of_mul_le : (r g d : ℕ) → 10_000 ≤ d → 2 * (r * d) ≤ 20_000 * g + d → r ≤ g
le_of_mul_le r g d h k = elim (dec_le r g) [
  | yes p ↦ p
  | no p ↦
      let more : g + 1 ≤ r = omega arith in
      absurd (omega (arith, mul-le-mul more (le_refl d), mul-le-mul (le_refl g) h))
]

pub taxable-le-gross : (gross percent : ℕ) → round2 (gross * 10_000) (10_000 + percent) ≤ gross
taxable-le-gross gross percent =
    le_of_mul_le (round2 (gross * 10_000) (10_000 + percent)) gross (10_000 + percent) (omega arith)
      (omega (arith, round2_bounds (gross * 10_000) (10_000 + percent)))

-- A manual quote is split so that the taxable value and the tax add up to the gross exactly, and
-- the tax is the fallback rate of the taxable value up to the rounding of the latter.
pub manual_breakdown_adds_up :
    (c : BreakdownCandidates) (gross : ℕ) {b : ChargedBreakdown}
    → c.verified ≡ none
    → c.rate_option ≡ none
    → c.manual_gross_amount ≡ some gross
    → resolve_charged_breakdown c ≡ some b
    → (b.taxable_value + b.gst_amount ≡ gross)
      × (b.total_amount ≡ gross)
      × (b.source ≡ manual_quote_inclusive)
      × (b.taxable_value * (10_000 + c.fallback_gst_percent) * 2
          ≤ gross * 20_000 + (10_000 + c.fallback_gst_percent))
unfolding resolve_charged_breakdown
manual_breakdown_adds_up c gross nv nr m e = ground (
  arith,
  taxable-le-gross gross c.fallback_gst_percent,
  round2_whole gross,
  round2_whole (gross - round2 (gross * 10_000) (10_000 + c.fallback_gst_percent)),
  round2_bounds (gross * 10_000) (10_000 + c.fallback_gst_percent),
)

-- A candidate that states a whole breakdown whose parts add up to its total.
abbrev pub Reconciles : BreakdownCandidates → Type 0
Reconciles c =
    ((v : Verified) (taxable gst price : ℕ)
      → c.verified ≡ some v
      → v.taxable_subtotal ≡ some taxable
      → v.gst_amount ≡ some gst
      → v.price ≡ some price
      → taxable + gst + or_default v.nationwide_cut 0 ≡ price)
    × ((o : RateOption)
        → c.rate_option ≡ some o
        → o.taxable_subtotal + o.gst_amount + o.nationwide_cut ≡ o.final_price)

later_reconciles :
    (o : Option RateOption) (manual : Option ℕ) (percent : ℕ) {b : ChargedBreakdown}
    → ((x : RateOption)
        → o ≡ some x
        → x.taxable_subtotal + x.gst_amount + x.nationwide_cut ≡ x.final_price)
    → option_breakdown o manual percent ≡ some b
    → b.taxable_value + b.gst_amount + b.non_taxable_charges ≡ b.total_amount
unfolding option_breakdown manual_breakdown
later_reconciles (some o) manual percent h e = ground (
  arith,
  h o refl,
  round2_whole o.taxable_subtotal,
  round2_whole o.gst_amount,
  round2_whole o.nationwide_cut,
  round2_whole o.final_price,
)
later_reconciles none none percent h e = cc
later_reconciles none (some gross) percent h e = ground (
  arith,
  taxable-le-gross gross percent,
  round2_whole gross,
  round2_whole (gross - round2 (gross * 10_000) (10_000 + percent)),
)

verified_reconciles :
    (taxable gst cut price : Option ℕ) (otherwise : Option ChargedBreakdown) {b : ChargedBreakdown}
    → ((t g p : ℕ)
        → taxable ≡ some t
        → gst ≡ some g
        → price ≡ some p
        → t + g + or_default cut 0 ≡ p)
    → ((x : ChargedBreakdown)
        → otherwise ≡ some x
        → x.taxable_value + x.gst_amount + x.non_taxable_charges ≡ x.total_amount)
    → verified_breakdown taxable gst cut price otherwise ≡ some b
    → b.taxable_value + b.gst_amount + b.non_taxable_charges ≡ b.total_amount
unfolding verified_breakdown
verified_reconciles (some t) (some g) cut (some p) otherwise h k e = ground (
  arith,
  h t g p refl refl refl,
  round2_whole t,
  round2_whole g,
  round2_whole p,
  round2_whole (or_default cut 0),
)
verified_reconciles (some t) (some g) cut none otherwise h k e = k _ e
verified_reconciles (some t) none cut price otherwise h k e = k _ e
verified_reconciles none gst cut price otherwise h k e = k _ e

verified_or_reconciles :
    (verified : Option Verified) (later : Option ChargedBreakdown) {b : ChargedBreakdown}
    → ((v : Verified) (t g p : ℕ)
        → verified ≡ some v
        → v.taxable_subtotal ≡ some t
        → v.gst_amount ≡ some g
        → v.price ≡ some p
        → t + g + or_default v.nationwide_cut 0 ≡ p)
    → ((x : ChargedBreakdown)
        → later ≡ some x
        → x.taxable_value + x.gst_amount + x.non_taxable_charges ≡ x.total_amount)
    → verified_or verified later ≡ some b
    → b.taxable_value + b.gst_amount + b.non_taxable_charges ≡ b.total_amount
unfolding verified_or
verified_or_reconciles none later h k e = k _ e
verified_or_reconciles (some v) later h k e =
    verified_reconciles v.taxable_subtotal v.gst_amount v.nationwide_cut v.price later
      (λ t g p. h v t g p refl) k e

-- Whatever candidate it is taken from, the breakdown that an invoice states adds up: taxable
-- value, tax and untaxed charges make the total, if the parts of each complete candidate make
-- that candidate's total.
pub resolve_charged_breakdown-Reconciles :
    (c : BreakdownCandidates) {b : ChargedBreakdown}
    → Reconciles c
    → resolve_charged_breakdown c ≡ some b
    → b.taxable_value + b.gst_amount + b.non_taxable_charges ≡ b.total_amount
unfolding resolve_charged_breakdown
resolve_charged_breakdown-Reconciles c h e =
    verified_or_reconciles c.verified
      (option_breakdown c.rate_option c.manual_gross_amount c.fallback_gst_percent) h.0
      (λ x. later_reconciles c.rate_option c.manual_gross_amount c.fallback_gst_percent h.1) e
