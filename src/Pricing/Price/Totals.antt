-- ===== src/Pricing/Price/Totals.antt =====
-- How the price moves with its inputs.
use native.Mathlib.Nat.{mul-le-mul, le_refl}
use nation_wide.Common.{ℕ, ◌+◌, ◌*◌, ◌≤◌, ◌≡◌, false, arith}
use nation_wide.Money.{round2, round2_mono, round2_whole}
use nation_wide.Pricing.Price.Defs.{
  RateType, per_kg, flat, PriceCalculationInput, billed_kilos, resolved_rate, add_charges,
  calculate_final_price,
}

-- `round2` of a sum of whole paise changes nothing.
add_charges_lem :
    (base pss fuel gst cut : ℕ)
    → let f = round2 (base * fuel) 10_000 in
      let t = base + pss + f in
      let g = round2 (t * gst) 10_000 in
      add_charges base pss fuel gst cut ≡ record {
        base_rate = base;
        pss_amount = pss;
        fuel_charge_percent = fuel;
        fuel_charge_amount = f;
        taxable_subtotal = t;
        gst_percent = gst;
        gst_amount = g;
        nationwide_cut = cut;
        final_price = t + g + cut;
      }
unfolding add_charges
add_charges_lem base pss fuel gst cut = simp round2_whole

billed_kilos_mono : (m n : ℕ) → m ≤ n → billed_kilos m ≤ billed_kilos n
unfolding billed_kilos
billed_kilos_mono m n h = omega arith

resolved_rate_mono :
    (t : RateType) (b c m n : ℕ) → b ≤ c → m ≤ n → resolved_rate t b m ≤ resolved_rate t c n
unfolding resolved_rate
resolved_rate_mono per_kg b c m n h k =
    round2_mono _ _ 1 (omega arith) (mul-le-mul h (billed_kilos_mono m n k))
resolved_rate_mono flat b c m n h k = h

add_charges_mono :
    (b c p q f g tax m n : ℕ)
    → b ≤ c
    → p ≤ q
    → f ≤ g
    → m ≤ n
    → (add_charges b p f tax m).final_price ≤ (add_charges c q g tax n).final_price
add_charges_mono b c p q f g tax m n hb hp hf hm =
    let fuel = round2_mono (b * f) (c * g) 10_000 (omega arith) (mul-le-mul hb hf) in
    let subtotal : b + p + round2 (b * f) 10_000 ≤ c + q + round2 (c * g) 10_000 =
      omega (arith, fuel) in
    let gst =
      round2_mono ((b + p + round2 (b * f) 10_000) * tax) ((c + q + round2 (c * g) 10_000) * tax)
        10_000 (omega arith) (mul-le-mul subtotal (le_refl tax)) in
    rw (add_charges_lem b p f tax m)
      (rw (add_charges_lem c q g tax n) (omega (arith, subtotal, gst)))

abbrev pub AtMost : PriceCalculationInput → PriceCalculationInput → Type 0
AtMost i j =
    (i.rate_type ≡ j.rate_type)
    × (i.gst_percent ≡ j.gst_percent)
    × (i.base_rate ≤ j.base_rate)
    × (i.fuel_charge_percent ≤ j.fuel_charge_percent)
    × (i.pss_per_kg ≤ j.pss_per_kg)
    × (i.weight ≤ j.weight)
    × (i.nationwide_cut ≤ j.nationwide_cut)

-- For rates without tax, of one rate type and one GST, the price does not fall when the base rate,
-- the fuel charge, the surcharge, the weight or the cut rises.
pub calculate_final_price_mono :
    (i j : PriceCalculationInput)
    → i.tax_inclusive ≡ false
    → j.tax_inclusive ≡ false
    → AtMost i j
    → (calculate_final_price i).final_price ≤ (calculate_final_price j).final_price
unfolding calculate_final_price
calculate_final_price_mono i j ie je h =
    rw (ie, je, h.0, h.1)
      (add_charges_mono (resolved_rate j.rate_type i.base_rate i.weight)
        (resolved_rate j.rate_type j.base_rate j.weight) (round2 (i.pss_per_kg * i.weight) 1000)
        (round2 (j.pss_per_kg * j.weight) 1000) i.fuel_charge_percent j.fuel_charge_percent
        j.gst_percent i.nationwide_cut j.nationwide_cut
        (resolved_rate_mono j.rate_type _ _ _ _ h.2 h.5)
        (round2_mono _ _ 1000 (omega arith) (mul-le-mul h.4 h.5)) h.3 h.6)
