-- ===== src/Examples/Gst.antt =====
-- Invoices of a thousand rupees and some paise.
use nation_wide.Common.{◌+◌, ◌≡◌, refl, none, some, arith}
use nation_wide.Money.{round2}
use nation_wide.Gst.{
  BreakdownCandidates, ChargedBreakdown, manual_quote_inclusive, pickup_verification,
  resolve_charged_breakdown, Reconciles, resolve_charged_breakdown-Reconciles,
}

abbrev by_hand : BreakdownCandidates
by_hand = record {
  verified = none;
  rate_option = none;
  manual_gross_amount = some 100_000;
  fallback_gst_percent = 1_800;
}

abbrev billed : ChargedBreakdown
billed = record {
  taxable_value = 84_746;
  gst_amount = 15_254;
  non_taxable_charges = 0;
  total_amount = 100_000;
  source = manual_quote_inclusive;
}

by_hand-billed : resolve_charged_breakdown by_hand ≡ some billed
unfolding resolve_charged_breakdown round2
by_hand-billed = refl

abbrev on_site : BreakdownCandidates
on_site = record {
  verified = some (record {
    taxable_subtotal = some 100_000;
    gst_amount = some 18_000;
    nationwide_cut = some 2_000;
    price = some 120_000;
  });
  rate_option = none;
  manual_gross_amount = none;
  fallback_gst_percent = 1_800;
}

abbrev verified_bill : ChargedBreakdown
verified_bill = record {
  taxable_value = 100_000;
  gst_amount = 18_000;
  non_taxable_charges = 2_000;
  total_amount = 120_000;
  source = pickup_verification;
}

on_site-billed : resolve_charged_breakdown on_site ≡ some verified_bill
unfolding resolve_charged_breakdown round2
on_site-billed = refl

on_site-Reconciles : Reconciles on_site
on_site-Reconciles = (λ v taxable gst price e a b c. ground arith, λ o e. cc)

resolve_charged_breakdown-Reconciles_example : 100_000 + 18_000 + 2_000 ≡ verified_bill.total_amount
resolve_charged_breakdown-Reconciles_example =
    resolve_charged_breakdown-Reconciles on_site on_site-Reconciles on_site-billed
