-- ===== src/Gst/Split.antt =====
-- `splitGst`: one charged amount of tax over the columns CGST, SGST and IGST.
-- Amounts are paise and rates hundredths of a percent.
use nation_wide.Common.{
  ℕ, ◌+◌, ◌-◌, ◌*◌, ◌≤◌, ◌≡◌, Bool, true, false, not, arith, ◌==◌, if◌then◌else◌,
}
use nation_wide.Money.{round2, round2_bounds, round2_whole}

pub record GstSplit : Type 0 where
  pub cgst_rate : ℕ
  pub cgst_amount : ℕ
  pub sgst_rate : ℕ
  pub sgst_amount : ℕ
  pub igst_rate : ℕ
  pub igst_amount : ℕ
  pub total_tax : ℕ

effective_rate : ℕ → ℕ → ℕ
effective_rate total taxable = if taxable == 0 then 0 else round2 (total * 10_000) taxable

-- `totalTax - cgstAmount` does not go below zero: see `split_gst_adds_up`.
unfoldable pub split_gst : ℕ → ℕ → Bool → GstSplit
unfolding effective_rate
split_gst taxable_value gst_amount is_intra_state =
    let total = round2 gst_amount 1 in
    let rate = effective_rate total taxable_value in
    let half = round2 rate 2 in
    let cgst = round2 total 2 in
    if not is_intra_state
    then record {
      cgst_rate = 0;
      cgst_amount = 0;
      sgst_rate = 0;
      sgst_amount = 0;
      igst_rate = rate;
      igst_amount = total;
      total_tax = total;
    }
    else record {
      cgst_rate = half;
      cgst_amount = cgst;
      sgst_rate = half;
      sgst_amount = round2 (total - cgst) 1;
      igst_rate = 0;
      igst_amount = 0;
      total_tax = total;
    }

-- The columns add up to exactly the tax that was charged; inside a state the two halves differ by
-- at most a paisa, CGST taking the odd one, and there is no IGST; between states there is IGST
-- alone.
pub split_gst_adds_up :
    (taxable gst : ℕ) (intra : Bool)
    → let s = split_gst taxable gst intra in
      (s.cgst_amount + s.sgst_amount + s.igst_amount ≡ gst)
      × (s.total_tax ≡ gst)
      × (s.sgst_amount ≤ s.cgst_amount)
      × (s.cgst_amount ≤ s.sgst_amount + 1)
      × (intra ≡ true → s.igst_amount ≡ 0)
      × (intra ≡ false → s.cgst_amount ≡ 0)
unfolding split_gst
split_gst_adds_up taxable gst intra =
    ground (arith, round2_whole gst, round2_whole (gst - round2 gst 2), round2_bounds gst 2)
