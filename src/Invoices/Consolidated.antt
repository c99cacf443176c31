-- ===== src/Invoices/Consolidated.antt =====
-- `issueConsolidated` and `previewConsolidated`: one invoice for a customer's paid orders of a period.
use text.Mathlib.Text.{◌==◌ as str_eq}
use nation_wide.Common.{
  ℕ, ◌+◌, Bool, true, false, not, ◌&&◌, ◌||◌, Option, none, some, List, [], ◌∷◌, ◌++◌, map, find,
  any, filter_by, sort_by, String, ◌==◌, ltb, leb, if◌then◌else◌,
}
use nation_wide.Money.{round2}
use nation_wide.Gst.{split_gst, ChargedBreakdown, resolve_charged_breakdown}
use nation_wide.Store.{PaymentStatus}
use nation_wide.Invoices.States.{StateTexts}
use nation_wide.Invoices.Books.{
  BilledCustomer, OrderForInvoice, InvoiceKind, over_period, Supplier, InvoiceBody, Invoice,
  InvoiceLine, Books, bad_period, nothing_to_bill, mixed_states, B, pure, gets, found, ◌>>=◌, ◌>>◌,
  raise_if, raise,
}
use nation_wide.Invoices.Issue.{require_complete_settings, issue}
use nation_wide.Invoices.Order.{
  is_cancelled_order, candidates_of, place_of_supply_for, place_code, is_intra, bills_order,
}
use nation_wide.Invoices.Custom.{is_customer}

pub record Billable : Type 0 where
  pub order : OrderForInvoice
  pub breakdown : ChargedBreakdown

pub data SkipReason : Type 0 where
  already_on_an_invoice no_priced_amount : SkipReason

pub record Skipped : Type 0 where
  pub order : OrderForInvoice
  pub reason : SkipReason

pub record Collected : Type 0 where
  pub billable : List Billable
  pub skipped : List Skipped

abbrev pub is_paid_status : PaymentStatus → Bool
is_paid_status PaymentStatus.paid = true
is_paid_status PaymentStatus.pending = false
is_paid_status PaymentStatus.failed = false
is_paid_status PaymentStatus.refunded = false

-- The query's conditions.
abbrev pub is_candidate : ℕ → ℕ → ℕ → OrderForInvoice → Bool
is_candidate customer from to o =
    (o.customer.id == customer)
    && leb from o.created_at
    && leb o.created_at to
    && not (is_cancelled_order o.status)
    && is_paid_status o.payment_status

abbrev pub is_line_of : ℕ → InvoiceLine → Bool
is_line_of id l = l.order_id == id

-- An invoice of its own, or a line on another.
unfoldable pub already_billed : Books → ℕ → Bool
already_billed w id = any (bills_order id) w.invoices || any (is_line_of id) w.lines

unfoldable pub sort_out_priced : OrderForInvoice → Option ChargedBreakdown → Collected → Collected
sort_out_priced o none c = record c {
  skipped = record { order = o; reason = no_priced_amount } ∷ c.skipped;
}
sort_out_priced o (some b) c = record c {
  billable = record { order = o; breakdown = b } ∷ c.billable;
}

-- The loop over the orders.
unfoldable pub sort_out : Books → List OrderForInvoice → Collected
unfolding sort_out_priced already_billed
sort_out w [] = record { billable = []; skipped = [] }
sort_out w (o ∷ os) =
    let rest = sort_out w os in
    if already_billed w o.id
    then record rest {
      skipped = record { order = o; reason = already_on_an_invoice } ∷ rest.skipped;
    }
    else sort_out_priced o (resolve_charged_breakdown (candidates_of o)) rest

-- The query: the orders of the period, the oldest first.
abbrev pub candidates : ℕ → ℕ → ℕ → Books → List OrderForInvoice
candidates customer from to w =
    sort_by (λ (o : OrderForInvoice). o.created_at)
      (filter_by (is_candidate customer from to) w.orders)

unfoldable pub collect_for : ℕ → ℕ → ℕ → BilledCustomer → B (BilledCustomer × Collected)
unfolding sort_out
collect_for customer from to c = gets (λ w. (c, sort_out w (candidates customer from to w)))

unfoldable pub collect_consolidatable : ℕ → ℕ → ℕ → B (BilledCustomer × Collected)
unfolding collect_for
collect_consolidatable customer from to = do
  raise_if (ltb to from) bad_period
  customers ← gets (λ w. w.customers)
  c ← found (find (is_customer customer) customers)
  collect_for customer from to c

-- The rows that were ticked, or all.
abbrev pub selected : Option (List ℕ) → List Billable → List Billable
selected none bs = bs
selected (some ids) bs = filter_by (λ b. any (λ id. id == b.order.id) ids) bs

abbrev pub total_of : (Billable → ℕ) → List Billable → ℕ
total_of f [] = 0
total_of f (b ∷ bs) = f b + total_of f bs

abbrev pub line_of : ℕ → Billable → InvoiceLine
line_of invoice b = record {
  invoice_id = invoice;
  order_id = b.order.id;
  supply_date = b.order.created_at;
  taxable_value = round2 b.breakdown.taxable_value 1;
  non_taxable_charges = round2 b.breakdown.non_taxable_charges 1;
}

abbrev pub lines_of : List Billable → ℕ → List InvoiceLine
lines_of bs invoice = map (line_of invoice) bs

-- The tax is taken once, of the sums.
unfoldable pub consolidated_body :
    StateTexts → Supplier → BilledCustomer → ℕ → ℕ → String → List Billable → InvoiceBody
consolidated_body t s c from to place bs =
    let code = place_code t s place in
    let taxable = round2 (total_of (λ b. b.breakdown.taxable_value) bs) 1 in
    let gst = round2 (total_of (λ b. b.breakdown.gst_amount) bs) 1 in
    let untaxed = round2 (total_of (λ b. b.breakdown.non_taxable_charges) bs) 1 in
    let split = split_gst taxable gst (is_intra s code) in
    record {
      kind = InvoiceKind.consolidated;
      order_id = none;
      recipient = c;
      description = none;
      custom_lines = [];
      period = some (from, to);
      place_of_supply_state = place;
      place_of_supply_code = code;
      taxable_value = taxable;
      split = split;
      non_taxable_charges = untaxed;
      discount_amount = 0;
      discount_code = none;
      total_amount = round2 (taxable + split.total_tax + untaxed) 1;
      source = over_period;
    }

-- `placesOfSupply.size > 1`.
abbrev pub is_mixed : Supplier → String → List Billable → Bool
is_mixed s place bs = any (λ b. not (str_eq (place_of_supply_for b.order s) place)) bs

unfoldable pub bill_together : ℕ → ℕ → Supplier → BilledCustomer → ℕ → ℕ → List Billable → B Invoice
bill_together now actor s c from to [] = raise nothing_to_bill
bill_together now actor s c from to (b ∷ bs) = do
  raise_if (is_mixed s (place_of_supply_for b.order s) bs) mixed_states
  t ← gets (λ w. w.texts)
  issue now actor s (consolidated_body t s c from to (place_of_supply_for b.order s) (b ∷ bs))
      (lines_of (b ∷ bs))

unfoldable pub issue_consolidated : ℕ → ℕ → ℕ → ℕ → ℕ → Option (List ℕ) → B (Invoice × List Skipped)
unfolding collect_consolidatable bill_together
issue_consolidated now customer from to actor ids = do
  collected ← collect_consolidatable customer from to
  s ← require_complete_settings
  i ← bill_together now actor s collected.0 from to (selected ids collected.1.billable)
  pure (i, collected.1.skipped)

pub record PreviewRow : Type 0 where
  pub order_id : ℕ
  pub place_of_supply : String
  pub created_at : ℕ
  pub amount : Option ℕ
  pub blocked_reason : Option SkipReason

abbrev billable_row : Supplier → Billable → PreviewRow
billable_row s b = record {
  order_id = b.order.id;
  place_of_supply = place_of_supply_for b.order s;
  created_at = b.order.created_at;
  amount = some (round2 (b.breakdown.taxable_value + b.breakdown.non_taxable_charges) 1);
  blocked_reason = none;
}

abbrev skipped_row : Supplier → Skipped → PreviewRow
skipped_row s k = record {
  order_id = k.order.id;
  place_of_supply = place_of_supply_for k.order s;
  created_at = k.order.created_at;
  amount = none;
  blocked_reason = some k.reason;
}

unfoldable pub preview_consolidated : ℕ → ℕ → ℕ → B (List PreviewRow)
unfolding collect_consolidatable
preview_consolidated customer from to = do
  collected ← collect_consolidatable customer from to
  s ← require_complete_settings
  pure (
      sort_by (λ (r : PreviewRow). r.created_at)
        (map (billable_row s) collected.1.billable ++ map (skipped_row s) collected.1.skipped))
