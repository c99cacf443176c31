-- ===== src/Invoices/Order.antt =====
-- `generateForOrder`: the invoice of an order.
use nation_wide.Common.{
  ℕ, ◌-◌, min, Bool, true, false, Option, none, some, List, [], find, String, ◌==◌, or_default,
}
use nation_wide.Money.{round2}
use nation_wide.Gst.{
  split_gst, BreakdownCandidates, ChargedBreakdown, Verified, RateOption, resolve_charged_breakdown,
}
use nation_wide.Store.{OrderStatus}
use nation_wide.Invoices.States.{StateTexts, gst_state_code, is_intra_state_supply}
use nation_wide.Invoices.Books.{
  BilledPickup, BilledQuote, OrderForInvoice, InvoiceKind, charged, Supplier, InvoiceBody, Invoice,
  InvoiceLine, order_cancelled, no_price, B, pure, raise, gets, found, ◌>>=◌, ◌>>◌, raise_if,
}
use nation_wide.Invoices.Issue.{require_complete_settings, issue}

-- 18 percent, in hundredths of a percent.
abbrev pub default_gst_percent : ℕ
default_gst_percent = 1_800

abbrev pub is_cancelled_order : OrderStatus → Bool
is_cancelled_order OrderStatus.cancelled = true
is_cancelled_order OrderStatus.pending = false
is_cancelled_order OrderStatus.confirmed = false
is_cancelled_order OrderStatus.completed = false

abbrev pub verified_of : Option BilledPickup → Option Verified
verified_of none = none
verified_of (some p) = some p.verified

abbrev pub option_of : Option BilledQuote → Option RateOption
option_of none = none
option_of (some q) = q.selected_option

abbrev pub or_else : {A : Type 0} → Option A → Option A → Option A
or_else none other = other
or_else (some a) other = some a

abbrev pub quoted_of : Option BilledQuote → Option ℕ
quoted_of none = none
quoted_of (some q) = q.quoted_amount

abbrev pub candidates_of : OrderForInvoice → BreakdownCandidates
candidates_of o = record {
  verified = verified_of o.pickup_request;
  rate_option = option_of o.quote;
  manual_gross_amount = or_else (quoted_of o.quote) o.paid_amount;
  fallback_gst_percent = default_gst_percent;
}

abbrev pickup_state_of : Option BilledPickup → Option String
pickup_state_of none = none
pickup_state_of (some p) = some p.pickup_state

abbrev origin_state_of : Option BilledQuote → Option String
origin_state_of none = none
origin_state_of (some q) = q.origin_state

-- The pickup's state, else the origin's, else the supplier's own.
unfoldable pub place_of_supply_for : OrderForInvoice → Supplier → String
place_of_supply_for o s =
    or_default (or_else (pickup_state_of o.pickup_request) (origin_state_of o.quote)) s.state_name

unfoldable pub place_code : StateTexts → Supplier → String → String
place_code t s place = or_default (gst_state_code t place) s.state_code

unfoldable pub is_intra : Supplier → String → Bool
is_intra s code = is_intra_state_supply (some s.state_code) (some code)

-- The coupon comes off after tax, and never takes more than the total.
unfoldable pub order_body : StateTexts → Supplier → OrderForInvoice → ChargedBreakdown → InvoiceBody
order_body t s o b =
    let place = place_of_supply_for o s in
    let code = place_code t s place in
    let discount = min (or_default o.discount_amount 0) b.total_amount in
    record {
      kind = InvoiceKind.order;
      order_id = some o.id;
      recipient = o.customer;
      description = none;
      custom_lines = [];
      period = none;
      place_of_supply_state = place;
      place_of_supply_code = code;
      taxable_value = b.taxable_value;
      split = split_gst b.taxable_value b.gst_amount (is_intra s code);
      non_taxable_charges = b.non_taxable_charges;
      discount_amount = discount;
      discount_code = o.coupon_code;
      total_amount = round2 (b.total_amount - discount) 1;
      source = charged b.source;
    }

abbrev pub no_lines : ℕ → List InvoiceLine
no_lines id = []

abbrev pub priced : {A : Type 0} → Option A → B A
priced none = raise no_price
priced (some a) = pure a

unfoldable pub issue_for_order : ℕ → ℕ → OrderForInvoice → B Invoice
issue_for_order now actor o = do
  s ← require_complete_settings
  b ← priced (resolve_charged_breakdown (candidates_of o))
  t ← gets (λ w. w.texts)
  issue now actor s (order_body t s o b) no_lines

abbrev pub bills_order : ℕ → Invoice → Bool
bills_order id i = elim i.body.order_id [ none ↦ false | some o ↦ o == id ]

abbrev pub is_order : ℕ → OrderForInvoice → Bool
is_order id o = o.id == id

unfoldable pub generate_new : ℕ → ℕ → ℕ → B Invoice
unfolding issue_for_order
generate_new now actor id = do
  orders ← gets (λ w. w.orders)
  o ← found (find (is_order id) orders)
  raise_if (is_cancelled_order o.status) order_cancelled
  issue_for_order now actor o

unfoldable pub generate_by : Option Invoice → ℕ → ℕ → ℕ → B Invoice
generate_by (some existing) now actor id = pure existing
generate_by none now actor id = generate_new now actor id

-- An order that has an invoice keeps it.
unfoldable pub generate_for_order : ℕ → ℕ → ℕ → B Invoice
unfolding generate_by
generate_for_order now actor id = do
  invoices ← gets (λ w. w.invoices)
  generate_by (find (bills_order id) invoices) now actor id
