-- ===== src/Examples/Invoices.antt =====
-- A customer with two paid parcels, and the invoices for them.
use nation_wide.Common.{
  ℕ, ◌+◌, ◌*◌, ◌≤◌, ◌<◌, ◌≡◌, ◌↔◌, refl, true, false, none, some, List, [], ◌∷◌, All, AllPairs,
  arith, ◌⊎◌, inr,
}
use nation_wide.Gst.{RateOption, resolve_charged_breakdown}
use nation_wide.Store.{OrderStatus, PaymentStatus, PaymentMethod}
use nation_wide.Invoices.Calendar.{indian_financial_year, april_first, indian_financial_year_iff}
use nation_wide.Invoices.Numbering.{codes, financial_year_text, format_invoice_number}
use nation_wide.Invoices.Numbering.RoundTrip.{
  read_invoice_number, read_invoice_number-format_invoice_number,
}
use nation_wide.Invoices.Books.{
  CompanySettings, BilledCustomer, OrderForInvoice, Invoice, Books, ok, err, storage_down,
  next_invoice_number,
}
use nation_wide.Invoices.Issue.{
  require_complete_settings, issue, finish, store_pdf, insert_invoice, new_invoice,
}
use nation_wide.Invoices.Order.{generate_for_order, generate_new, issue_for_order}
use nation_wide.Invoices.Consolidated.{issue_consolidated}
use nation_wide.Invoices.Fresh.{AddsUnbilled, issue_consolidated-AddsUnbilled}
use nation_wide.Invoices.Again.{generate_for_order-again}
use nation_wide.Invoices.Calls.{
  Call, generate, consolidate, cancel_invoice, receipt_quietly, others, run,
}
use nation_wide.Invoices.Series.{IsUnbroken, run-IsUnbroken}
use nation_wide.Invoices.Distinct.{Differ, run-Differ}
use nation_wide.Invoices.Totals.{Balances, IsReconciled, run-Balances}

abbrev settings : CompanySettings
settings = record {
  gstin = some "36AABCU9603R1ZM";
  legal_name = some "NationWide";
  address = some "Hyderabad";
  state_name = some "Telangana";
  state_code = some "36";
  sac_code = some "996812";
  company_name = none;
  support_email = none;
  support_phone = none;
}

abbrev customer : BilledCustomer
customer = record { id = 5; name = "A"; phone = "1"; gstin = none; address = none }

abbrev taken : RateOption
taken = record {
  taxable_subtotal = 100_000;
  gst_amount = 18_000;
  nationwide_cut = 2_000;
  final_price = 120_000;
}

abbrev order : ℕ → OrderForInvoice
order id = record {
  id = id;
  created_at = 1_790_000_000_000;
  customer = customer;
  status = OrderStatus.confirmed;
  payment_status = PaymentStatus.paid;
  payment_method = some PaymentMethod.cash;
  paid_amount = some 119_000;
  paid_at = none;
  discount_amount = some 1_000;
  coupon_code = some "TEN";
  quote =
      some (record {
        origin_state = none;
        quoted_amount = some 120_000;
        selected_option = some taken;
      });
  pickup_request = none;
}

abbrev books : Books
books = record {
  settings = settings;
  texts = record {
    trim = λ s. s;
    to_lower_case = λ s. s;
    single_spaces = λ s. s;
    ampersands_to_and = λ s. s;
  };
  gst_percent = none;
  storage_up = false;
  orders = order 1 ∷ order 2 ∷ [];
  customers = customer ∷ [];
  invoices = [];
  lines = [];
  receipts = [];
  counters = record { invoice = λ y. 0; receipt = λ y. 0 };
  next_id = 1;
  audit = [];
  sent = [];
}

-- The file store fails at first; then the same order is asked for again, its invoice is cancelled,
-- and the other order is billed for its period.
abbrev calls : List (ℕ × Call)
calls =
    (1_790_000_000_000, generate 1 9)
    ∷ (1_790_000_000_001, others (order 1 ∷ order 2 ∷ []) (customer ∷ []) settings true)
    ∷ (1_790_000_000_002, generate 1 9)
    ∷ (1_790_000_000_003, cancel_invoice 1 "wrong" 9)
    ∷ (1_790_000_000_004, receipt_quietly 1 9)
    ∷ (1_790_000_000_005, consolidate 5 0 1_800_000_000_000 9 none)
    ∷ []

no_invoices : IsUnbroken books.invoices books.receipts books.counters
no_invoices = (λ y. refl, λ y. refl, tt, tt)

run-IsUnbroken_example :
    IsUnbroken (run calls books).invoices (run calls books).receipts (run calls books).counters
run-IsUnbroken_example = run-IsUnbroken calls books no_invoices

run-Differ_example : AllPairs Differ (run calls books).invoices
run-Differ_example = run-Differ calls books no_invoices

order-IsReconciled : (id : ℕ) → IsReconciled (order id)
order-IsReconciled id = (λ v taxable gst price e. cc, λ o e. ground arith)

two_orders : All IsReconciled books.orders
two_orders = (order-IsReconciled 1, (order-IsReconciled 2, tt))

run-Balances_example : All (λ (i : Invoice). Balances i.body) (run calls books).invoices
run-Balances_example =
    run-Balances calls books (tt, (two_orders, (tt, (tt, (tt, (tt, tt)))))) two_orders tt

issue_consolidated-AddsUnbilled_example :
    AddsUnbilled 5 0 1_800_000_000_000 books
      (issue_consolidated 1_790_000_000_005 5 0 1_800_000_000_000 9 (some (2 ∷ [])) books).1
issue_consolidated-AddsUnbilled_example =
    issue_consolidated-AddsUnbilled 1_790_000_000_005 5 0 1_800_000_000_000 9 (some (2 ∷ [])) books
      (((λ e. ground arith), tt), (tt, tt))

store_fails : (generate_for_order 1_790_000_000_000 9 1 books).0 ≡ err storage_down
unfolding generate_for_order generate_new issue_for_order require_complete_settings
    resolve_charged_breakdown issue finish store_pdf next_invoice_number insert_invoice new_invoice
store_fails = refl

generate_for_order-again_example :
    let first = generate_for_order 1_790_000_000_000 9 1 books in
    (j : Invoice) × (generate_for_order 1_790_000_000_009 8 1 first.1 ≡ (ok j, first.1))
    × ((first.0 ≡ ok j) ⊎ (first.0 ≡ err storage_down))
generate_for_order-again_example =
    generate_for_order-again 1_790_000_000_000 9 1 1_790_000_000_009 8 books (inr store_fails)

read_invoice_number-format_invoice_number_example :
    read_invoice_number (format_invoice_number 42 (financial_year_text 2026) (codes "NW"))
    ≡ (2026, 42)
read_invoice_number-format_invoice_number_example =
    read_invoice_number-format_invoice_number 42 2026 (codes "NW") (refl, (refl, tt))

-- 31 March 2026, 20:00 UTC is 1 April in India.
indian_financial_year_iff_example : (indian_financial_year 1_774_987_200_000 ≡ 1970 + 56) ↔ (
    (april_first 56 ≤ 1_774_987_200_000 + 330 * 60_000)
    × (1_774_987_200_000 + 330 * 60_000 < april_first 57))
indian_financial_year_iff_example = indian_financial_year_iff 1_774_987_200_000 56
