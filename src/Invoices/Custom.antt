-- ===== src/Invoices/Custom.antt =====
-- `issueCustom`: an invoice with no order behind it, and `customInvoiceTotal` of
-- packages/shared-types/src/invoice.ts.
use nation_wide.Common.{
  ℕ, ◌+◌, ◌-◌, ◌*◌, Bool, Option, none, some, List, [], ◌∷◌, find, String, ◌==◌, if◌then◌else◌,
  or_default, length,
}
use nation_wide.Money.{round2}
use nation_wide.Gst.{split_gst, custom}
use nation_wide.Invoices.States.{StateTexts, is_blank}
use nation_wide.Invoices.Books.{
  BilledCustomer, CustomInvoiceLine, InvoiceKind, charged, Supplier, Description, typed,
  freight_charges, InvoiceBody, Invoice, no_amount, no_description, B, pure, raise, gets, found,
  ◌>>=◌, ◌>>◌, raise_if,
}
use nation_wide.Invoices.Issue.{require_complete_settings, issue}
use nation_wide.Invoices.Order.{default_gst_percent, place_code, is_intra, no_lines}

unfoldable pub custom_invoice_line_total : CustomInvoiceLine → ℕ
custom_invoice_line_total l =
    round2 (l.amount + or_default l.other_charges 0 + or_default l.pss 0 + or_default l.fsc 0) 1

sum_from : ℕ → List CustomInvoiceLine → ℕ
sum_from acc [] = acc
sum_from acc (l ∷ ls) = sum_from (acc + custom_invoice_line_total l) ls

unfoldable pub custom_invoice_total : List CustomInvoiceLine → ℕ
unfolding sum_from custom_invoice_line_total
custom_invoice_total lines = round2 (sum_from 0 lines) 1

pub record CustomInvoice : Type 0 where
  pub customer_id : ℕ
  pub gross_amount : Option ℕ
  pub description : Option String
  pub lines : List CustomInvoiceLine
  pub place_of_supply_state : Option String

unfoldable pub gross_of : Option ℕ → List CustomInvoiceLine → ℕ
gross_of amount [] = or_default amount 0
gross_of amount (l ∷ ls) = custom_invoice_total (l ∷ ls)

default_description : List CustomInvoiceLine → Option Description
default_description [] = none
default_description (l ∷ ls) = some (freight_charges (length (l ∷ ls)))

unfoldable pub description_of :
    StateTexts → Option String → List CustomInvoiceLine → Option Description
unfolding default_description
description_of t none ls = default_description ls
description_of t (some d) ls =
    if is_blank (t.trim d) then default_description ls else some (typed (t.trim d))

unfoldable pub custom_body :
    StateTexts → ℕ → Supplier → BilledCustomer → CustomInvoice → Description → InvoiceBody
custom_body t percent s c input description =
    let gross = gross_of input.gross_amount input.lines in
    let taxable = round2 (gross * 10_000) (10_000 + percent) in
    let place = or_default input.place_of_supply_state s.state_name in
    let code = place_code t s place in
    record {
      kind = InvoiceKind.order;
      order_id = none;
      recipient = c;
      description = some description;
      custom_lines = input.lines;
      period = none;
      place_of_supply_state = place;
      place_of_supply_code = code;
      taxable_value = taxable;
      split = split_gst taxable (round2 (gross - taxable) 1) (is_intra s code);
      non_taxable_charges = 0;
      discount_amount = 0;
      discount_code = none;
      total_amount = round2 gross 1;
      source = charged custom;
    }

abbrev pub is_customer : ℕ → BilledCustomer → Bool
is_customer id c = c.id == id

abbrev pub described : Option Description → B Description
described none = raise no_description
described (some d) = pure d

unfoldable pub issue_custom : ℕ → ℕ → CustomInvoice → B Invoice
unfolding description_of
issue_custom now actor input = do
  s ← require_complete_settings
  customers ← gets (λ w. w.customers)
  c ← found (find (is_customer input.customer_id) customers)
  raise_if (gross_of input.gross_amount input.lines == 0) no_amount
  t ← gets (λ w. w.texts)
  description ← described (description_of t input.description input.lines)
  percent ← gets (λ w. or_default w.gst_percent default_gst_percent)
  issue now actor s (custom_body t percent s c input description) no_lines
