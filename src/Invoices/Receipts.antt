-- ===== src/Invoices/Receipts.antt =====
-- `ReceiptsService`: the receipt of a payment, in a series of its own.
use nation_wide.Common.{
  ℕ, ◌+◌, Bool, true, false, not, ◌&&◌, Option, none, some, List, ◌∷◌, find, ◌==◌, if◌then◌else◌,
  or_default,
}
use nation_wide.Money.{round2}
use nation_wide.Store.{PaymentMethod}
use nation_wide.Invoices.Calendar.{indian_financial_year}
use nation_wide.Invoices.Numbering.{Text, codes, financial_year_text, format_invoice_number}
use nation_wide.Invoices.Books.{
  Invoice, Receipt, OrderForInvoice, BillingError, not_paid, no_amount, no_pdf, ok, B, pure, raise,
  gets, found, ◌>>=◌, ◌>>◌, raise_if, modify, log, next_receipt_number, put_receipt, receipt_issued,
}
use nation_wide.Invoices.Issue.{store_pdf}
use nation_wide.Invoices.Order.{is_order, bills_order}
use nation_wide.Invoices.Consolidated.{is_paid_status}
use nation_wide.Invoices.Documents.{is_cancelled, has_id}

-- What the two ways to issue a receipt hand to `create`.
pub record ReceiptInput : Type 0 where
  pub customer_id : ℕ
  pub order_id : Option ℕ
  pub invoice_id : Option ℕ
  pub amount : ℕ
  pub payment_method : PaymentMethod
  pub received_at : ℕ

unfoldable pub new_receipt : ℕ → ℕ → ℕ → ReceiptInput → Receipt
new_receipt id sequence actor input =
    let year = indian_financial_year input.received_at in
    record {
      id = id;
      receipt_number = format_invoice_number sequence (financial_year_text year) (codes "RCP");
      sequence_number = sequence;
      financial_year = year;
      order_id = input.order_id;
      invoice_id = input.invoice_id;
      customer_id = input.customer_id;
      amount = round2 input.amount 1;
      payment_method = input.payment_method;
      received_at = input.received_at;
      recorded_by = actor;
      pdf_path = none;
      sent_at = none;
    }

unfoldable pub insert_receipt : ℕ → ℕ → ReceiptInput → B Receipt
insert_receipt sequence actor input w =
    let r = new_receipt w.next_id sequence actor input in
    (ok r, record w { receipts = r ∷ w.receipts; next_id = w.next_id + 1 })

unfoldable pub update_receipt : Receipt → (Receipt → Receipt) → B Receipt
update_receipt r change w =
    (ok (change r), record w { receipts = put_receipt r.id change w.receipts })

abbrev pub receipt_with_pdf : Text → Receipt → Receipt
receipt_with_pdf path r = record r { pdf_path = some path }

unfoldable pub render_and_store : Receipt → B Receipt
render_and_store r = do
  path ← store_pdf (codes "receipts/") r.received_at r.receipt_number
  update_receipt r (receipt_with_pdf path)

unfoldable pub create : ℕ → ReceiptInput → B Receipt
unfolding insert_receipt render_and_store store_pdf update_receipt
create actor input = do
  sequence ← next_receipt_number (indian_financial_year input.received_at)
  r ← insert_receipt sequence actor input
  render_and_store r

abbrev pub id_of : Option Invoice → Option ℕ
id_of none = none
id_of (some i) = some i.id

-- A payment of this amount for this order.
abbrev pub is_for : ℕ → ℕ → Receipt → Bool
is_for order amount r =
    (elim r.order_id [ none ↦ false | some o ↦ o == order ]) && (r.amount == amount)

abbrev pub paid_amount : Option ℕ → B ℕ
paid_amount none = raise no_amount
paid_amount (some amount) = if amount == 0 then raise no_amount else pure amount

unfoldable pub create_logged : ℕ → ReceiptInput → B Receipt
unfolding create
create_logged actor input = do r ← create actor input; log actor receipt_issued r.id; pure r

unfoldable pub create_unless : Option Receipt → ℕ → ReceiptInput → B Receipt
unfolding create_logged
create_unless (some existing) actor input = pure existing
create_unless none actor input = create_logged actor input

abbrev pub input_for_order : ℕ → ℕ → OrderForInvoice → ℕ → List Invoice → ReceiptInput
input_for_order now id o amount invoices = record {
  customer_id = o.customer.id;
  order_id = some id;
  invoice_id = id_of (find (bills_order id) invoices);
  amount = amount;
  payment_method = or_default o.payment_method PaymentMethod.cash;
  received_at = or_default o.paid_at now;
}

-- The same order and amount is the same payment.
unfoldable pub issue_for_order_payment : ℕ → ℕ → ℕ → B Receipt
unfolding create_unless
issue_for_order_payment now id actor = do
  orders ← gets (λ w. w.orders)
  o ← found (find (is_order id) orders)
  raise_if (not (is_paid_status o.payment_status)) not_paid
  amount ← paid_amount o.paid_amount
  receipts ← gets (λ w. w.receipts)
  invoices ← gets (λ w. w.invoices)
  create_unless (find (is_for id amount) receipts) actor (input_for_order now id o amount invoices)

abbrev pub input_for_invoice : ℕ → PaymentMethod → ℕ → Invoice → ReceiptInput
input_for_invoice amount method received i = record {
  customer_id = i.body.recipient.id;
  order_id = none;
  invoice_id = some i.id;
  amount = amount;
  payment_method = method;
  received_at = received;
}

unfoldable pub issue_for_invoice : ℕ → ℕ → PaymentMethod → ℕ → ℕ → B Receipt
unfolding create_logged
issue_for_invoice id amount method received actor = do
  invoices ← gets (λ w. w.invoices)
  i ← found (find (has_id id) invoices)
  raise_if (is_cancelled i.status) BillingError.invoice_cancelled
  create_logged actor (input_for_invoice amount method received i)

abbrev pub has_receipt_id : ℕ → Receipt → Bool
has_receipt_id id r = r.id == id

abbrev pub sent_receipt_row : ℕ → Receipt → Receipt
sent_receipt_row now r = record r { sent_at = some now }

abbrev pub no_document : Option Text → Bool
no_document none = true
no_document (some path) = false

unfoldable pub deliver : ℕ → ℕ → Receipt → B Receipt
deliver now id r = do
  modify (λ w. record w { sent = id ∷ w.sent })
  update_receipt r (sent_receipt_row now)

unfoldable pub send_receipt : ℕ → ℕ → B Receipt
unfolding deliver update_receipt
send_receipt now id = do
  receipts ← gets (λ w. w.receipts)
  r ← found (find (has_receipt_id id) receipts)
  raise_if (no_document r.pdf_path) no_pdf
  deliver now id r

-- Neither half of it can fail the payment that it belongs to.
unfoldable pub issue_and_send_quietly : ℕ → ℕ → ℕ → B (Unit {0})
unfolding issue_for_order_payment send_receipt
issue_and_send_quietly now id actor w =
    let res = (issue_for_order_payment now id actor >>= λ r. send_receipt now r.id) w in
    (ok tt, res.1)
