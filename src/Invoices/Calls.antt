-- ===== src/Invoices/Calls.antt =====
-- Sequences of calls, while other services change the orders and the file store comes and goes.
use nation_wide.Common.{ℕ, Bool, Option, List, [], ◌∷◌, All, String}
use nation_wide.Store.{PaymentMethod}
use nation_wide.Invoices.Books.{
  BilledCustomer, OrderForInvoice, InvoiceBody, Invoice, Receipt, Counters, Books, CompanySettings,
  Billed, ok, err,
}
use nation_wide.Invoices.Order.{generate_for_order}
use nation_wide.Invoices.Custom.{CustomInvoice, issue_custom}
use nation_wide.Invoices.Consolidated.{issue_consolidated}
use nation_wide.Invoices.Documents.{read_pdf, send_to_whats_app, cancel}
use nation_wide.Invoices.Receipts.{
  issue_for_order_payment, issue_for_invoice, send_receipt, issue_and_send_quietly,
}
use nation_wide.Invoices.Rules.{Any, Stable, Inv, Post}
use nation_wide.Invoices.Keeps.{GoodBodies, generates, issues_custom}
use nation_wide.Invoices.Together.{
  issues_consolidated, reads_pdf, sends, cancels, receipts_payment, receipts_invoice, sends_receipt,
  receipts_quietly,
}

pub data Call : Type 0 where
  generate : ℕ → ℕ → Call
  custom : ℕ → CustomInvoice → Call
  consolidate : ℕ → ℕ → ℕ → ℕ → Option (List ℕ) → Call
  read : ℕ → Call
  send : ℕ → Call
  cancel_invoice : ℕ → String → ℕ → Call
  receipt_for_order : ℕ → ℕ → Call
  receipt_for_invoice : ℕ → ℕ → PaymentMethod → ℕ → ℕ → Call
  deliver_receipt : ℕ → Call
  receipt_quietly : ℕ → ℕ → Call
  -- What others do: the orders, the customers and the settings become these, and the file store
  -- answers or not.
  others : List OrderForInvoice → List BilledCustomer → CompanySettings → Bool → Call

unfoldable pub perform : ℕ → Call → Books → Books
perform now (generate id actor) w = (generate_for_order now actor id w).1
perform now (custom actor input) w = (issue_custom now actor input w).1
perform now (consolidate customer from to actor ids) w =
    (issue_consolidated now customer from to actor ids w).1
perform now (read id) w = (read_pdf id w).1
perform now (send id) w = (send_to_whats_app now id w).1
perform now (cancel_invoice id reason actor) w = (cancel now id reason actor w).1
perform now (receipt_for_order id actor) w = (issue_for_order_payment now id actor w).1
perform now (receipt_for_invoice id amount method received actor) w =
    (issue_for_invoice id amount method received actor w).1
perform now (deliver_receipt id) w = (send_receipt now id w).1
perform now (receipt_quietly id actor) w = (issue_and_send_quietly now id actor w).1
perform now (others orders customers settings up) w = record w {
  orders = orders;
  customers = customers;
  settings = settings;
  storage_up = up;
}

-- Each call with the time at which it is made.
unfoldable pub run : List (ℕ × Call) → Books → Books
unfolding perform
run [] w = w
run ((now, call) ∷ calls) w = run calls (perform now call w)

abbrev pub FineCall : (OrderForInvoice → Type 0) → ℕ × Call → Type 0
FineCall Fine (now, others orders customers settings up) = All Fine orders
FineCall Fine (now, _) = Unit

module _ (P : List Invoice → List Receipt → Counters → Type 0) (Good : InvoiceBody → Type 0)
    (Fine : OrderForInvoice → Type 0) (stable : Stable P Good) (bodies : GoodBodies Good Fine) where
  after : {A : Type 0} (res : Billed A × Books) → Post P Good Fine Any res → Inv P Good Fine res.1
  after (ok a, w) h = h.0
  after (err e, w) h = h

  perform-Inv :
      (now : ℕ) (call : Call) (w : Books)
      → FineCall Fine (now, call)
      → Inv P Good Fine w
      → Inv P Good Fine (perform now call w)
  unfolding perform
  perform-Inv now (generate id actor) w f p =
      after (generate_for_order now actor id w)
        (generates P Good Fine stable bodies now actor id w p)
  perform-Inv now (custom actor input) w f p =
      after (issue_custom now actor input w)
        (issues_custom P Good Fine stable bodies now actor input w p)
  perform-Inv now (consolidate customer from to actor ids) w f p =
      after (issue_consolidated now customer from to actor ids w)
        (issues_consolidated P Good Fine stable bodies now customer from to actor ids w p)
  perform-Inv now (read id) w f p =
      after (read_pdf id w) (reads_pdf P Good Fine stable bodies id w p)
  perform-Inv now (send id) w f p =
      after (send_to_whats_app now id w) (sends P Good Fine stable bodies now id w p)
  perform-Inv now (cancel_invoice id reason actor) w f p =
      after (cancel now id reason actor w)
        (cancels P Good Fine stable bodies now id reason actor w p)
  perform-Inv now (receipt_for_order id actor) w f p =
      after (issue_for_order_payment now id actor w)
        (receipts_payment P Good Fine stable bodies now id actor w p)
  perform-Inv now (receipt_for_invoice id amount method received actor) w f p =
      after (issue_for_invoice id amount method received actor w)
        (receipts_invoice P Good Fine stable bodies id amount method received actor w p)
  perform-Inv now (deliver_receipt id) w f p =
      after (send_receipt now id w) (sends_receipt P Good Fine stable bodies now id w p)
  perform-Inv now (receipt_quietly id actor) w f p =
      after (issue_and_send_quietly now id actor w)
        (receipts_quietly P Good Fine stable bodies now id actor w p)
  perform-Inv now (others orders customers settings up) w f p = (p.0, f)

  pub run-Inv :
      (calls : List (ℕ × Call)) (w : Books)
      → All (FineCall Fine) calls
      → Inv P Good Fine w
      → Inv P Good Fine (run calls w)
  unfolding run
  run-Inv [] w f p = p
  run-Inv ((now, call) ∷ calls) w f p =
      run-Inv calls (perform now call w) f.1 (perform-Inv now call w f.0 p)
