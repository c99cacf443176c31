-- ===== src/Invoices/Documents.antt =====
-- Reading, sending and cancelling an invoice.
use nation_wide.Common.{
  ℕ, Bool, true, false, not, Option, none, some, List, [], ◌∷◌, find, String, ◌==◌, if◌then◌else◌,
}
use nation_wide.Invoices.Numbering.{Text, codes, filename_for}
use nation_wide.Invoices.Books.{
  InvoiceStatus, Invoice, invoice_cancelled, Books, BillingError, no_pdf, storage_down, not_found,
  Billed, ok, err, B, pure, gets, found, ◌>>=◌, ◌>>◌, raise_if, modify, log,
}
use nation_wide.Invoices.Issue.{store_pdf, update_invoice, with_pdf}

abbrev pub is_cancelled : InvoiceStatus → Bool
is_cancelled InvoiceStatus.cancelled = true
is_cancelled InvoiceStatus.issued = false

abbrev pub has_id : ℕ → Invoice → Bool
has_id id i = i.id == id

unfoldable pub find_one : ℕ → B Invoice
find_one id = λ w. found (find (has_id id) w.invoices) w

-- A missing document is made up for from the invoice's own columns, and only a missing one.
unfoldable pub read_by : Option Text → Invoice → B Text
unfolding store_pdf update_invoice
read_by none i = do
  path ← store_pdf (codes "invoices/") i.invoice_date i.invoice_number
  update_invoice i (with_pdf path)
  pure (filename_for i.invoice_number)
read_by (some path) i = do
  up ← gets (λ w. w.storage_up)
  raise_if (not up) storage_down
  pure (filename_for i.invoice_number)

unfoldable pub read_pdf : ℕ → B Text
unfolding find_one read_by
read_pdf id = do i ← find_one id; read_by i.pdf_path i

unfoldable pub read_pdf_for_customer : ℕ → ℕ → B Text
unfolding find_one read_pdf
read_pdf_for_customer id customer = do
  i ← find_one id
  raise_if (not (i.body.recipient.id == customer)) not_found
  read_pdf id

abbrev pub sent_row : ℕ → Invoice → Invoice
sent_row now i = record i { sent_at = some now }

abbrev pub is_missing : Option Text → Bool
is_missing none = true
is_missing (some path) = false

unfoldable pub send_to_whats_app : ℕ → ℕ → B Invoice
unfolding find_one update_invoice
send_to_whats_app now id = do
  i ← find_one id
  raise_if (is_cancelled i.status) BillingError.invoice_cancelled
  raise_if (is_missing i.pdf_path) no_pdf
  modify (λ w. record w { sent = id ∷ w.sent })
  update_invoice i (sent_row now)

pub record SendSummary : Type 0 where
  pub created : List ℕ
  pub failed : List ℕ

-- One failure does not stop the rest.
tally : ℕ → Billed Invoice × Books → SendSummary × Books → SendSummary × Books
tally id (ok i, w) (s, w') = (record s { created = id ∷ s.created }, w')
tally id (err e, w) (s, w') = (record s { failed = id ∷ s.failed }, w')

unfoldable pub send_many : ℕ → List ℕ → Books → SendSummary × Books
unfolding tally send_to_whats_app
send_many now [] w = (record { created = []; failed = [] }, w)
send_many now (id ∷ ids) w =
    let res = send_to_whats_app now id w in tally id res (send_many now ids res.1)

abbrev pub cancelled_row : ℕ → String → Invoice → Invoice
cancelled_row now reason i = record i {
  status = InvoiceStatus.cancelled;
  cancelled_at = some now;
  cancellation_reason = some reason;
}

unfoldable pub cancel_live : ℕ → String → ℕ → Invoice → B Invoice
unfolding update_invoice
cancel_live now reason actor i = do
  i' ← update_invoice i (cancelled_row now reason)
  log actor invoice_cancelled i.id
  pure i'

-- The number stays taken: the invoice is cancelled where it is.
unfoldable pub cancel : ℕ → ℕ → String → ℕ → B Invoice
unfolding find_one cancel_live
cancel now id reason actor = do
  i ← find_one id
  if is_cancelled i.status then pure i else cancel_live now reason actor i
