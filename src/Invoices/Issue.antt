-- ===== src/Invoices/Issue.antt =====
-- What every invoice takes: the supplier's details, a number, a stored document, an audit entry.
use nation_wide.Common.{
  ℕ, ◌+◌, ◌/◌, Bool, true, false, Option, none, some, List, ◌∷◌, ◌++◌, String, if◌then◌else◌,
}
use nation_wide.Invoices.Calendar.{civil_year, get_utc_month, leap, day_ms, indian_financial_year}
use nation_wide.Invoices.Numbering.{
  Text, codes, decimal, pad_start, financial_year_text, format_invoice_number, filename_for,
}
use nation_wide.Invoices.States.{is_blank}
use nation_wide.Invoices.Books.{
  Supplier, InvoiceBody, Invoice, InvoiceStatus, InvoiceLine, B, ok, settings_incomplete,
  storage_down, pure, raise, ◌>>=◌, ◌>>◌, log, next_invoice_number, put_invoice, invoice_issued,
}

abbrev pub when_present : {A : Type 0} → Option String → (String → B A) → B A
when_present none k = raise settings_incomplete
when_present (some s) k = if is_blank s then raise settings_incomplete else k s

-- The settings, refused unless all that a tax invoice must state is there.
unfoldable pub require_complete_settings : B Supplier
require_complete_settings b =
    (when_present b.settings.gstin λ gstin. when_present b.settings.legal_name λ name.
        when_present b.settings.address λ address. when_present b.settings.state_name λ state_name.
          when_present b.settings.state_code λ state_code.
            when_present b.settings.sac_code λ sac_code. pure (record {
              name = name;
              gstin = gstin;
              address = address;
              state_name = state_name;
              state_code = state_code;
              sac_code = sac_code;
              email = b.settings.support_email;
              phone = b.settings.support_phone;
            }))
      b

-- "invoices/2026/09/NW-2026-27-00042.pdf".
unfoldable pub storage_key_for : Text → ℕ → Text → Text
unfolding civil_year leap
storage_key_for folder date number =
    let (year, day) = civil_year (date / day_ms) in
    folder
    ++ (decimal year
        ++ (b'/'
            ∷ (pad_start 2 (decimal (get_utc_month year day + 1)) ++ (b'/' ∷ filename_for number))))

-- `storePdf`, once the document is rendered: the file store may refuse it.
abbrev pub stored : Bool → Text → B Text
stored true key = pure key
stored false key = raise storage_down

unfoldable pub store_pdf : Text → ℕ → Text → B Text
store_pdf folder date number w = stored w.storage_up (storage_key_for folder date number) w

unfoldable pub new_invoice : ℕ → ℕ → ℕ → ℕ → Supplier → InvoiceBody → Invoice
new_invoice id sequence now actor supplier body = record {
  id = id;
  invoice_number =
      format_invoice_number sequence (financial_year_text (indian_financial_year now)) (codes "NW");
  sequence_number = sequence;
  financial_year = indian_financial_year now;
  invoice_date = now;
  supplier = supplier;
  body = body;
  status = InvoiceStatus.issued;
  issued_by = actor;
  pdf_path = none;
  sent_at = none;
  cancelled_at = none;
  cancellation_reason = none;
}

-- `invoice.create`, with the lines of a consolidated invoice.
unfoldable pub insert_invoice :
    ℕ → ℕ → ℕ → Supplier → InvoiceBody → (ℕ → List InvoiceLine) → B Invoice
insert_invoice sequence now actor supplier body lines b =
    let i = new_invoice b.next_id sequence now actor supplier body in
    (
      ok i,
      record b {
        invoices = i ∷ b.invoices;
        lines = lines b.next_id ++ b.lines;
        next_id = b.next_id + 1;
      },
    )

unfoldable pub update_invoice : Invoice → (Invoice → Invoice) → B Invoice
update_invoice i change b =
    (ok (change i), record b { invoices = put_invoice i.id change b.invoices })

abbrev pub with_pdf : Text → Invoice → Invoice
with_pdf path i = record i { pdf_path = some path }

-- The document, the audit entry and the document's place.
unfoldable pub finish : ℕ → Invoice → B Invoice
finish actor i = do
  path ← store_pdf (codes "invoices/") i.invoice_date i.invoice_number
  log actor invoice_issued i.id
  update_invoice i (with_pdf path)

-- The number comes first, then the row: what fails later does not take them back.
unfoldable pub issue : ℕ → ℕ → Supplier → InvoiceBody → (ℕ → List InvoiceLine) → B Invoice
unfolding insert_invoice finish store_pdf update_invoice
issue now actor supplier body lines = do
  sequence ← next_invoice_number (indian_financial_year now)
  i ← insert_invoice sequence now actor supplier body lines
  finish actor i
