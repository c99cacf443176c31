-- ===== src/Invoices/Books.antt =====
-- The rows that invoicing reads and writes, and calls on them as state passing with errors.
use nation_wide.Common.{
  ℕ, ◌+◌, Bool, true, false, Option, none, some, List, [], ◌∷◌, String, ◌==◌, if◌then◌else◌,
}
use nation_wide.Gst.{GstSplit, BreakdownSource, Verified, RateOption}
use nation_wide.Store.{OrderStatus, PaymentStatus, PaymentMethod}
use nation_wide.Invoices.Numbering.{Text}
use nation_wide.Invoices.States.{StateTexts}

pub record CompanySettings : Type 0 where
  pub gstin : Option String
  pub legal_name : Option String
  pub address : Option String
  pub state_name : Option String
  pub state_code : Option String
  pub sac_code : Option String
  pub company_name : Option String
  pub support_email : Option String
  pub support_phone : Option String

pub record BilledCustomer : Type 0 where
  pub id : ℕ
  pub name : String
  pub phone : String
  pub gstin : Option String
  pub address : Option String

pub record BilledPickup : Type 0 where
  pub verified : Verified
  pub pickup_state : String

pub record BilledQuote : Type 0 where
  pub origin_state : Option String
  pub quoted_amount : Option ℕ
  pub selected_option : Option RateOption

-- What the query `ORDER_FOR_INVOICE` joins.
pub record OrderForInvoice : Type 0 where
  pub id : ℕ
  pub created_at : ℕ
  pub customer : BilledCustomer
  pub status : OrderStatus
  pub payment_status : PaymentStatus
  pub payment_method : Option PaymentMethod
  pub paid_amount : Option ℕ
  pub paid_at : Option ℕ
  pub discount_amount : Option ℕ
  pub coupon_code : Option String
  pub quote : Option BilledQuote
  pub pickup_request : Option BilledPickup

-- A row of the freight schedule of a custom invoice: its amounts.
pub record CustomInvoiceLine : Type 0 where
  pub amount : ℕ
  pub other_charges : Option ℕ
  pub pss : Option ℕ
  pub fsc : Option ℕ

pub data InvoiceKind : Type 0 where
  order custom consolidated : InvoiceKind

pub data InvoiceStatus : Type 0 where
  issued cancelled : InvoiceStatus

-- `breakdownSource`: that of the breakdown, or CONSOLIDATED.
pub data InvoiceSource : Type 0 where
  charged : BreakdownSource → InvoiceSource
  over_period : InvoiceSource

pub record Supplier : Type 0 where
  pub name : String
  pub gstin : String
  pub address : String
  pub state_name : String
  pub state_code : String
  pub sac_code : String
  pub email : Option String
  pub phone : Option String

-- `customLineDescription`: what was typed, or "Freight charges" for so many shipments.
pub data Description : Type 0 where
  typed : String → Description
  freight_charges : ℕ → Description

-- The columns that the three ways to issue an invoice fill each in their own way.
pub record InvoiceBody : Type 0 where
  pub kind : InvoiceKind
  pub order_id : Option ℕ
  pub recipient : BilledCustomer
  pub description : Option Description
  pub custom_lines : List CustomInvoiceLine
  pub period : Option (ℕ × ℕ)
  pub place_of_supply_state : String
  pub place_of_supply_code : String
  pub taxable_value : ℕ
  pub split : GstSplit
  pub non_taxable_charges : ℕ
  pub discount_amount : ℕ
  pub discount_code : Option String
  pub total_amount : ℕ
  pub source : InvoiceSource

-- `financial_year` is the year in which it starts; its text is `financial_year_text`.
pub record Invoice : Type 0 where
  pub id : ℕ
  pub invoice_number : Text
  pub sequence_number : ℕ
  pub financial_year : ℕ
  pub invoice_date : ℕ
  pub supplier : Supplier
  pub body : InvoiceBody
  pub status : InvoiceStatus
  pub issued_by : ℕ
  pub pdf_path : Option Text
  pub sent_at : Option ℕ
  pub cancelled_at : Option ℕ
  pub cancellation_reason : Option String

pub record InvoiceLine : Type 0 where
  pub invoice_id : ℕ
  pub order_id : ℕ
  pub supply_date : ℕ
  pub taxable_value : ℕ
  pub non_taxable_charges : ℕ

pub record Receipt : Type 0 where
  pub id : ℕ
  pub receipt_number : Text
  pub sequence_number : ℕ
  pub financial_year : ℕ
  pub order_id : Option ℕ
  pub invoice_id : Option ℕ
  pub customer_id : ℕ
  pub amount : ℕ
  pub payment_method : PaymentMethod
  pub received_at : ℕ
  pub recorded_by : ℕ
  pub pdf_path : Option Text
  pub sent_at : Option ℕ

-- The rows of `counters` that billing uses: `invoice:<year>` and `receipt:<year>`.
pub record Counters : Type 0 where
  pub invoice : ℕ → ℕ
  pub receipt : ℕ → ℕ

pub data BillingAction : Type 0 where
  invoice_issued invoice_cancelled receipt_issued : BillingAction

pub record BillingLog : Type 0 where
  pub actor : ℕ
  pub action : BillingAction
  pub entity_id : ℕ

-- `storage_up` says whether the file store takes a document, which the code cannot know.
pub record Books : Type 0 where
  pub settings : CompanySettings
  pub texts : StateTexts
  pub gst_percent : Option ℕ
  pub storage_up : Bool
  pub orders : List OrderForInvoice
  pub customers : List BilledCustomer
  pub invoices : List Invoice
  pub lines : List InvoiceLine
  pub receipts : List Receipt
  pub counters : Counters
  pub next_id : ℕ
  pub audit : List BillingLog
  pub sent : List ℕ

pub data BillingError : Type 0 where
  not_found settings_incomplete nothing_to_bill mixed_states bad_period order_cancelled :
      BillingError
  no_price no_amount no_description invoice_cancelled no_pdf not_paid storage_down : BillingError

pub data Billed (A : Type 0) : Type 0 where
  ok : A → Billed A
  err : BillingError → Billed A

abbrev pub B : Type 0 → Type 0
B A = Books → Billed A × Books

module _ {A : Type 0} where
  abbrev pub pure : A → B A
  pure a b = (ok a, b)

  abbrev pub raise : BillingError → B A
  raise e b = (err e, b)

  abbrev pub gets : (Books → A) → B A
  gets f b = (ok (f b), b)

  abbrev pub found : Option A → B A
  found none b = (err not_found, b)
  found (some a) b = (ok a, b)

abbrev pub bound : {A C : Type 0} → (A → B C) → Billed A × Books → Billed C × Books
bound f (ok a, b) = f a b
bound f (err e, b) = (err e, b)

infixl 5 ◌>>=◌ ◌>>◌
abbrev pub ◌>>=◌ : {A C : Type 0} → B A → (A → B C) → B C
◌>>=◌ m f b = bound f (m b)

abbrev pub ◌>>◌ : {A C : Type 0} → B A → B C → B C
m >> k = m >>= λ _. k

abbrev pub raise_if : Bool → BillingError → B (Unit {0})
raise_if true e b = (err e, b)
raise_if false e b = (ok tt, b)

abbrev pub modify : (Books → Books) → B (Unit {0})
modify f b = (ok tt, f b)

abbrev pub log : ℕ → BillingAction → ℕ → B (Unit {0})
log actor action id =
    modify
      λ b. record b { audit = record { actor = actor; action = action; entity_id = id } ∷ b.audit }

-- `INSERT INTO counters … ON CONFLICT DO UPDATE SET value = counters.value + 1 RETURNING value`.
abbrev pub bump : (ℕ → ℕ) → ℕ → ℕ → ℕ
bump counter name k = if k == name then counter k + 1 else counter k

unfoldable pub next_invoice_number : ℕ → B ℕ
next_invoice_number year b = (
  ok (b.counters.invoice year + 1),
  record b { counters = record b.counters { invoice = bump b.counters.invoice year } },
)

unfoldable pub next_receipt_number : ℕ → B ℕ
next_receipt_number year b = (
  ok (b.counters.receipt year + 1),
  record b { counters = record b.counters { receipt = bump b.counters.receipt year } },
)

-- An `update` of the row with the id.
abbrev pub put_invoice : ℕ → (Invoice → Invoice) → List Invoice → List Invoice
put_invoice id change [] = []
put_invoice id change (i ∷ is) =
    let rest = put_invoice id change is in (if i.id == id then change i else i) ∷ rest

abbrev pub put_receipt : ℕ → (Receipt → Receipt) → List Receipt → List Receipt
put_receipt id change [] = []
put_receipt id change (r ∷ rs) =
    let rest = put_receipt id change rs in (if r.id == id then change r else r) ∷ rest
