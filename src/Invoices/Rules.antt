-- ===== src/Invoices/Rules.antt =====
-- Rules for calls on the books: what holds of the invoices, the receipts and the counters stays so,
-- if each write keeps it.
use nation_wide.Common.{ℕ, ◌+◌, ◌≡◌, refl, Bool, true, false, Option, none, some, List, ◌∷◌, All}
use nation_wide.Invoices.Calendar.{indian_financial_year}
use nation_wide.Invoices.Numbering.{Text, codes}
use nation_wide.Invoices.Books.{
  OrderForInvoice, Supplier, InvoiceBody, Invoice, InvoiceLine, Receipt, Counters, Books,
  BillingError, BillingAction, invoice_issued, Billed, ok, err, B, pure, gets, found, bound, ◌>>=◌,
  ◌>>◌, raise_if, modify, log, bump, next_invoice_number, next_receipt_number, put_invoice,
  put_receipt,
}
use nation_wide.Invoices.Issue.{
  store_pdf, new_invoice, insert_invoice, update_invoice, with_pdf, issue, finish, stored,
  storage_key_for,
}
use nation_wide.Invoices.Receipts.{
  ReceiptInput, new_receipt, insert_receipt, update_receipt, receipt_with_pdf, create,
  render_and_store,
}

abbrev pub Any : {A : Type 0} → A → Type 0
Any a = Unit

-- What a later write of an invoice leaves alone.
abbrev pub KeepsInvoice : (Invoice → Invoice) → Type 0
KeepsInvoice change =
    (i : Invoice)
    → ((change i).invoice_number ≡ i.invoice_number)
      × ((change i).sequence_number ≡ i.sequence_number)
      × ((change i).financial_year ≡ i.financial_year)
      × ((change i).body ≡ i.body)

abbrev pub KeepsReceipt : (Receipt → Receipt) → Type 0
KeepsReceipt change =
    (r : Receipt)
    → ((change r).receipt_number ≡ r.receipt_number)
      × ((change r).sequence_number ≡ r.sequence_number)
      × ((change r).financial_year ≡ r.financial_year)

-- A property of the books that each write keeps; an invoice is only issued with a good body, and
-- the orders are fine.
pub record Stable (P : List Invoice → List Receipt → Counters → Type 0)
    (Good : InvoiceBody → Type 0) : Type 0 where
  pub on_issue :
      (is : List Invoice) (rs : List Receipt) (c : Counters) (id now actor : ℕ) (s : Supplier)
      (body : InvoiceBody)
      → Good body
      → P is rs c
      → P
          (new_invoice id (c.invoice (indian_financial_year now) + 1) now actor s body ∷ is)
          rs
          (record c { invoice = bump c.invoice (indian_financial_year now) })
  pub on_row :
      (is : List Invoice) (rs : List Receipt) (c : Counters) (id : ℕ) (change : Invoice → Invoice)
      → KeepsInvoice change
      → P is rs c
      → P (put_invoice id change is) rs c
  pub on_receipt :
      (is : List Invoice) (rs : List Receipt) (c : Counters) (id actor : ℕ) (input : ReceiptInput)
      → P is rs c
      → P is
          (new_receipt id (c.receipt (indian_financial_year input.received_at) + 1) actor input
            ∷ rs)
          (record c { receipt = bump c.receipt (indian_financial_year input.received_at) })
  pub on_receipt_row :
      (is : List Invoice) (rs : List Receipt) (c : Counters) (id : ℕ) (change : Receipt → Receipt)
      → KeepsReceipt change
      → P is rs c
      → P is (put_receipt id change rs) c

module _ (P : List Invoice → List Receipt → Counters → Type 0) (Good : InvoiceBody → Type 0)
    (Fine : OrderForInvoice → Type 0) where
  abbrev pub Inv : Books → Type 0
  Inv w = P w.invoices w.receipts w.counters × All Fine w.orders

  abbrev pub Post : {A : Type 0} → (A → Type 0) → Billed A × Books → Type 0
  Post Q (ok a, w) = Inv w × Q a
  Post Q (err e, w) = Inv w

  abbrev pub Triple : {A : Type 0} → B A → (A → Type 0) → Type 0
  Triple m Q = (w : Books) → Inv w → Post Q (m w)

  bound-Post :
      {A C : Type 0} (Q : A → Type 0) (R : C → Type 0) (f : A → B C)
      → ((a : A) → Q a → Triple (f a) R)
      → (res : Billed A × Books) → Post Q res
      → Post R (bound f res)
  bound-Post Q R f k (ok a, w) h = k a h.1 w h.0
  bound-Post Q R f k (err e, w) h = h

  pub bind :
      {A C : Type 0} (Q : A → Type 0) (R : C → Type 0) (m : B A) (f : A → B C)
      → Triple m Q
      → ((a : A) → Q a → Triple (f a) R)
      → Triple (m >>= f) R
  bind Q R m f h k w p = bound-Post Q R f k (m w) (h w p)

  pub gives : {A : Type 0} (Q : A → Type 0) (a : A) → Q a → Triple (pure a) Q
  gives Q a h w p = (p, h)

  pub gets_that :
      {A : Type 0} (Q : A → Type 0) (g : Books → A)
      → ((w : Books) → Inv w → Q (g w))
      → Triple (gets g) Q
  gets_that Q g h w p = (p, h w p)

  pub delivers :
      {C : Type 0} (R : C → Type 0) (id : ℕ) (k : B C)
      → Triple k R
      → Triple (modify (λ w. record w { sent = id ∷ w.sent }) >> k) R
  delivers R id k h w p = h (record w { sent = id ∷ w.sent }) p

  -- A read, and what it tells.
  pub reads :
      {A C : Type 0} (Q : A → Type 0) (R : C → Type 0) (g : Books → A) (f : A → B C)
      → ((w : Books) → Inv w → Q (g w))
      → ((a : A) → Q a → Triple (f a) R)
      → Triple (gets g >>= f) R
  reads Q R g f h k w p = k (g w) (h w p) w p

  pub finds :
      {A C : Type 0} (R : C → Type 0) (o : Option A) (f : A → B C)
      → ((a : A) → o ≡ some a → Triple (f a) R)
      → Triple (found o >>= f) R
  finds R none f k w p = p
  finds R (some a) f k w p = k a refl w p

  pub guard :
      {C : Type 0} (R : C → Type 0) (b : Bool) (e : BillingError) (k : B C)
      → Triple k R
      → Triple (raise_if b e >> k) R
  guard R true e k h w p = p
  guard R false e k h w p = h w p

  pub logs :
      {C : Type 0} (R : C → Type 0) (actor : ℕ) (action : BillingAction) (id : ℕ) (k : B C)
      → Triple k R
      → Triple (log actor action id >> k) R
  logs R actor action id k h w p = h _ p

  stored-Post : (w : Books) (up : Bool) (key : Text) → Inv w → Post Any (stored up key w)
  stored-Post w true key p = (p, tt)
  stored-Post w false key p = p

  pub stores :
      (folder : Text) (date : ℕ) (number : Text) → Triple (store_pdf folder date number) Any
  unfolding store_pdf
  stores folder date number w p = stored-Post w w.storage_up (storage_key_for folder date number) p

  module _ (stable : Stable P Good) where
    pub updates :
        (i : Invoice) (change : Invoice → Invoice)
        → KeepsInvoice change
        → Triple (update_invoice i change) Any
    unfolding update_invoice
    updates i change keeps w p =
        ((stable.on_row w.invoices w.receipts w.counters i.id change keeps p.0, p.1), tt)

    finishes : (actor : ℕ) (i : Invoice) → Triple (finish actor i) Any
    unfolding finish
    finishes actor i =
        bind Any Any (store_pdf (codes "invoices/") i.invoice_date i.invoice_number) _
          (stores (codes "invoices/") i.invoice_date i.invoice_number)
          (λ path u.
            logs Any actor invoice_issued i.id (update_invoice i (with_pdf path))
              (updates i (with_pdf path) (λ j. (refl, refl, refl, refl))))

    pub issues :
        (now actor : ℕ) (s : Supplier) (body : InvoiceBody) (lines : ℕ → List InvoiceLine)
        → Good body
        → Triple (issue now actor s body lines) Any
    unfolding issue next_invoice_number insert_invoice
    issues now actor s body lines good w p =
        finishes actor
          (new_invoice w.next_id (w.counters.invoice (indian_financial_year now) + 1) now actor s
            body)
          _
          (
            stable.on_issue w.invoices w.receipts w.counters w.next_id now actor s body good p.0,
            p.1,
          )

    pub updates_receipt :
        (r : Receipt) (change : Receipt → Receipt)
        → KeepsReceipt change
        → Triple (update_receipt r change) Any
    unfolding update_receipt
    updates_receipt r change keeps w p =
        ((stable.on_receipt_row w.invoices w.receipts w.counters r.id change keeps p.0, p.1), tt)

    renders : (r : Receipt) → Triple (render_and_store r) Any
    unfolding render_and_store
    renders r =
        bind Any Any (store_pdf (codes "receipts/") r.received_at r.receipt_number) _
          (stores (codes "receipts/") r.received_at r.receipt_number)
          (λ path u. updates_receipt r (receipt_with_pdf path) (λ j. (refl, refl, refl)))

    pub creates : (actor : ℕ) (input : ReceiptInput) → Triple (create actor input) Any
    unfolding create next_receipt_number insert_receipt
    creates actor input w p =
        renders
          (new_receipt w.next_id (w.counters.receipt (indian_financial_year input.received_at) + 1)
            actor input)
          _ (stable.on_receipt w.invoices w.receipts w.counters w.next_id actor input p.0, p.1)
