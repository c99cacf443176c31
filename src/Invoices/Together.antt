-- ===== src/Invoices/Together.antt =====
-- Consolidated invoices, documents and receipts keep what the writes keep.
use nation_wide.Common.{
  String, ltb, ℕ, ◌≡◌, refl, not, Option, none, some, List, [], ◌∷◌, All, All-imp, All-filter_by,
  All-sort_by, find, filter_by, any, ◌==◌, Bool-cases, inl, inr,
}
use nation_wide.Gst.{ChargedBreakdown, resolve_charged_breakdown}
use nation_wide.Store.{PaymentMethod}
use nation_wide.Invoices.Numbering.{Text, codes, filename_for}
use nation_wide.Invoices.Books.{
  BillingAction, BilledCustomer, OrderForInvoice, Supplier, InvoiceBody, Invoice, Receipt, Counters,
  Books, BillingError, no_pdf, storage_down, bad_period, mixed_states, Billed, ok, err, B, pure,
  found, ◌>>=◌, ◌>>◌, log,
}
use nation_wide.Invoices.Issue.{require_complete_settings, store_pdf, update_invoice, with_pdf}
use nation_wide.Invoices.Order.{candidates_of, place_of_supply_for, is_order}
use nation_wide.Invoices.Custom.{is_customer}
use nation_wide.Invoices.Consolidated.{
  is_paid_status, Billable, Collected, candidates, collect_for, collect_for, sort_out_priced,
  sort_out, already_billed, is_candidate, collect_consolidatable, selected, is_mixed,
  consolidated_body, lines_of, bill_together, issue_consolidated, Skipped,
}
use nation_wide.Invoices.Documents.{
  has_id, is_cancelled, find_one, read_by, read_pdf, sent_row, is_missing, send_to_whats_app,
  cancelled_row, cancel_live, cancel,
}
use nation_wide.Invoices.Rules.{Any, Stable, Inv, Triple, Post}
use nation_wide.Invoices.Rules
use nation_wide.Invoices.Keeps.{IsBillable, GoodBodies, requires}
use nation_wide.Invoices.Receipts.{
  ReceiptInput, create, create_logged, create_unless, issue_for_order_payment, issue_for_invoice,
  update_receipt, sent_receipt_row, send_receipt, deliver, has_receipt_id, no_document, paid_amount,
  is_for, issue_and_send_quietly, input_for_order, input_for_invoice,
}

module _ (P : List Invoice → List Receipt → Counters → Type 0) (Good : InvoiceBody → Type 0)
    (Fine : OrderForInvoice → Type 0) (stable : Stable P Good) (bodies : GoodBodies Good Fine) where
  abbrev Holds : {A : Type 0} → B A → Type 0
  Holds m = Triple P Good Fine m Any

  sort_out_priced-All :
      (o : OrderForInvoice) (b : Option ChargedBreakdown) (c : Collected)
      → resolve_charged_breakdown (candidates_of o) ≡ b
      → Fine o
      → All (IsBillable Fine) c.billable
      → All (IsBillable Fine) (sort_out_priced o b c).billable
  unfolding sort_out_priced
  sort_out_priced-All o none c e fine h = h
  sort_out_priced-All o (some b) c e fine h = ((e, fine), h)

  sort_out-All :
      (w : Books) (os : List OrderForInvoice)
      → All Fine os
      → All (IsBillable Fine) (sort_out w os).billable
  unfolding sort_out
  sort_out-All w [] h = tt
  sort_out-All w (o ∷ os) h = elim (Bool-cases (already_billed w o.id)) [
    | inl e ↦ rw e (sort_out-All w os h.1)
    | inr e ↦ rw e (
        sort_out_priced-All o (resolve_charged_breakdown (candidates_of o)) (sort_out w os) refl h.0
          (sort_out-All w os h.1))
  ]

  abbrev Collects : BilledCustomer × Collected → Type 0
  Collects c = All (IsBillable Fine) c.1.billable

  candidates-All :
      (customer from to : ℕ) (w : Books)
      → All Fine w.orders
      → All Fine (candidates customer from to w)
  candidates-All customer from to w h =
      let kept : List OrderForInvoice = filter_by (is_candidate customer from to) w.orders in
      (All-sort_by (λ (o : OrderForInvoice). o.created_at) Fine kept).1
        (All-imp kept (λ o k. k.0) (All-filter_by Fine (is_candidate customer from to) w.orders h))

  gathers :
      (customer from to : ℕ) (c : BilledCustomer)
      → Triple P Good Fine (collect_for customer from to c) Collects
  unfolding collect_for
  gathers customer from to c w p =
      (p, sort_out-All w (candidates customer from to w) (candidates-All customer from to w p.1))

  collects :
      (customer from to : ℕ) → Triple P Good Fine (collect_consolidatable customer from to) Collects
  unfolding collect_consolidatable
  collects customer from to = Rules.guard P Good Fine Collects (ltb to from) bad_period _ (
      Rules.reads P Good Fine Any Collects (λ w. w.customers) _ (λ w q. tt)
        (λ cs v.
          Rules.finds P Good Fine Collects (find (is_customer customer) cs)
            (collect_for customer from to) (λ c e. gathers customer from to c)))

  selected-All :
      (ids : Option (List ℕ)) (bs : List Billable)
      → All (IsBillable Fine) bs
      → All (IsBillable Fine) (selected ids bs)
  selected-All none bs h = h
  selected-All (some ids) bs h =
      All-imp (filter_by (λ b. any (λ id. id == b.order.id) ids) bs) (λ b k. k.0)
        (All-filter_by (IsBillable Fine) (λ b. any (λ id. id == b.order.id) ids) bs h)

  bills :
      (now actor : ℕ) (s : Supplier) (c : BilledCustomer) (from to : ℕ) (bs : List Billable)
      → All (IsBillable Fine) bs
      → Holds (bill_together now actor s c from to bs)
  unfolding bill_together
  bills now actor s c from to [] h w p = p
  bills now actor s c from to (b ∷ bs) h w p =
      Rules.guard P Good Fine Any (is_mixed s (place_of_supply_for b.order s) bs) mixed_states _
        (Rules.reads P Good Fine Any Any (λ w. w.texts) _ (λ w q. tt)
          (λ t v.
            Rules.issues P Good Fine stable now actor s
              (consolidated_body t s c from to (place_of_supply_for b.order s) (b ∷ bs))
              (lines_of (b ∷ bs))
              (bodies.of_period t s c from to (place_of_supply_for b.order s) (b ∷ bs) h)))
        w p

  pub issues_consolidated :
      (now customer from to actor : ℕ) (ids : Option (List ℕ))
      → Holds (issue_consolidated now customer from to actor ids)
  unfolding issue_consolidated
  issues_consolidated now customer from to actor ids =
      Rules.bind P Good Fine Collects Any (collect_consolidatable customer from to) _
        (collects customer from to)
        (λ c h.
          Rules.bind P Good Fine Any Any require_complete_settings _
            (requires P Good Fine stable bodies)
            (λ s u.
              Rules.bind P Good Fine Any Any
                (bill_together now actor s c.0 from to (selected ids c.1.billable))
                (λ i. pure (i, c.1.skipped))
                (bills now actor s c.0 from to (selected ids c.1.billable)
                  (selected-All ids c.1.billable h))
                (λ i v.
                  Rules.gives P Good Fine {A = Invoice × List Skipped} Any (i, c.1.skipped) tt)))

  finds_one : (id : ℕ) → Holds (find_one id)
  unfolding find_one
  finds_one id w p = found_one (find (has_id id) w.invoices)
    where
      found_one : (o : Option Invoice) → Post P Good Fine Any (found o w)
      found_one none = p
      found_one (some i) = (p, tt)

  reads_by : (path : Option Text) (i : Invoice) → Holds (read_by path i)
  unfolding read_by
  reads_by none i =
      Rules.bind P Good Fine Any Any (store_pdf (codes "invoices/") i.invoice_date i.invoice_number)
        _ (Rules.stores P Good Fine (codes "invoices/") i.invoice_date i.invoice_number)
        (λ path u.
          Rules.bind P Good Fine Any Any (update_invoice i (with_pdf path))
            (λ j. pure (filename_for i.invoice_number))
            (Rules.updates P Good Fine stable i (with_pdf path) (λ j. (refl, refl, refl, refl)))
            (λ j v. Rules.gives P Good Fine Any (filename_for i.invoice_number) tt))
  reads_by (some path) i =
      Rules.reads P Good Fine Any Any (λ w. w.storage_up) _ (λ w q. tt)
        (λ up v.
          Rules.guard P Good Fine Any (not up) storage_down (pure (filename_for i.invoice_number))
            (Rules.gives P Good Fine Any (filename_for i.invoice_number) tt))

  pub reads_pdf : (id : ℕ) → Holds (read_pdf id)
  unfolding read_pdf
  reads_pdf id =
      Rules.bind P Good Fine Any Any (find_one id) _ (finds_one id) (λ i u. reads_by i.pdf_path i)

  pub sends : (now id : ℕ) → Holds (send_to_whats_app now id)
  unfolding send_to_whats_app
  sends now id = Rules.bind P Good Fine Any Any (find_one id) _ (finds_one id) (λ i u.
      Rules.guard P Good Fine Any (is_cancelled i.status) BillingError.invoice_cancelled _ (
        Rules.guard P Good Fine Any (is_missing i.pdf_path) no_pdf _ (
          Rules.delivers P Good Fine Any id (update_invoice i (sent_row now))
            (Rules.updates P Good Fine stable i (sent_row now) (λ j. (refl, refl, refl, refl))))))

  cancels_live :
      (now : ℕ) (reason : String) (actor : ℕ) (i : Invoice) → Holds (cancel_live now reason actor i)
  unfolding cancel_live
  cancels_live now reason actor i =
      Rules.bind P Good Fine Any Any (update_invoice i (cancelled_row now reason))
        (λ j. log actor BillingAction.invoice_cancelled i.id >> pure j)
        (Rules.updates P Good Fine stable i (cancelled_row now reason)
          (λ j. (refl, refl, refl, refl)))
        (λ j v.
          Rules.logs P Good Fine Any actor BillingAction.invoice_cancelled i.id (pure j)
            (Rules.gives P Good Fine Any j tt))

  pub cancels : (now id : ℕ) (reason : String) (actor : ℕ) → Holds (cancel now id reason actor)
  unfolding cancel
  cancels now id reason actor =
      Rules.bind P Good Fine Any Any (find_one id) _ (finds_one id) (λ i u w p.
        elim (Bool-cases (is_cancelled i.status)) [
          | inl e ↦ rw e (p, tt)
          | inr e ↦ rw e (cancels_live now reason actor i w p)
        ])

  creates_logged : (actor : ℕ) (input : ReceiptInput) → Holds (create_logged actor input)
  unfolding create_logged
  creates_logged actor input =
      Rules.bind P Good Fine Any Any (create actor input)
        (λ r. log actor BillingAction.receipt_issued r.id >> pure r)
        (Rules.creates P Good Fine stable actor input)
        (λ r u.
          Rules.logs P Good Fine Any actor BillingAction.receipt_issued r.id (pure r)
            (Rules.gives P Good Fine Any r tt))

  creates_unless :
      (old : Option Receipt) (actor : ℕ) (input : ReceiptInput)
      → Holds (create_unless old actor input)
  unfolding create_unless
  creates_unless none actor input w p = creates_logged actor input w p
  creates_unless (some r) actor input w p = (p, tt)

  pays :
      {A : Type 0} (a : Option ℕ) (f : ℕ → B A)
      → ((n : ℕ) → Holds (f n))
      → Holds (paid_amount a >>= f)
  pays none f k w p = p
  pays (some n) f k w p = elim (Bool-cases (n == 0)) [ inl e ↦ rw e p | inr e ↦ rw e (k n w p) ]

  pub receipts_payment : (now id actor : ℕ) → Holds (issue_for_order_payment now id actor)
  unfolding issue_for_order_payment
  receipts_payment now id actor =
      Rules.reads P Good Fine Any Any (λ w. w.orders) _ (λ w q. tt)
        (λ os u. Rules.finds P Good Fine Any (find (is_order id) os) _ (λ o e.
          Rules.guard P Good Fine Any (not (is_paid_status o.payment_status)) BillingError.not_paid
            _
            (pays o.paid_amount _ (λ amount.
              Rules.reads P Good Fine Any Any (λ w. w.receipts) _ (λ w q. tt)
                (λ rs u.
                  Rules.reads P Good Fine Any Any (λ w. w.invoices) _ (λ w q. tt)
                    (λ is u.
                      creates_unless (find (is_for id amount) rs) actor
                        (input_for_order now id o amount is)))))))

  pub receipts_invoice :
      (id amount : ℕ) (method : PaymentMethod) (received actor : ℕ)
      → Holds (issue_for_invoice id amount method received actor)
  unfolding issue_for_invoice
  receipts_invoice id amount method received actor =
      Rules.reads P Good Fine Any Any (λ w. w.invoices) _ (λ w q. tt)
        (λ is u. Rules.finds P Good Fine Any (find (has_id id) is) _ (λ i e.
          Rules.guard P Good Fine Any (is_cancelled i.status) BillingError.invoice_cancelled _
            (creates_logged actor (input_for_invoice amount method received i))))

  delivers_receipt : (now id : ℕ) (r : Receipt) → Holds (deliver now id r)
  unfolding deliver
  delivers_receipt now id r =
      Rules.delivers P Good Fine Any id (update_receipt r (sent_receipt_row now)) (
        Rules.updates_receipt P Good Fine stable r (sent_receipt_row now) (λ j. (refl, refl, refl)))

  pub sends_receipt : (now id : ℕ) → Holds (send_receipt now id)
  unfolding send_receipt
  sends_receipt now id =
      Rules.reads P Good Fine Any Any (λ w. w.receipts) _ (λ w q. tt)
        (λ rs u. Rules.finds P Good Fine Any (find (has_receipt_id id) rs) _ (λ r e.
          Rules.guard P Good Fine Any (no_document r.pdf_path) no_pdf (deliver now id r)
            (delivers_receipt now id r)))

  quiet : {A : Type 0} (res : Billed A × Books) → Post P Good Fine Any res → Inv P Good Fine res.1
  quiet (ok a, w) h = h.0
  quiet (err e, w) h = h

  pub receipts_quietly : (now id actor : ℕ) → Holds (issue_and_send_quietly now id actor)
  unfolding issue_and_send_quietly
  receipts_quietly now id actor w p = (
    quiet ((issue_for_order_payment now id actor >>= λ r. send_receipt now r.id) w) (
        Rules.bind P Good Fine Any Any (issue_for_order_payment now id actor) _
          (receipts_payment now id actor) (λ r u. sends_receipt now r.id) w p),
    tt,
  )
