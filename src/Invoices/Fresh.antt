-- ===== src/Invoices/Fresh.antt =====
-- The lines that a consolidated invoice adds.
use nation_wide.Common.{
  ℕ, ◌+◌, ◌≡◌, ◌≢◌, refl, sym, subst, Bool, true, false, Option, List, [], ◌∷◌, ◌++◌, All, arith,
  AllPairs, Bool-cases, inl, inr,
}
use nation_wide.Invoices.Calendar.{indian_financial_year}
use nation_wide.Invoices.Numbering.{codes}
use nation_wide.Invoices.Books.{
  BilledCustomer, OrderForInvoice, Supplier, InvoiceBody, Invoice, InvoiceLine, Books,
  BillingAction, log, Billed, ok, err, B, pure, bound, ◌>>=◌, ◌>>◌, next_invoice_number,
}
use nation_wide.Invoices.Issue.{
  require_complete_settings, with_pdf, storage_key_for, issue, insert_invoice, new_invoice, finish,
  store_pdf, stored, update_invoice,
}
use nation_wide.Invoices.Order.{place_of_supply_for}
use nation_wide.Invoices.Unbilled.{
  IsUnbilled, AreUnbilled, AreApart, AreDistinct, sort_out-AreUnbilled, selected-AreUnbilled,
}
use nation_wide.Invoices.Consolidated.{
  Billable, Collected, Skipped, candidates, sort_out, collect_for, collect_consolidatable, selected,
  lines_of, is_mixed, bill_together, issue_consolidated, consolidated_body,
}

-- A call that only reads before the rest runs.
after_read :
    {A C : Type 0} (R : Books → Type 0) (m : B A) (f : A → B C) (w : Books)
    → (m w).1 ≡ w
    → R w
    → ((a : A) → (m w).0 ≡ ok a → R (f a w).1)
    → R ((m >>= f) w).1
after_read {A} {C} R m f w same stay next = step (m w).0 (m w).1 same next
  where
    step :
        (r : Billed A) (w' : Books)
        → w' ≡ w
        → ((a : A) → r ≡ ok a → R (f a w).1)
        → R (bound f (r, w')).1
    step (ok a) w' e k = subst (λ v. R (f a v).1) (sym e) (k a refl)
    step (err x) w' e k = subst R (sym e) stay

module _ (customer from to : ℕ) (w : Books) where
  -- A line of the new invoice for an order that was unbilled, from the day of the order.
  abbrev pub IsFresh : InvoiceLine → Type 0
  IsFresh l =
      (l.invoice_id ≡ w.next_id)
      × ((o : OrderForInvoice) × IsUnbilled customer from to w o
          × (l.order_id ≡ o.id)
          × (l.supply_date ≡ o.created_at))

  -- The lines that a call adds: each is fresh, and no two are for one order.
  abbrev pub AddsUnbilled : Books → Type 0
  AddsUnbilled w' =
      (more : List InvoiceLine) × (w'.lines ≡ more ++ w.lines)
      × All IsFresh more
      × AllPairs (λ (a b : InvoiceLine). a.order_id ≢ b.order_id) more

  lines_of-IsFresh :
      (bs : List Billable)
      → All (λ b. IsUnbilled customer from to w b.order) bs
      → All IsFresh (lines_of bs w.next_id)
  lines_of-IsFresh [] h = tt
  lines_of-IsFresh (b ∷ bs) h = ((refl, (b.order, h.0, refl, refl)), lines_of-IsFresh bs h.1)

  lines_of-other :
      (id invoice : ℕ) (bs : List Billable)
      → All (λ (b : Billable). id ≢ b.order.id) bs
      → All (λ (l : InvoiceLine). id ≢ l.order_id) (lines_of bs invoice)
  lines_of-other id invoice [] h = tt
  lines_of-other id invoice (b ∷ bs) h = (h.0, lines_of-other id invoice bs h.1)

  lines_of-apart :
      (invoice : ℕ) (bs : List Billable)
      → AreDistinct bs
      → AllPairs (λ (a b : InvoiceLine). a.order_id ≢ b.order_id) (lines_of bs invoice)
  lines_of-apart invoice [] h = tt
  lines_of-apart invoice (b ∷ bs) h =
      (lines_of-other b.order.id invoice bs h.0, lines_of-apart invoice bs h.1)

  finish-lines : (actor : ℕ) (i : Invoice) (v : Books) → (finish actor i v).1.lines ≡ v.lines
  unfolding finish store_pdf update_invoice
  finish-lines actor i v = stored_lines v.storage_up
    where
      stored_lines :
          (up : Bool)
          → (bound
              (λ path.
                log actor BillingAction.invoice_issued i.id >> update_invoice i (with_pdf path))
              (stored up
                (storage_key_for (codes "invoices/") i.invoice_date i.invoice_number)
                v)).1.lines
            ≡ v.lines
      stored_lines true = refl
      stored_lines false = refl

  issue-AddsUnbilled :
      (now actor : ℕ) (s : Supplier) (body : InvoiceBody) (bs : List Billable)
      → AreUnbilled customer from to w bs
      → AddsUnbilled (issue now actor s body (lines_of bs) w).1
  unfolding issue next_invoice_number insert_invoice
  issue-AddsUnbilled now actor s body bs h = (
    lines_of bs w.next_id,
    finish-lines actor
        (new_invoice w.next_id (w.counters.invoice (indian_financial_year now) + 1) now actor s
          body)
        _,
    lines_of-IsFresh bs h.0,
    lines_of-apart w.next_id bs h.1,
  )

  bill_together-AddsUnbilled :
      (now actor : ℕ) (s : Supplier) (c : BilledCustomer) (bs : List Billable)
      → AreUnbilled customer from to w bs
      → AddsUnbilled (bill_together now actor s c from to bs w).1
  unfolding bill_together
  bill_together-AddsUnbilled now actor s c [] h = ([], refl, tt, tt)
  bill_together-AddsUnbilled now actor s c (b ∷ bs) h =
      elim (Bool-cases (is_mixed s (place_of_supply_for b.order s) bs)) [
        | inl e ↦ rw e ([], refl, tt, tt)
        | inr e ↦ rw e (
            issue-AddsUnbilled now actor s
              (consolidated_body w.texts s c from to (place_of_supply_for b.order s) (b ∷ bs))
              (b ∷ bs) h)
      ]

  -- What collecting the orders of the period hands on, without a write.
  collect-AreUnbilled :
      (a : BilledCustomer × Collected)
      → AreApart w.orders
      → (collect_consolidatable customer from to w).0 ≡ ok a
      → AreUnbilled customer from to w a.1.billable
  unfolding collect_consolidatable collect_for
  collect-AreUnbilled a h e =
      let same : a.1 ≡ sort_out w (candidates customer from to w) = ground arith in
      subst (λ c. AreUnbilled customer from to w c.billable) (sym same)
        (sort_out-AreUnbilled customer from to w h)

  collect-reads : (collect_consolidatable customer from to w).1 ≡ w
  unfolding collect_consolidatable collect_for
  collect-reads = ground arith

require-reads : (w : Books) → (require_complete_settings w).1 ≡ w
unfolding require_complete_settings
require-reads w = ground arith

-- Whatever comes of it, a consolidated invoice adds lines only under its own id and for orders of
-- the customer and the period that are paid, not cancelled, and not yet on any invoice, each order
-- at most once, where the order ids are distinct.
pub issue_consolidated-AddsUnbilled :
    (now customer from to actor : ℕ) (ids : Option (List ℕ)) (w : Books)
    → AreApart w.orders
    → AddsUnbilled customer from to w (issue_consolidated now customer from to actor ids w).1
unfolding issue_consolidated
issue_consolidated-AddsUnbilled now customer from to actor ids w apart =
    let adds : Books → Type 0 = AddsUnbilled customer from to w in
    let nothing : adds w = ([], refl, tt, tt) in
    after_read adds (collect_consolidatable customer from to) _ w (collect-reads customer from to w)
      nothing
      (λ c e. after_read adds require_complete_settings _ w (require-reads w) nothing (λ s e'.
        kept now customer from to actor w s c
          (bill_together now actor s c.0 from to (selected ids c.1.billable) w)
          (bill_together-AddsUnbilled customer from to w now actor s c.0 (selected ids c.1.billable)
            (selected-AreUnbilled customer from to w ids c.1.billable
              (collect-AreUnbilled customer from to w c apart e)))))
  where
    kept :
        (now customer from to actor : ℕ) (w : Books) (s : Supplier) (c : BilledCustomer × Collected)
        (res : Billed Invoice × Books)
        → AddsUnbilled customer from to w res.1
        → AddsUnbilled customer from to w
            (bound {C = Invoice × List Skipped} (λ (i : Invoice). pure (i, c.1.skipped)) res).1
    kept now customer from to actor w s c (ok i, v) h = h
    kept now customer from to actor w s c (err e, v) h = h
