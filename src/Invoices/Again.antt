-- ===== src/Invoices/Again.antt =====
-- Asking for an order's invoice again gives the same invoice.
use nation_wide.Common.{
  String, ℕ, ◌+◌, ◌≡◌, refl, subst, Bool, true, false, Option, none, some, List, [], ◌∷◌, find,
  arith, ◌==◌, Bool-cases, Option-cases, inl, inr, ◌⊎◌,
}
use mathlib.Core.Option.{some-injective}
use nation_wide.Gst.{ChargedBreakdown, resolve_charged_breakdown}
use nation_wide.Invoices.Calendar.{indian_financial_year}
use nation_wide.Invoices.Numbering.{codes}
use nation_wide.Invoices.States.{is_blank}
use nation_wide.Invoices.Books.{
  OrderForInvoice, Supplier, InvoiceBody, Invoice, Books, BillingError, BillingAction, not_found,
  settings_incomplete, nothing_to_bill, mixed_states, bad_period, order_cancelled, no_price,
  no_amount, no_description, no_pdf, not_paid, storage_down, Billed, ok, err, B, found, bound,
  ◌>>=◌, ◌>>◌, raise_if, log, next_invoice_number,
}
use nation_wide.Invoices.Issue.{
  require_complete_settings, when_present, issue, insert_invoice, new_invoice, finish, store_pdf,
  stored, storage_key_for, update_invoice, with_pdf,
}
use nation_wide.Invoices.Order.{
  candidates_of, order_body, no_lines, priced, issue_for_order, is_order, is_cancelled_order,
  generate_new, generate_by, generate_for_order, bills_order,
}

-- A success leaves the invoice that it returns as the order's; where only the file store failed
-- the order has an invoice too.
abbrev Leaves : ℕ → Billed Invoice × Books → Type 0
Leaves id (ok i, w) = find (bills_order id) w.invoices ≡ some i
Leaves id (err storage_down, w) = (i : Invoice) × (find (bills_order id) w.invoices ≡ some i)
Leaves id (err not_found, w) = Unit
Leaves id (err settings_incomplete, w) = Unit
Leaves id (err nothing_to_bill, w) = Unit
Leaves id (err mixed_states, w) = Unit
Leaves id (err bad_period, w) = Unit
Leaves id (err order_cancelled, w) = Unit
Leaves id (err no_price, w) = Unit
Leaves id (err no_amount, w) = Unit
Leaves id (err no_description, w) = Unit
Leaves id (err BillingError.invoice_cancelled, w) = Unit
Leaves id (err no_pdf, w) = Unit
Leaves id (err not_paid, w) = Unit

finish-Leaves :
    (id actor : ℕ) (i : Invoice) (w : Books) (rest : List Invoice)
    → w.invoices ≡ i ∷ rest
    → bills_order id i ≡ true
    → Leaves id (finish actor i w)
unfolding finish store_pdf update_invoice
finish-Leaves id actor i w rest e b = by_store w.storage_up
  where
    first : find (bills_order id) w.invoices ≡ some i
    first = rw e (rw b)

    own : (i.id == i.id) ≡ true
    own = ground arith

    by_store :
        (up : Bool)
        → Leaves id (
            bound
              (λ path.
                log actor BillingAction.invoice_issued i.id >> update_invoice i (with_pdf path))
              (stored up (storage_key_for (codes "invoices/") i.invoice_date i.invoice_number) w))
    by_store true = rw e (rw own (rw b))
    by_store false = (i, first)

issue-Leaves :
    (id now actor : ℕ) (s : Supplier) (body : InvoiceBody) (w : Books)
    → (elim body.order_id [ none ↦ false | some o ↦ o == id ]) ≡ true
    → Leaves id (issue now actor s body no_lines w)
unfolding issue next_invoice_number insert_invoice
issue-Leaves id now actor s body w b =
    finish-Leaves id actor
      (new_invoice w.next_id (w.counters.invoice (indian_financial_year now) + 1) now actor s body)
      _ w.invoices refl (unfold new_invoice in b)

present-Leaves :
    (id : ℕ) (s : Option String) (k : String → B Supplier) (f : Supplier → B Invoice) (w : Books)
    → ((x : String) → Leaves id (bound f (k x w)))
    → Leaves id (bound f (when_present s k w))
present-Leaves id none k f w h = tt
present-Leaves id (some s) k f w h = elim (Bool-cases (is_blank s)) [
  | inl e ↦ rw e tt
  | inr e ↦ rw e (h s)
]

require-Leaves :
    (id : ℕ) (f : Supplier → B Invoice) (w : Books)
    → ((s : Supplier) → Leaves id (f s w))
    → Leaves id ((require_complete_settings >>= f) w)
unfolding require_complete_settings
require-Leaves id f w h = present-Leaves id w.settings.gstin _ f w (λ a.
    present-Leaves id w.settings.legal_name _ f w (λ b.
      present-Leaves id w.settings.address _ f w (λ c.
        present-Leaves id w.settings.state_name _ f w (λ d.
          present-Leaves id w.settings.state_code _ f w
            (λ e. present-Leaves id w.settings.sac_code _ f w (λ g. h _))))))

priced-Leaves :
    (id : ℕ) (o : Option ChargedBreakdown) (f : ChargedBreakdown → B Invoice) (w : Books)
    → ((b : ChargedBreakdown) → Leaves id (f b w))
    → Leaves id ((priced o >>= f) w)
priced-Leaves id none f w h = tt
priced-Leaves id (some b) f w h = h b

for_order-Leaves :
    (id now actor : ℕ) (o : OrderForInvoice) (w : Books)
    → is_order id o ≡ true
    → Leaves id (issue_for_order now actor o w)
unfolding issue_for_order
for_order-Leaves id now actor o w b = require-Leaves id _ w (λ s.
    priced-Leaves id (resolve_charged_breakdown (candidates_of o)) _ w
      (λ p. issue-Leaves id now actor s (order_body w.texts s o p) w (unfold order_body in b)))

find-passes : {A : Type 0} (p : A → Bool) (xs : List A) {a : A} → find p xs ≡ some a → p a ≡ true
find-passes p [] e = cc
find-passes p (x ∷ xs) e = elim (Bool-cases (p x)) [
  | inl t ↦ subst (λ y. p y ≡ true) (some-injective _ _ (rw t at e)) t
  | inr f ↦ find-passes p xs (rw f at e)
]

generate_new-Leaves : (id now actor : ℕ) (w : Books) → Leaves id (generate_new now actor id w)
unfolding generate_new
generate_new-Leaves id now actor w =
    on_order (find (is_order id) w.orders) (λ o e. find-passes (is_order id) w.orders e)
  where
    on_order :
        (found_order : Option OrderForInvoice)
        → ((o : OrderForInvoice) → found_order ≡ some o → is_order id o ≡ true)
        → Leaves id (
            (found found_order >>= λ o.
            raise_if (is_cancelled_order o.status) order_cancelled >> issue_for_order now actor o)
              w)
    on_order none h = tt
    on_order (some o) h = elim (Bool-cases (is_cancelled_order o.status)) [
      | inl e ↦ rw e tt
      | inr e ↦ let issued = for_order-Leaves id now actor o w (h o refl) in rw e issued
    ]

generate-Leaves : (id now actor : ℕ) (w : Books) → Leaves id (generate_for_order now actor id w)
unfolding generate_for_order generate_by
generate-Leaves id now actor w = elim (Option-cases (find (bills_order id) w.invoices)) [
  | inl e ↦ let issued = generate_new-Leaves id now actor w in rw e issued
  | inr (i, e) ↦ rw e e
]

repeat :
    (now actor id : ℕ) (w : Books) (i : Invoice)
    → find (bills_order id) w.invoices ≡ some i
    → generate_for_order now actor id w ≡ (ok i, w)
unfolding generate_for_order generate_by
repeat now actor id w i e = rw e

-- Once an order's invoice was asked for, with success or with only the file store failing, asking
-- again, at any time and by anybody, returns an invoice and changes nothing: no second number is
-- taken. After a success it is the invoice that was returned before.
pub generate_for_order-again :
    (now actor id now' actor' : ℕ) (w : Books)
    → ((i : Invoice) × ((generate_for_order now actor id w).0 ≡ ok i))
      ⊎ ((generate_for_order now actor id w).0 ≡ err storage_down)
    → let first = generate_for_order now actor id w in
      (j : Invoice) × (generate_for_order now' actor' id first.1 ≡ (ok j, first.1))
      × ((first.0 ≡ ok j) ⊎ (first.0 ≡ err storage_down))
generate_for_order-again now actor id now' actor' w =
    after (generate_for_order now actor id w) (generate-Leaves id now actor w)
  where
    after :
        (res : Billed Invoice × Books)
        → Leaves id res
        → ((i : Invoice) × (res.0 ≡ ok i)) ⊎ (res.0 ≡ err storage_down)
        → (j : Invoice) × (generate_for_order now' actor' id res.1 ≡ (ok j, res.1))
          × ((res.0 ≡ ok j) ⊎ (res.0 ≡ err storage_down))
    after (ok j, v) h e = (j, repeat now' actor' id v j h, inl refl)
    after (err storage_down, v) h e = (h.0, repeat now' actor' id v h.0 h.1, inr refl)
    after (err e', v) h (inl (i, e)) = absurd (cc)
    after (err e', v) h (inr e) = absurd (cc)
