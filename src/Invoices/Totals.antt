-- ===== src/Invoices/Totals.antt =====
-- The amounts on an invoice add up.
use nation_wide.Common.{
  ℕ, ◌+◌, ◌-◌, ◌*◌, ◌≡◌, refl, sym, subst, min, some, List, [], ◌∷◌, All, String, arith, ◌==◌,
  Bool-cases, inl, inr, or_default,
}
use nation_wide.Money.{round2, round2_whole}
use nation_wide.Gst.{
  split_gst, split_gst_adds_up, ChargedBreakdown, Reconciles, resolve_charged_breakdown,
  resolve_charged_breakdown-Reconciles, taxable-le-gross,
}
use nation_wide.Invoices.States.{StateTexts}
use nation_wide.Invoices.Books.{
  BilledCustomer, OrderForInvoice, Supplier, Description, InvoiceBody, Invoice, Receipt, Counters,
  Books, put_invoice,
}
use nation_wide.Invoices.Issue.{new_invoice}
use nation_wide.Invoices.Order.{
  candidates_of, order_body, place_of_supply_for, place_code, is_intra,
}
use nation_wide.Invoices.Custom.{CustomInvoice, gross_of, custom_body}
use nation_wide.Invoices.Consolidated.{Billable, total_of, consolidated_body}
use nation_wide.Invoices.Rules.{Stable, KeepsInvoice}
use nation_wide.Invoices.Keeps.{IsBillable, GoodBodies}
use nation_wide.Invoices.Calls.{Call, FineCall, run, run-Inv}

-- The columns of the tax make the tax; what was supplied, its tax and the untaxed charges make
-- the total and the discount.
abbrev pub Balances : InvoiceBody → Type 0
Balances b =
    (b.split.cgst_amount + b.split.sgst_amount + b.split.igst_amount ≡ b.split.total_tax)
    × (b.taxable_value + b.split.total_tax + b.non_taxable_charges
        ≡ b.total_amount + b.discount_amount)

-- What the prices recorded with the order reconcile.
abbrev pub IsReconciled : OrderForInvoice → Type 0
IsReconciled o = Reconciles (candidates_of o)

less_discount : (total discount : ℕ) → total - min discount total + min discount total ≡ total
less_discount total discount = ground arith

order_body-Balances :
    (t : StateTexts) (s : Supplier) (o : OrderForInvoice) (b : ChargedBreakdown)
    → IsReconciled o
    → resolve_charged_breakdown (candidates_of o) ≡ some b
    → Balances (order_body t s o b)
unfolding order_body
order_body-Balances t s o b fine e =
    let code : String = place_code t s (place_of_supply_for o s) in
    let split = split_gst_adds_up b.taxable_value b.gst_amount (is_intra s code) in
    let parts = resolve_charged_breakdown-Reconciles (candidates_of o) fine e in
    let discount : ℕ = min (or_default o.discount_amount 0) b.total_amount in
    (
      omega (arith, split.0, split.1),
      omega (
        arith,
        split.1,
        parts,
        round2_whole (b.total_amount - discount),
        less_discount b.total_amount (or_default o.discount_amount 0),
      ),
    )

custom_body-Balances :
    (t : StateTexts) (percent : ℕ) (s : Supplier) (c : BilledCustomer) (input : CustomInvoice)
    (d : Description)
    → Balances (custom_body t percent s c input d)
unfolding custom_body
custom_body-Balances t percent s c input d =
    let gross : ℕ = gross_of input.gross_amount input.lines in
    let taxable : ℕ = round2 (gross * 10_000) (10_000 + percent) in
    let code : String = place_code t s (or_default input.place_of_supply_state s.state_name) in
    let split = split_gst_adds_up taxable (round2 (gross - taxable) 1) (is_intra s code) in
    (
      omega (arith, split.0, split.1),
      omega (
        arith,
        split.1,
        round2_whole gross,
        round2_whole (gross - taxable),
        taxable-le-gross gross percent,
      ),
    )

consolidated_body-Balances :
    (t : StateTexts) (s : Supplier) (c : BilledCustomer) (from to : ℕ) (place : String)
    (bs : List Billable)
    → Balances (consolidated_body t s c from to place bs)
unfolding consolidated_body
consolidated_body-Balances t s c from to place bs =
    let taxable : ℕ = round2 (total_of (λ b. b.breakdown.taxable_value) bs) 1 in
    let gst : ℕ = round2 (total_of (λ b. b.breakdown.gst_amount) bs) 1 in
    let untaxed : ℕ = round2 (total_of (λ b. b.breakdown.non_taxable_charges) bs) 1 in
    let split = split_gst taxable gst (is_intra s (place_code t s place)) in
    let columns = split_gst_adds_up taxable gst (is_intra s (place_code t s place)) in
    (
      omega (arith, columns.0, columns.1),
      omega (arith, round2_whole (taxable + split.total_tax + untaxed)),
    )

-- A consolidated invoice is for the sum of what its orders were charged.
pub consolidated_body-total :
    (t : StateTexts) (s : Supplier) (c : BilledCustomer) (from to : ℕ) (place : String)
    (bs : List Billable)
    → All (IsBillable IsReconciled) bs
    → (consolidated_body t s c from to place bs).total_amount
      ≡ total_of (λ b. b.breakdown.total_amount) bs
unfolding consolidated_body
consolidated_body-total t s c from to place bs h =
    let taxable : ℕ = total_of (λ b. b.breakdown.taxable_value) bs in
    let gst : ℕ = total_of (λ b. b.breakdown.gst_amount) bs in
    let untaxed : ℕ = total_of (λ b. b.breakdown.non_taxable_charges) bs in
    let intra = is_intra s (place_code t s place) in
    let split = split_gst (round2 taxable 1) (round2 gst 1) intra in
    let columns = split_gst_adds_up (round2 taxable 1) (round2 gst 1) intra in
    omega (
      arith,
      columns.1,
      sums bs h,
      round2_whole taxable,
      round2_whole gst,
      round2_whole untaxed,
      round2_whole (round2 taxable 1 + split.total_tax + round2 untaxed 1),
    )
  where
    sums :
        (bs : List Billable)
        → All (IsBillable IsReconciled) bs
        → total_of (λ b. b.breakdown.taxable_value) bs
            + total_of (λ b. b.breakdown.gst_amount) bs
            + total_of (λ b. b.breakdown.non_taxable_charges) bs
          ≡ total_of (λ b. b.breakdown.total_amount) bs
    sums [] h = refl
    sums (b ∷ bs) h = omega (
      arith,
      resolve_charged_breakdown-Reconciles (candidates_of b.order) h.0.1 h.0.0,
      sums bs h.1,
    )

AllBalance : List Invoice → List Receipt → Counters → Type 0
AllBalance is rs c = All (λ (i : Invoice). Balances i.body) is

Balances-put_invoice :
    (id : ℕ) (change : Invoice → Invoice) (is : List Invoice)
    → KeepsInvoice change
    → All (λ (i : Invoice). Balances i.body) is
    → All (λ (i : Invoice). Balances i.body) (put_invoice id change is)
Balances-put_invoice id change [] k h = tt
Balances-put_invoice id change (i ∷ is) k h = elim (Bool-cases (i.id == id)) [
  | inl e ↦ rw e (subst Balances (sym (k i).3) h.0, Balances-put_invoice id change is k h.1)
  | inr e ↦ rw e (h.0, Balances-put_invoice id change is k h.1)
]

AllBalance-stable : Stable AllBalance Balances
unfolding AllBalance new_invoice
AllBalance-stable = record {
  on_issue = λ is rs c id now actor s body g p. (g, p);
  on_row = λ is rs c id change k p. Balances-put_invoice id change is k p;
  on_receipt = λ is rs c id actor input p. p;
  on_receipt_row = λ is rs c id change k p. p;
}

balanced_bodies : GoodBodies Balances IsReconciled
balanced_bodies = record {
  of_order = λ t s o b f e. order_body-Balances t s o b f e;
  of_custom = λ t percent s c input d. custom_body-Balances t percent s c input d;
  of_period = λ t s c from to place bs h. consolidated_body-Balances t s c from to place bs;
}

-- Where the recorded prices of every order reconcile, each invoice that any sequence of calls
-- issues balances: an order's, a custom one and a consolidated one.
pub run-Balances :
    (calls : List (ℕ × Call)) (w : Books)
    → All (FineCall IsReconciled) calls
    → All IsReconciled w.orders
    → All (λ (i : Invoice). Balances i.body) w.invoices
    → All (λ (i : Invoice). Balances i.body) (run calls w).invoices
unfolding AllBalance
run-Balances calls w fine orders h =
    (run-Inv AllBalance Balances IsReconciled AllBalance-stable balanced_bodies calls w fine
      (h, orders)).0
