-- ===== src/Invoices/Unbilled.antt =====
-- Which orders `collectConsolidatable` hands on, and that it hands on none twice.
use mathlib.Core.Option.{some-injective}
use nation_wide.Common.{
  ℕ, ◌≤◌, ◌≡◌, ◌≢◌, sym, Bool, true, false, ◌||◌, Option, none, some, List, [], ◌∷◌, All, In,
  All-imp, All-filter_by, All-sort_by, All-self, AllPairs, AllPairs-sort_by, AllPairs-filter_by,
  filter_by, any, arith, ◌==◌, Bool-cases, inl, inr,
}
use nation_wide.Gst.{ChargedBreakdown, resolve_charged_breakdown}
use nation_wide.Store.{OrderStatus, PaymentStatus}
use nation_wide.Invoices.Books.{OrderForInvoice, Invoice, InvoiceLine, Books}
use nation_wide.Invoices.Order.{candidates_of, bills_order}
use nation_wide.Invoices.Consolidated.{
  Billable, Collected, candidates, is_candidate, is_line_of, already_billed, sort_out_priced,
  sort_out, selected,
}

-- An order that the books may bill in the period: the customer's, paid, not cancelled, and neither
-- on an invoice of its own nor on a line of another.
abbrev pub IsUnbilled : ℕ → ℕ → ℕ → Books → OrderForInvoice → Type 0
IsUnbilled customer from to w o =
    In o w.orders
    × (o.customer.id ≡ customer)
    × (from ≤ o.created_at)
    × (o.created_at ≤ to)
    × (o.status ≢ OrderStatus.cancelled)
    × (o.payment_status ≡ PaymentStatus.paid)
    × All (λ (i : Invoice). i.body.order_id ≢ some o.id) w.invoices
    × All (λ (l : InvoiceLine). l.order_id ≢ o.id) w.lines

-- What the tests of the code say.
abbrev IsPassed : ℕ → ℕ → ℕ → Books → OrderForInvoice → Type 0
IsPassed customer from to w o =
    In o w.orders × (is_candidate customer from to o ≡ true) × (already_billed w o.id ≡ false)

no_invoice :
    (id : ℕ) (is : List Invoice)
    → any (bills_order id) is ≡ false
    → All (λ (i : Invoice). i.body.order_id ≢ some id) is
no_invoice id [] h = tt
no_invoice id (i ∷ is) h = elim (Bool-cases (bills_order id i)) [
  | inl e ↦ absurd (cc (rw e at h))
  | inr e ↦ (other i.body.order_id e, no_invoice id is (rw e at h))
]
  where
    other :
        (order_id : Option ℕ)
        → (elim order_id [ none ↦ false | some o ↦ o == id ]) ≡ false
        → order_id ≢ some id
    other none f same = absurd (cc)
    other (some o) f same = let equal : o ≡ id = some-injective _ _ same in absurd (ground arith)

no_line :
    (id : ℕ) (ls : List InvoiceLine)
    → any (is_line_of id) ls ≡ false
    → All (λ (l : InvoiceLine). l.order_id ≢ id) ls
no_line id [] h = tt
no_line id (l ∷ ls) h = elim (Bool-cases (l.order_id == id)) [
  | inl e ↦ absurd (cc (rw e at h))
  | inr e ↦ (λ same. ground arith, no_line id ls (rw e at h))
]

candidate_facts :
    (customer from to : ℕ) (o : OrderForInvoice)
    → is_candidate customer from to o ≡ true
    → (o.customer.id ≡ customer)
      × (from ≤ o.created_at)
      × (o.created_at ≤ to)
      × (o.status ≢ OrderStatus.cancelled)
      × (o.payment_status ≡ PaymentStatus.paid)
candidate_facts customer from to o h =
    (ground arith, ground arith, ground arith, λ e. ground arith, ground arith)

or_false : (a b : Bool) → (a || b) ≡ false → (a ≡ false) × (b ≡ false)
or_false a b h = (ground arith, ground arith)

pub IsPassed-IsUnbilled :
    (customer from to : ℕ) (w : Books) (o : OrderForInvoice)
    → IsPassed customer from to w o
    → IsUnbilled customer from to w o
unfolding already_billed
IsPassed-IsUnbilled customer from to w o h =
    let facts = candidate_facts customer from to o h.1 in
    let none_of =
      or_false (any (bills_order o.id) w.invoices) (any (is_line_of o.id) w.lines) h.2 in
    (
      h.0,
      facts.0,
      facts.1,
      facts.2,
      facts.3,
      facts.4,
      no_invoice o.id w.invoices none_of.0,
      no_line o.id w.lines none_of.1,
    )

candidates-All :
    (customer from to : ℕ) (w : Books)
    → All
        (λ o. In o w.orders × (is_candidate customer from to o ≡ true))
        (candidates customer from to w)
candidates-All customer from to w =
    (All-sort_by (λ (o : OrderForInvoice). o.created_at)
        (λ o. In o w.orders × (is_candidate customer from to o ≡ true))
        (filter_by (is_candidate customer from to) w.orders)).1
      (All-filter_by (λ o. In o w.orders) (is_candidate customer from to) w.orders
        (All-self w.orders))

-- No two rows have one id.
abbrev pub AreApart : List OrderForInvoice → Type 0
AreApart = AllPairs (λ (a b : OrderForInvoice). a.id ≢ b.id)

candidates-AreApart :
    (customer from to : ℕ) (w : Books)
    → AreApart w.orders
    → AreApart (candidates customer from to w)
candidates-AreApart customer from to w h =
    (AllPairs-sort_by (λ (o : OrderForInvoice). o.created_at)
        (λ (a b : OrderForInvoice). a.id ≢ b.id) (λ x y d e. d (sym e))
        (filter_by (is_candidate customer from to) w.orders)).1
      (AllPairs-filter_by (is_candidate customer from to) w.orders (λ x y p q d. d) h)

abbrev pub AreDistinct : List Billable → Type 0
AreDistinct = AllPairs (λ (a b : Billable). a.order.id ≢ b.order.id)

sort_out_priced-All :
    (P : OrderForInvoice → Type 0) (o : OrderForInvoice) (b : Option ChargedBreakdown)
    (c : Collected)
    → P o
    → All (λ (b : Billable). P b.order) c.billable
    → All (λ (b : Billable). P b.order) (sort_out_priced o b c).billable
unfolding sort_out_priced
sort_out_priced-All P o none c u h = h
sort_out_priced-All P o (some b) c u h = (u, h)

-- What holds of each order that is not billed yet holds of each that is handed on.
sort_out-All :
    (P : OrderForInvoice → Type 0) (w : Books) (os : List OrderForInvoice)
    → All (λ o. already_billed w o.id ≡ false → P o) os
    → All (λ (b : Billable). P b.order) (sort_out w os).billable
unfolding sort_out
sort_out-All P w [] h = tt
sort_out-All P w (o ∷ os) h = elim (Bool-cases (already_billed w o.id)) [
  | inl e ↦ rw e (sort_out-All P w os h.1)
  | inr e ↦
      let added =
        sort_out_priced-All P o (resolve_charged_breakdown (candidates_of o)) (sort_out w os)
          (h.0 e) (sort_out-All P w os h.1) in
      rw e added
]

sort_out_priced-AreDistinct :
    (o : OrderForInvoice) (b : Option ChargedBreakdown) (c : Collected)
    → All (λ (b : Billable). o.id ≢ b.order.id) c.billable
    → AreDistinct c.billable
    → AreDistinct (sort_out_priced o b c).billable
unfolding sort_out_priced
sort_out_priced-AreDistinct o none c u h = h
sort_out_priced-AreDistinct o (some b) c u h = (u, h)

sort_out-AreDistinct :
    (w : Books) (os : List OrderForInvoice) → AreApart os → AreDistinct (sort_out w os).billable
unfolding sort_out
sort_out-AreDistinct w [] h = tt
sort_out-AreDistinct w (o ∷ os) h = elim (Bool-cases (already_billed w o.id)) [
  | inl e ↦ rw e (sort_out-AreDistinct w os h.1)
  | inr e ↦
      let added =
        sort_out_priced-AreDistinct o (resolve_charged_breakdown (candidates_of o)) (sort_out w os)
          (sort_out-All (λ p. o.id ≢ p.id) w os (All-imp os (λ p d n. d) h.0))
          (sort_out-AreDistinct w os h.1) in
      rw e added
]

module _ (customer from to : ℕ) (w : Books) where
  -- Each order may be billed, and none is there twice.
  abbrev pub AreUnbilled : List Billable → Type 0
  AreUnbilled bs = All (λ b. IsUnbilled customer from to w b.order) bs × AreDistinct bs

  pub sort_out-AreUnbilled :
      AreApart w.orders → AreUnbilled (sort_out w (candidates customer from to w)).billable
  sort_out-AreUnbilled h = (
    sort_out-All (IsUnbilled customer from to w) w (candidates customer from to w) (
        All-imp (candidates customer from to w)
          (λ o p n. IsPassed-IsUnbilled customer from to w o (p.0, p.1, n))
          (candidates-All customer from to w)),
    sort_out-AreDistinct w (candidates customer from to w)
        (candidates-AreApart customer from to w h),
  )

  pub selected-AreUnbilled :
      (ids : Option (List ℕ)) (bs : List Billable) → AreUnbilled bs → AreUnbilled (selected ids bs)
  selected-AreUnbilled none bs h = h
  selected-AreUnbilled (some ids) bs h =
      let ticked : Billable → Bool = λ b. any (λ id. id == b.order.id) ids in
      (
        All-imp (filter_by ticked bs) (λ b k. k.0)
            (All-filter_by (λ b. IsUnbilled customer from to w b.order) ticked bs h.0),
        AllPairs-filter_by ticked bs (λ x y p q d. d) h.1,
      )
