-- ===== src/Invoices/Series.antt =====
-- The series of numbers of a financial year has no gap and no repetition.
use nation_wide.Common.{
  ℕ, zero, suc, ◌+◌, ◌≡◌, refl, ap, ◌∙◌, true, false, List, [], ◌∷◌, All, arith, ◌==◌,
  if◌then◌else◌, Bool-cases, inl, inr, ◌⊎◌,
}
use nation_wide.Invoices.Calendar.{indian_financial_year}
use nation_wide.Invoices.Numbering.{codes, financial_year_text, format_invoice_number}
use nation_wide.Invoices.Books.{
  OrderForInvoice, Invoice, Receipt, Counters, Books, bump, put_invoice, put_receipt,
}
use nation_wide.Invoices.Issue.{new_invoice}
use nation_wide.Invoices.Receipts.{new_receipt}
use nation_wide.Invoices.Rules.{Any, Stable, KeepsInvoice, KeepsReceipt}
use nation_wide.Invoices.Keeps.{GoodBodies}
use nation_wide.Invoices.Calls.{
  Call, generate, custom, consolidate, read, send, cancel_invoice, receipt_for_order,
  receipt_for_invoice, deliver_receipt, receipt_quietly, others, FineCall, run, run-Inv,
}

-- n, …, 2, 1.
abbrev pub count_down : ℕ → List ℕ
count_down zero = []
count_down (suc n) = suc n ∷ count_down n

-- The numbers that a year's documents have, where a list of documents has the newest first.
module _ {A : Type 0} (year_of sequence_of : A → ℕ) where
  abbrev pub numbers_of : ℕ → List A → List ℕ
  numbers_of y [] = []
  numbers_of y (d ∷ ds) =
      let rest = numbers_of y ds in if year_of d == y then sequence_of d ∷ rest else rest

  -- Each year's numbers are 1, 2, …, up to the year's counter.
  abbrev pub IsSeries : (ℕ → ℕ) → List A → Type 0
  IsSeries counter ds = (y : ℕ) → numbers_of y ds ≡ count_down (counter y)

  numbers_of-bump :
      (d : A) (ds : List A) (counter : ℕ → ℕ)
      → sequence_of d ≡ counter (year_of d) + 1
      → IsSeries counter ds
      → IsSeries (bump counter (year_of d)) (d ∷ ds)
  numbers_of-bump d ds counter e h y = step (Bool-cases (year_of d == y))
    where
      step :
          ((year_of d == y) ≡ true) ⊎ ((year_of d == y) ≡ false)
          → numbers_of y (d ∷ ds) ≡ count_down (bump counter (year_of d) y)
      step (inl t) =
          let same : year_of d ≡ y = ground arith in
          let back : (y == year_of d) ≡ true = ground arith in
          let more : counter y + 1 ≡ suc (counter y) = omega arith in
          let next : sequence_of d ≡ suc (counter y) = e ∙ ap (λ k. counter k + 1) same ∙ more in
          rw t (rw back (rw more (rw next (ap (λ l. suc (counter y) ∷ l) (h y)))))
      step (inr f) = let back : (y == year_of d) ≡ false = ground arith in rw f (rw back (h y))

-- The number is the text of its year and its place.
abbrev pub IsNumbered : Invoice → Type 0
IsNumbered i =
    i.invoice_number
    ≡ format_invoice_number i.sequence_number (financial_year_text i.financial_year) (codes "NW")

abbrev pub IsNumberedReceipt : Receipt → Type 0
IsNumberedReceipt r =
    r.receipt_number
    ≡ format_invoice_number r.sequence_number (financial_year_text r.financial_year) (codes "RCP")

-- In each financial year the invoices are numbered 1, 2, … up to the counter, the newest last, and
-- so are the receipts; each number is the text of its year and place.
abbrev pub IsUnbroken : List Invoice → List Receipt → Counters → Type 0
IsUnbroken is rs c =
    IsSeries (λ (i : Invoice). i.financial_year) (λ (i : Invoice). i.sequence_number) c.invoice is
    × IsSeries (λ (r : Receipt). r.financial_year) (λ (r : Receipt). r.sequence_number) c.receipt rs
    × All IsNumbered is
    × All IsNumberedReceipt rs

numbers-put_invoice :
    (y id : ℕ) (change : Invoice → Invoice) (is : List Invoice)
    → KeepsInvoice change
    → numbers_of
        (λ (i : Invoice). i.financial_year)
        (λ (i : Invoice). i.sequence_number)
        y
        (put_invoice id change is)
      ≡ numbers_of (λ (i : Invoice). i.financial_year) (λ (i : Invoice). i.sequence_number) y is
numbers-put_invoice y id change [] k = refl
numbers-put_invoice y id change (i ∷ is) k = elim (Bool-cases (i.id == id)) [
  | inl e ↦ rw e (rw ((k i).1, (k i).2) (rw (numbers-put_invoice y id change is k)))
  | inr e ↦ rw e (rw (numbers-put_invoice y id change is k))
]

IsNumbered-put_invoice :
    (id : ℕ) (change : Invoice → Invoice) (is : List Invoice)
    → KeepsInvoice change
    → All IsNumbered is
    → All IsNumbered (put_invoice id change is)
IsNumbered-put_invoice id change [] k h = tt
IsNumbered-put_invoice id change (i ∷ is) k h = elim (Bool-cases (i.id == id)) [
  | inl e ↦ rw e (rw ((k i).0, (k i).1, (k i).2) h.0, IsNumbered-put_invoice id change is k h.1)
  | inr e ↦ rw e (h.0, IsNumbered-put_invoice id change is k h.1)
]

numbers-put_receipt :
    (y id : ℕ) (change : Receipt → Receipt) (rs : List Receipt)
    → KeepsReceipt change
    → numbers_of
        (λ (r : Receipt). r.financial_year)
        (λ (r : Receipt). r.sequence_number)
        y
        (put_receipt id change rs)
      ≡ numbers_of (λ (r : Receipt). r.financial_year) (λ (r : Receipt). r.sequence_number) y rs
numbers-put_receipt y id change [] k = refl
numbers-put_receipt y id change (r ∷ rs) k = elim (Bool-cases (r.id == id)) [
  | inl e ↦ rw e (rw ((k r).1, (k r).2) (rw (numbers-put_receipt y id change rs k)))
  | inr e ↦ rw e (rw (numbers-put_receipt y id change rs k))
]

IsNumberedReceipt-put_receipt :
    (id : ℕ) (change : Receipt → Receipt) (rs : List Receipt)
    → KeepsReceipt change
    → All IsNumberedReceipt rs
    → All IsNumberedReceipt (put_receipt id change rs)
IsNumberedReceipt-put_receipt id change [] k h = tt
IsNumberedReceipt-put_receipt id change (r ∷ rs) k h = elim (Bool-cases (r.id == id)) [
  | inl e ↦
      rw e (rw ((k r).0, (k r).1, (k r).2) h.0, IsNumberedReceipt-put_receipt id change rs k h.1)
  | inr e ↦ rw e (h.0, IsNumberedReceipt-put_receipt id change rs k h.1)
]

IsUnbroken-stable : Stable IsUnbroken Any
unfolding new_invoice new_receipt
IsUnbroken-stable = record {
  on_issue = λ is rs c id now actor s body g p. (
    numbers_of-bump (λ (i : Invoice). i.financial_year) (λ (i : Invoice). i.sequence_number)
        (new_invoice id (c.invoice (indian_financial_year now) + 1) now actor s body) is c.invoice
        refl p.0,
    p.1,
    (refl, p.2),
    p.3,
  );
  on_row = λ is rs c id change k p. (
    λ y. numbers-put_invoice y id change is k ∙ p.0 y,
    p.1,
    IsNumbered-put_invoice id change is k p.2,
    p.3,
  );
  on_receipt = λ is rs c id actor input p. (
    p.0,
    numbers_of-bump (λ (r : Receipt). r.financial_year) (λ (r : Receipt). r.sequence_number)
        (new_receipt id (c.receipt (indian_financial_year input.received_at) + 1) actor input) rs
        c.receipt refl p.1,
    p.2,
    (refl, p.3),
  );
  on_receipt_row = λ is rs c id change k p. (
    p.0,
    λ y. numbers-put_receipt y id change rs k ∙ p.1 y,
    p.2,
    IsNumberedReceipt-put_receipt id change rs k p.3,
  );
}

free_bodies : GoodBodies Any Any
free_bodies = record {
  of_order = λ t s o b f e. tt;
  of_custom = λ t percent s c input d. tt;
  of_period = λ t s c from to place bs h. tt;
}

Any-orders : (os : List OrderForInvoice) → All Any os
Any-orders [] = tt
Any-orders (o ∷ os) = (tt, Any-orders os)

fine_call : (now : ℕ) (call : Call) → FineCall Any (now, call)
fine_call now (others orders customers settings up) = Any-orders orders
fine_call now (generate id actor) = tt
fine_call now (custom actor input) = tt
fine_call now (consolidate customer from to actor ids) = tt
fine_call now (read id) = tt
fine_call now (send id) = tt
fine_call now (cancel_invoice id reason actor) = tt
fine_call now (receipt_for_order id actor) = tt
fine_call now (receipt_for_invoice id amount method received actor) = tt
fine_call now (deliver_receipt id) = tt
fine_call now (receipt_quietly id actor) = tt

fine_calls : (calls : List (ℕ × Call)) → All (FineCall Any) calls
fine_calls [] = tt
fine_calls ((now, call) ∷ calls) = (fine_call now call, fine_calls calls)

-- Every sequence of calls, accepted, refused or cut off by a failing file store, keeps both series
-- unbroken: the numbers of each financial year are 1, 2, … up to its counter, with no gap and no
-- repetition, cancelled invoices included, and receipts take no number of the invoices.
pub run-IsUnbroken :
    (calls : List (ℕ × Call)) (w : Books)
    → IsUnbroken w.invoices w.receipts w.counters
    → IsUnbroken (run calls w).invoices (run calls w).receipts (run calls w).counters
run-IsUnbroken calls w h =
    (run-Inv IsUnbroken Any Any IsUnbroken-stable free_bodies calls w (fine_calls calls)
      (h, Any-orders w.orders)).0
