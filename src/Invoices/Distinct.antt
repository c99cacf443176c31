-- ===== src/Invoices/Distinct.antt =====
-- No two invoices have the same number.
use nation_wide.Common.{
  ℕ, zero, suc, ◌≤◌, ◌≡◌, ◌≢◌, refl, sym, ap, ◌∙◌, subst, true, List, [], ◌∷◌, All, AllPairs,
  All-zip, All-imp, arith, ◌==◌, Bool-cases, inl, inr,
}
use nation_wide.Invoices.Numbering.{codes}
use nation_wide.Invoices.Numbering.RoundTrip.{
  read_invoice_number, read_invoice_number-format_invoice_number,
}
use nation_wide.Invoices.Books.{Invoice, Books}
use nation_wide.Invoices.Series.{
  count_down, numbers_of, IsSeries, IsNumbered, IsUnbroken, run-IsUnbroken,
}
use nation_wide.Invoices.Calls.{Call, run}

count_down-le : (n : ℕ) → All (λ s. s ≤ n) (count_down n)
count_down-le zero = tt
count_down-le (suc n) = (omega arith, All-imp (count_down n) (λ s h. omega arith) (count_down-le n))

-- What the first number of a count down says of it.
uncons :
    (s n : ℕ) (rest : List ℕ)
    → s ∷ rest ≡ count_down n
    → (m : ℕ) × (s ≡ suc m) × (rest ≡ count_down m)
uncons s zero rest e = cc
uncons s (suc m) rest e = (m, cc, cc)

module _ {A : Type 0} (year_of sequence_of : A → ℕ) where
  abbrev numbers : ℕ → List A → List ℕ
  numbers = numbers_of year_of sequence_of

  -- Where each year counts down from some number.
  abbrev Descends : List A → Type 0
  Descends ds = (y : ℕ) → (n : ℕ) × (numbers y ds ≡ count_down n)

  bounded :
      (y n : ℕ) (ds : List A)
      → All (λ s. s ≤ n) (numbers y ds)
      → All (λ d. year_of d ≡ y → sequence_of d ≤ n) ds
  bounded y n [] h = tt
  bounded y n (d ∷ ds) h = elim (Bool-cases (year_of d == y)) [
    | inl t ↦ let h' = rw t at h in (λ e. h'.0, bounded y n ds h'.1)
    | inr f ↦ let h' = rw f at h in (λ e. ground arith, bounded y n ds h')
  ]

  head_of :
      (d : A) (ds : List A)
      → Descends (d ∷ ds)
      → (m : ℕ) × (sequence_of d ≡ suc m) × (numbers (year_of d) ds ≡ count_down m)
  head_of d ds h =
      let same : (year_of d == year_of d) ≡ true = ground arith in
      let (n, e) = h (year_of d) in uncons (sequence_of d) n (numbers (year_of d) ds) (rw same at e)

  tail_of : (d : A) (ds : List A) → Descends (d ∷ ds) → Descends ds
  tail_of d ds h y = elim (Bool-cases (year_of d == y)) [
    | inl t ↦
        let same : year_of d ≡ y = ground arith in
        let (m, e, k) = head_of d ds h in (m, subst (λ z. numbers z ds ≡ count_down m) same k)
    | inr f ↦ let (n, e) = h y in (n, rw f at e)
  ]

  abbrev pub Apart : A → A → Type 0
  Apart d e = year_of d ≡ year_of e → sequence_of d ≢ sequence_of e

  apart : (ds : List A) → Descends ds → AllPairs Apart ds
  apart [] h = tt
  apart (d ∷ ds) h =
      let (m, e, k) = head_of d ds h in
      (
        All-imp ds (λ x b same equal. absurd (omega (arith, b (sym same))))
            (bounded (year_of d) m ds (subst (All (λ s. s ≤ m)) (sym k) (count_down-le m))),
        apart ds (tail_of d ds h),
      )

  pub IsSeries-Apart :
      (counter : ℕ → ℕ) (ds : List A) → IsSeries year_of sequence_of counter ds → AllPairs Apart ds
  IsSeries-Apart counter ds h = apart ds (λ y. (counter y, h y))

abbrev pub Differ : Invoice → Invoice → Type 0
Differ i j = i.invoice_number ≢ j.invoice_number

named :
    (i : Invoice)
    → IsNumbered i
    → read_invoice_number i.invoice_number ≡ (i.financial_year, i.sequence_number)
named i h =
    ap read_invoice_number h
    ∙ read_invoice_number-format_invoice_number i.sequence_number i.financial_year (codes "NW")
        (refl, (refl, tt))

differ :
    (i j : Invoice)
    → IsNumbered i
    → IsNumbered j
    → Apart (λ (x : Invoice). x.financial_year) (λ (x : Invoice). x.sequence_number) i j
    → Differ i j
differ i j hi hj apart e =
    let same : (i.financial_year, i.sequence_number) ≡ (j.financial_year, j.sequence_number) =
      sym (named i hi) ∙ ap read_invoice_number e ∙ named j hj in
    apart (ap (λ p. p.0) same) (ap (λ p. p.1) same)

all-Differ :
    (is : List Invoice)
    → All IsNumbered is
    → AllPairs (Apart (λ (x : Invoice). x.financial_year) (λ (x : Invoice). x.sequence_number)) is
    → AllPairs Differ is
all-Differ [] h k = tt
all-Differ (i ∷ is) h k = (
  All-imp is (λ j p. differ i j h.0 p.0 p.1)
      (All-zip IsNumbered
        (Apart (λ (x : Invoice). x.financial_year) (λ (x : Invoice). x.sequence_number) i) is h.1
        k.0),
  all-Differ is h.1 k.1,
)

-- From books whose series are unbroken, no sequence of calls gives two invoices the same number,
-- not in different financial years either.
pub run-Differ :
    (calls : List (ℕ × Call)) (w : Books)
    → IsUnbroken w.invoices w.receipts w.counters
    → AllPairs Differ (run calls w).invoices
run-Differ calls w h =
    let unbroken = run-IsUnbroken calls w h in
    all-Differ (run calls w).invoices unbroken.2 (
      IsSeries-Apart (λ (x : Invoice). x.financial_year) (λ (x : Invoice). x.sequence_number)
        (run calls w).counters.invoice (run calls w).invoices unbroken.0)
