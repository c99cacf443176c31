-- ===== src/Invoices/Numbering/RoundTrip.antt =====
-- Reading an invoice number back: no two documents of a series have the same number.
use nation_wide.Common.{
  ℕ, zero, suc, ◌+◌, ◌-◌, ◌*◌, ◌/◌, ◌%◌, ◌≤◌, ◌<◌, ◌≡◌, refl, false, [], ◌∷◌, ap, ◌++◌, All, length,
  arith, ltb, ◌==◌, if◌then◌else◌, Bool-cases, inl, inr, ◌∙◌,
}
use nation_wide.Invoices.Numbering.{
  Text, digits_from, decimal, zeros, pad_start, financial_year_text, format_invoice_number,
}

-- The value of decimal digits, to read a number back.
value_from : ℕ → Text → ℕ
value_from acc [] = acc
value_from acc (c ∷ cs) = value_from (acc * 10 + (c - b'0')) cs

pub value : Text → ℕ
value cs = value_from 0 cs

value_from-append :
    (acc : ℕ) (xs : Text) (c : ℕ)
    → value_from acc (xs ++ c ∷ []) ≡ value_from acc xs * 10 + (c - b'0')
unfolding value_from
value_from-append acc [] c = refl
value_from-append acc (x ∷ xs) c = value_from-append (acc * 10 + (x - b'0')) xs c

value-digits_from : (fuel n : ℕ) → n < fuel → value_from 0 (digits_from fuel n) ≡ n
unfolding digits_from value_from
value-digits_from zero n h = absurd (omega arith)
value-digits_from (suc fuel) n h = elim (Bool-cases (ltb n 10)) [
  | inl e ↦ rw e (omega arith)
  | inr e ↦ rw e (
      let more : ltb n 10 ≡ false = e in
      rw (value_from-append 0 (digits_from fuel (n / 10)) (b'0' + n % 10)) (
        let rest : value_from 0 (digits_from fuel (n / 10)) ≡ n / 10 =
          value-digits_from fuel (n / 10) (ground arith) in
        omega arith))
]

value-zeros : (k : ℕ) (cs : Text) → value_from 0 (zeros k ++ cs) ≡ value_from 0 cs
unfolding zeros value_from
value-zeros zero cs = refl
value-zeros (suc k) cs = value-zeros k cs

-- No digit is a separator.
abbrev IsDigit : ℕ → Type 0
IsDigit c = (b'0' ≤ c) × (c ≤ b'9')

digits-append : (xs ys : Text) → All IsDigit xs → All IsDigit ys → All IsDigit (xs ++ ys)
digits-append [] ys h k = k
digits-append (x ∷ xs) ys h k = (h.0, digits-append xs ys h.1 k)

digits_from-All : (fuel n : ℕ) → All IsDigit (digits_from fuel n)
unfolding digits_from
digits_from-All zero n = tt
digits_from-All (suc fuel) n = elim (Bool-cases (ltb n 10)) [
  | inl e ↦ rw e ((omega arith, ground arith), tt)
  | inr e ↦ rw e (
      digits-append (digits_from fuel (n / 10)) _ (digits_from-All fuel (n / 10))
        ((omega arith, omega arith), tt))
]

zeros-All : (k : ℕ) → All IsDigit (zeros k)
unfolding zeros
zeros-All zero = tt
zeros-All (suc k) = ((omega arith, omega arith), zeros-All k)

decimal-All : (n : ℕ) → All IsDigit (decimal n)
unfolding decimal
decimal-All n = digits_from-All (suc n) n

pad_start-All : (width : ℕ) (s : Text) → All IsDigit s → All IsDigit (pad_start width s)
unfolding pad_start
pad_start-All width s h =
    digits-append (zeros (width - length s)) s (zeros-All (width - length s)) h

value-decimal : (n : ℕ) → value (decimal n) ≡ n
unfolding value decimal
value-decimal n = value-digits_from (suc n) n (omega arith)

value-pad_start : (width n : ℕ) → value (pad_start width (decimal n)) ≡ n
unfolding pad_start value
value-pad_start width n =
    value-zeros (width - length (decimal n)) (decimal n) ∙ unfold value in value-decimal n

-- What stands before and after the first separator.
pub split_at : ℕ → Text → Text × Text
split_at sep [] = ([], [])
split_at sep (c ∷ cs) =
    let later = split_at sep cs in if c == sep then ([], cs) else (c ∷ later.0, later.1)

abbrev pub Without : ℕ → Text → Type 0
Without sep = All (λ c. (c == sep) ≡ false)

split_at-append :
    (sep : ℕ) (xs ys : Text) → Without sep xs → split_at sep (xs ++ (sep ∷ ys)) ≡ (xs, ys)
unfolding split_at
split_at-append sep [] ys h = ground arith
split_at-append sep (x ∷ xs) ys h = rw h.0 (rw (split_at-append sep xs ys h.1))

digits-Without : (sep : ℕ) (xs : Text) → sep < b'0' → All IsDigit xs → Without sep xs
digits-Without sep [] b h = tt
digits-Without sep (x ∷ xs) b h = (ground arith, digits-Without sep xs b h.1)

-- The series, the financial year and the sequence number that a number names.
pub read_invoice_number : Text → ℕ × ℕ
unfolding split_at value
read_invoice_number t =
    let rest = (split_at b'/' t).1 in
    let parts = split_at b'/' rest in (value (split_at b'-' parts.0).0, value parts.1)

financial_year_text-All : (start : ℕ) → Without b'/' (financial_year_text start)
unfolding financial_year_text
financial_year_text-All start =
    plain (decimal start) (digits-Without b'/' _ (omega arith) (decimal-All start))
  where
    tail : Text
    tail = pad_start 2 (decimal ((start + 1) % 100))

    plain : (xs : Text) → Without b'/' xs → Without b'/' (xs ++ (b'-' ∷ tail))
    plain [] h = (
      refl,
      digits-Without b'/' tail (omega arith) (pad_start-All 2 _ (decimal-All ((start + 1) % 100))),
    )
    plain (x ∷ xs) h = (h.0, plain xs h.1)

split-financial_year_text :
    (start : ℕ) → value (split_at b'-' (financial_year_text start)).0 ≡ start
unfolding financial_year_text
split-financial_year_text start =
    rw
      (split_at-append b'-' (decimal start) (pad_start 2 (decimal ((start + 1) % 100)))
        (digits-Without b'-' _ (omega arith) (decimal-All start)))
      (value-decimal start)

-- A formatted number reads back as its financial year and its place in the series, whatever the
-- prefix without a slash.
pub read_invoice_number-format_invoice_number :
    (sequence start : ℕ) (prefix : Text)
    → Without b'/' prefix
    → read_invoice_number (format_invoice_number sequence (financial_year_text start) prefix)
      ≡ (start, sequence)
unfolding read_invoice_number format_invoice_number
read_invoice_number-format_invoice_number sequence start prefix h =
    rw (split_at-append b'/' prefix _ h) (
      rw
        (split_at-append b'/' (financial_year_text start) (pad_start 5 (decimal sequence))
          (financial_year_text-All start))
        (rw (split-financial_year_text start) (ap (λ n. (start, n)) (value-pad_start 5 sequence))))
