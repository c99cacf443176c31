-- ===== src/Invoices/Numbering.antt =====
-- `formatInvoiceNumber` and the text of `indianFinancialYear` of invoices/gst.ts, and the file
-- name that a document gets. A text is the list of its characters' codes.
pub mod RoundTrip
use Prim.Native.String
use Prim.Native.Char.{code}
use nation_wide.Common.{
  ℕ, zero, suc, ◌+◌, ◌-◌, ◌*◌, ◌/◌, ◌%◌, ◌≤◌, ◌<◌, ◌≡◌, ◌≢◌, refl, Bool, true, false, List, [], ◌∷◌,
  ◌++◌, map, All, length, String, arith, ltb, ◌==◌, if◌then◌else◌, Bool-cases, inl, inr, ◌∙◌,
}

abbrev pub Text : Type 0
Text = List ℕ

abbrev pub codes : String → Text
codes String.[] = []
codes (String.◌∷◌ c s) = code c ∷ codes s

-- `String(n)`.
digits_from : ℕ → ℕ → Text
digits_from zero n = []
digits_from (suc fuel) n =
    let front = digits_from fuel (n / 10) in
    if ltb n 10 then (b'0' + n) ∷ [] else front ++ (b'0' + n % 10) ∷ []

unfoldable pub decimal : ℕ → Text
unfolding digits_from
decimal n = digits_from (suc n) n

-- `padStart(width, '0')`.
zeros : ℕ → Text
zeros zero = []
zeros (suc n) = b'0' ∷ zeros n

unfoldable pub pad_start : ℕ → Text → Text
unfolding zeros
pad_start width s = zeros (width - length s) ++ s

unfoldable pub financial_year_text : ℕ → Text
unfolding decimal pad_start
financial_year_text start = decimal start ++ (b'-' ∷ pad_start 2 (decimal ((start + 1) % 100)))

-- The prefix is NW for an invoice and RCP for a receipt.
unfoldable pub format_invoice_number : ℕ → Text → Text → Text
unfolding decimal pad_start
format_invoice_number sequence financial_year prefix =
    prefix ++ (b'/' ∷ (financial_year ++ (b'/' ∷ pad_start 5 (decimal sequence))))

dashed : ℕ → ℕ
dashed c = if c == b'/' then b'-' else c

unfoldable pub filename_for : Text → Text
unfolding dashed
filename_for number = map dashed number ++ codes ".pdf"

test : format_invoice_number 42 (financial_year_text 2026) (codes "NW") ≡ codes "NW/2026-27/00042"
unfolding format_invoice_number financial_year_text
test = refl

test_file : filename_for (codes "NW/2026-27/00042") ≡ codes "NW-2026-27-00042.pdf"
unfolding filename_for
test_file = refl
