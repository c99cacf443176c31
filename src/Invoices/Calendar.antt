-- ===== src/Invoices/Calendar.antt =====
-- The parts of a date that `indianFinancialYear` of invoices/gst.ts reads: `getUTCFullYear` and
-- `getUTCMonth` of the Gregorian calendar. Times are milliseconds since 1 January 1970, UTC.
use nation_wide.Common.{
  ℕ, zero, suc, ◌+◌, ◌-◌, ◌*◌, ◌/◌, ◌%◌, ◌≤◌, ◌<◌, ◌≡◌, refl, not, ◌&&◌, ◌||◌, subst, arith, ltb,
  ◌==◌, if◌then◌else◌, Bool-cases, inl, inr, ◌↔◌,
}

abbrev pub day_ms : ℕ
day_ms = 86_400_000

-- Whole minutes, as `tzOffsetMinutes`: India is 330 minutes ahead.
abbrev pub tz_offset_minutes : ℕ
tz_offset_minutes = 330

unfoldable pub leap : ℕ → ℕ
leap y = if (y % 4 == 0) && (not (y % 100 == 0) || (y % 400 == 0)) then 1 else 0

-- The year that the day lies in, counted from 1 January of `y`, and the day of that year.
year_from : ℕ → ℕ → ℕ → ℕ × ℕ
year_from zero y d = (y, d)
year_from (suc fuel) y d =
    let later = year_from fuel (y + 1) (d - (365 + leap y)) in
    if ltb d (365 + leap y) then (y, d) else later

-- A year takes at least 365 days, so there are fewer years than days.
unfoldable pub civil_year : ℕ → ℕ × ℕ
unfolding year_from leap
civil_year days = year_from (days / 365 + 1) 1970 days

-- Days before 1 January, 1 February, 1 March and 1 April.
abbrev pub get_utc_month : ℕ → ℕ → ℕ
get_utc_month y d =
    if ltb d 31
    then 0
    else if ltb d (59 + leap y)
    then 1
    else if ltb d (90 + leap y)
    then 2
    else if ltb d (120 + leap y)
    then 3
    else if ltb d (151 + leap y)
    then 4
    else if ltb d (181 + leap y)
    then 5
    else if ltb d (212 + leap y)
    then 6
    else if ltb d (243 + leap y)
    then 7
    else if ltb d (273 + leap y)
    then 8
    else if ltb d (304 + leap y)
    then 9
    else if ltb d (334 + leap y)
    then 10
    else 11

abbrev start_year : ℕ × ℕ → ℕ
start_year (y, d) = if ltb (get_utc_month y d) 3 then y - 1 else y

-- The year that a financial year is named by: the one that it starts in.
unfoldable pub indian_financial_year : ℕ → ℕ
unfolding civil_year leap
indian_financial_year t = start_year (civil_year ((t + tz_offset_minutes * 60_000) / day_ms))

-- The days from 1 January 1970 to 1 January `1970 + k`.
days_to : ℕ → ℕ
days_to zero = 0
days_to (suc k) = days_to k + 365 + leap (1970 + k)

-- The days from 1 January 1970 to 1 April of `1970 + k`, and the time of that day's beginning.
april_day : ℕ → ℕ
april_day k = days_to k + 90 + leap (1970 + k)

pub april_first : ℕ → ℕ
april_first k = april_day k * day_ms

-- What the days are of, and that the fuel is enough.
abbrev IsYear : ℕ × ℕ → ℕ → Type 0
IsYear (y, d) n = (j : ℕ) × (y ≡ 1970 + j) × (d + days_to j ≡ n) × (n < days_to (suc j))

year_from-IsYear :
    (fuel k d : ℕ) → d < 365 * fuel → IsYear (year_from fuel (1970 + k) d) (d + days_to k)
unfolding year_from days_to
year_from-IsYear zero k d h = absurd (omega arith)
year_from-IsYear (suc fuel) k d h = elim (Bool-cases (ltb d (365 + leap (1970 + k)))) [
  | inl e ↦ rw e (k, refl, refl, ground arith)
  | inr e ↦ rw e (
      let less : 365 + leap (1970 + k) ≤ d = ground arith in
      let same : d - (365 + leap (1970 + k)) + days_to (suc k) ≡ d + days_to k = omega arith in
      let next : 1970 + k + 1 ≡ 1970 + suc k = omega arith in
      rw next
        (rw (← same) (year_from-IsYear fuel (suc k) (d - (365 + leap (1970 + k))) (omega arith))))
]

days_to_mono : (i j : ℕ) → i < j → days_to (suc i) ≤ days_to j
unfolding days_to
days_to_mono i zero h = absurd (omega arith)
days_to_mono i (suc j) h = elim (Bool-cases (ltb i j)) [
  | inl e ↦ omega (arith, days_to_mono i j (ground arith))
  | inr e ↦ let same : i ≡ j = ground arith in rw same (omega arith)
]

leap-le : (y : ℕ) → leap y ≤ 1
unfolding leap
leap-le y = ground arith

-- The tests from April on do not matter.
before_april : (y d : ℕ) → ltb (get_utc_month y d) 3 ≡ ltb d (90 + leap y)
before_april y d = ground (arith, leap-le y)

start_year_lem : (y d : ℕ) → start_year (y, d) ≡ (if ltb d (90 + leap y) then y - 1 else y)
start_year_lem y d = rw (before_april y d)

april_day-le : (i j : ℕ) → i < j → april_day i ≤ days_to j
unfolding april_day days_to
april_day-le i j h = omega (arith, days_to_mono i j h, leap-le (1970 + i))

april_day_mono : (i j : ℕ) → i < j → april_day (suc i) ≤ april_day j
unfolding april_day days_to
april_day_mono i j h = elim (Bool-cases (ltb (suc i) j)) [
  | inl e ↦ omega (arith, days_to_mono (suc i) j (ground arith), leap-le (1970 + suc i))
  | inr e ↦ let same : suc i ≡ j = ground arith in rw (← same) (omega arith)
]

-- The year from 1 April of `1970 + k` to the next.
abbrev LiesIn : ℕ → ℕ → Type 0
LiesIn n k = (april_day k ≤ n) × (n < april_day (suc k))

LiesIn-unique : (n i k : ℕ) → LiesIn n i → LiesIn n k → i ≡ k
LiesIn-unique n i k a b = ground (arith, april_day_mono i k, april_day_mono k i)

eq_iff-LiesIn : (n i k : ℕ) → LiesIn n i → (i ≡ k) ↔ LiesIn n k
eq_iff-LiesIn n i k a = (λ e. subst (LiesIn n) e a, λ b. LiesIn-unique n i k a b)

LiesIn-from_april : (n j : ℕ) → n < days_to (suc j) → april_day j ≤ n → LiesIn n j
unfolding april_day
LiesIn-from_april n j hi h = (h, omega arith)

LiesIn-before_april : (n i : ℕ) → days_to (suc i) ≤ n → n < april_day (suc i) → LiesIn n i
LiesIn-before_april n i lo h = (omega (arith, april_day-le i (suc i) (omega arith)), h)

shift_iff : (i k : ℕ) → (1970 + i ≡ 1970 + k) ↔ (i ≡ k)
shift_iff i k = (λ h. omega arith, λ h. omega arith)

trans_iff : {A B C : Type 0} → A ↔ B → B ↔ C → A ↔ C
trans_iff f g = (λ a. g.0 (f.0 a), λ c. f.1 (g.1 c))

-- From January to March the financial year is the one that began in the year before.
early_year_iff :
    (j d k n : ℕ)
    → d + days_to j ≡ n
    → n < days_to (suc j)
    → d < 90 + leap (1970 + j)
    → (1970 + j - 1 ≡ 1970 + k) ↔ LiesIn n k
unfolding april_day days_to leap
early_year_iff zero d k n ed hi h = (λ e. absurd (omega arith), λ b. absurd (omega arith))
early_year_iff (suc i) d k n ed hi h =
    let same : 1970 + suc i - 1 ≡ 1970 + i = omega arith in
    rw same (
      trans_iff (shift_iff i k)
        (eq_iff-LiesIn n i k (LiesIn-before_april n i (omega arith) (omega arith))))

start_year_iff :
    (j d k n : ℕ)
    → d + days_to j ≡ n
    → n < days_to (suc j)
    → (start_year (1970 + j, d) ≡ 1970 + k) ↔ LiesIn n k
unfolding april_day
start_year_iff j d k n ed hi =
    rw (start_year_lem (1970 + j) d) (elim (Bool-cases (ltb d (90 + leap (1970 + j)))) [
      | inl e ↦ rw e (early_year_iff j d k n ed hi (ground arith))
      | inr e ↦ rw e (
          trans_iff (shift_iff j k) (eq_iff-LiesIn n j k (LiesIn-from_april n j hi (ground arith))))
    ])

of_year : (p : ℕ × ℕ) (k n : ℕ) → IsYear p n → (start_year p ≡ 1970 + k) ↔ LiesIn n k
of_year (y, d) k n (j, ey, ed, less) = rw ey (start_year_iff j d k n ed less)

civil_year-IsYear : (days : ℕ) → IsYear (civil_year days) days
unfolding civil_year days_to
civil_year-IsYear days =
    let none_before : days + days_to 0 ≡ days = omega arith in
    subst (IsYear (civil_year days)) none_before
      (year_from-IsYear (days / 365 + 1) 0 days (omega arith))

LiesIn-april_first :
    (u k : ℕ) → LiesIn (u / day_ms) k ↔ ((april_first k ≤ u) × (u < april_first (suc k)))
unfolding april_first
LiesIn-april_first u k = (λ h. omega arith, λ h. omega arith)

-- A time lies in the financial year that is named `1970 + k` exactly when, by the clocks of India,
-- it is not before 1 April of that year and is before 1 April of the next.
pub indian_financial_year_iff :
    (t k : ℕ)
    → (indian_financial_year t ≡ 1970 + k)
      ↔ ((april_first k ≤ t + 330 * 60_000) × (t + 330 * 60_000 < april_first (suc k)))
unfolding indian_financial_year
indian_financial_year_iff t k =
    let days : ℕ = (t + 330 * 60_000) / day_ms in
    trans_iff (of_year (civil_year days) k days (civil_year-IsYear days))
      (LiesIn-april_first (t + 330 * 60_000) k)
