-- ===== src/Invoices/States.antt =====
-- `gstStateCode` and `isIntraStateSupply` of invoices/indian-states.ts.
use text.Mathlib.Text.{◌==◌ as str_eq}
use nation_wide.Common.{
  Bool, false, Option, none, some, List, [], ◌∷◌, if◌then◌else◌, or_default, String,
}

-- The string methods of JavaScript that `normalise` calls: `trim`, `toLowerCase`, and `replace`
-- with `/\s+/g` to a space and with `/&/g` to "and".
pub record StateTexts : Type 0 where
  pub trim : String → String
  pub to_lower_case : String → String
  pub single_spaces : String → String
  pub ampersands_to_and : String → String

abbrev Entries : Type 0
Entries = List (String × String)

state_codes : Entries
state_codes =
    ("jammu and kashmir", "01")
    ∷ ("himachal pradesh", "02")
    ∷ ("punjab", "03")
    ∷ ("chandigarh", "04")
    ∷ ("uttarakhand", "05")
    ∷ ("haryana", "06")
    ∷ ("delhi", "07")
    ∷ ("rajasthan", "08")
    ∷ ("uttar pradesh", "09")
    ∷ ("bihar", "10")
    ∷ ("sikkim", "11")
    ∷ ("arunachal pradesh", "12")
    ∷ ("nagaland", "13")
    ∷ ("manipur", "14")
    ∷ ("mizoram", "15")
    ∷ ("tripura", "16")
    ∷ ("meghalaya", "17")
    ∷ ("assam", "18")
    ∷ ("west bengal", "19")
    ∷ ("jharkhand", "20")
    ∷ ("odisha", "21")
    ∷ ("chhattisgarh", "22")
    ∷ ("madhya pradesh", "23")
    ∷ ("gujarat", "24")
    ∷ ("dadra and nagar haveli and daman and diu", "26")
    ∷ ("maharashtra", "27")
    ∷ ("karnataka", "29")
    ∷ ("goa", "30")
    ∷ ("lakshadweep", "31")
    ∷ ("kerala", "32")
    ∷ ("tamil nadu", "33")
    ∷ ("puducherry", "34")
    ∷ ("andaman and nicobar islands", "35")
    ∷ ("telangana", "36")
    ∷ ("andhra pradesh", "37")
    ∷ ("ladakh", "38")
    ∷ ("other territory", "97")
    ∷ []

-- Alternates and old spellings.
aliases : Entries
aliases =
    ("orissa", "odisha")
    ∷ ("pondicherry", "puducherry")
    ∷ ("new delhi", "delhi")
    ∷ ("nct of delhi", "delhi")
    ∷ ("uttaranchal", "uttarakhand")
    ∷ ("daman and diu", "dadra and nagar haveli and daman and diu")
    ∷ ("dadra and nagar haveli", "dadra and nagar haveli and daman and diu")
    ∷ ("jammu & kashmir", "jammu and kashmir")
    ∷ ("telengana", "telangana")
    ∷ []

-- A property of the object, or undefined.
property : String → Entries → Option String
property key [] = none
property key ((k, v) ∷ rest) = if str_eq k key then some v else property key rest

normalise : StateTexts → String → String
normalise t state = t.ampersands_to_and (t.single_spaces (t.to_lower_case (t.trim state)))

-- `if (!value)`: the empty text is no value.
abbrev pub is_blank : String → Bool
is_blank s = str_eq s ""

unfoldable pub gst_state_code : StateTexts → String → Option String
unfolding state_codes aliases property normalise
gst_state_code t state =
    let key = normalise t state in
    if is_blank state then none else property (or_default (property key aliases) key) state_codes

unfoldable pub is_intra_state_supply : Option String → Option String → Bool
is_intra_state_supply (some supplier) (some place) = str_eq supplier place
is_intra_state_supply _ _ = false
