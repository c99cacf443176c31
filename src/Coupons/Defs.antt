-- ===== src/Coupons/Defs.antt =====
-- `CouponsService`: create, setActive, validate, redeem.
use text.Mathlib.Text.{◌==◌ as str_eq}
use nation_wide.Common.{
  ℕ, ◌+◌, Bool, true, false, not, ◌&&◌, Option, none, some, List, [], ◌∷◌, ltb, leb, ◌==◌,
  if◌then◌else◌, find, any, String,
}
use nation_wide.Store.{
  Texts, Coupon, M, ok, err, not_found, conflict, bad_request, coupon_inactive, coupon_expired,
  coupon_used_up, pure, or_raise, ◌>>=◌, ◌>>◌, raise_if,
}

unfoldable pub normalize_code : Texts → String → String
normalize_code t code = t.to_upper (t.trim code)

abbrev pub has_code : String → Coupon → Bool
has_code code c = str_eq c.code code

abbrev pub has_id : ℕ → Coupon → Bool
has_id id c = c.id == id

-- A unique index on the code refuses the second row.
unfoldable pub create : String → ℕ → Option ℕ → Option ℕ → M Coupon
unfolding normalize_code
create raw discount expires_at max_redemptions w =
    let code = normalize_code w.texts raw in
    let coupon : Coupon = record {
      id = w.next_id;
      code = code;
      discount_amount = discount;
      is_active = true;
      expires_at = expires_at;
      max_redemptions = max_redemptions;
      times_used = 0;
    } in
    if any (has_code code) w.coupons
    then (err conflict, w)
    else (ok coupon, record w { coupons = coupon ∷ w.coupons; next_id = w.next_id + 1 })

unfoldable pub with_active : ℕ → Bool → List Coupon → List Coupon
with_active id active [] = []
with_active id active (c ∷ cs) =
    (if c.id == id then record c { is_active = active } else c) ∷ with_active id active cs

unfoldable pub set_active : ℕ → Bool → M (Unit {0})
unfolding with_active
set_active id active w = elim (find (has_id id) w.coupons) [
  | none ↦ (err not_found, w)
  | some c ↦ (ok tt, record w { coupons = with_active id active w.coupons })
]

-- `coupon.expiresAt && coupon.expiresAt.getTime() < Date.now()`.
unfoldable pub has_expired : ℕ → Option ℕ → Bool
has_expired now none = false
has_expired now (some t) = ltb t now

-- `coupon.maxRedemptions !== null && coupon.timesUsed >= coupon.maxRedemptions`.
unfoldable pub used_up : Option ℕ → ℕ → Bool
used_up none used = false
used_up (some limit) used = leb limit used

-- The checks of `validate` on the coupon that it found.
unfoldable pub check : ℕ → Coupon → M Coupon
check now c = do
  raise_if (not c.is_active) (bad_request coupon_inactive)
  raise_if (has_expired now c.expires_at) (bad_request coupon_expired)
  raise_if (used_up c.max_redemptions c.times_used) (bad_request coupon_used_up)
  pure c

unfoldable pub validate : ℕ → String → M Coupon
unfolding normalize_code check
validate now code = do
  c ← λ w. or_raise (find (has_code (normalize_code w.texts code)) w.coupons) not_found w
  check now c

-- `timesUsed: { lt: maxRedemptions }` on the row as it is now.
abbrev pub may_count : Option ℕ → Coupon → Bool
may_count none c = c.is_active
may_count (some limit) c = c.is_active && ltb c.times_used limit

-- The `updateMany` of `redeem`, for the limit that was read by `validate`.
unfoldable pub bump : ℕ → Option ℕ → List Coupon → Option (List Coupon)
bump id limit [] = none
bump id limit (c ∷ cs) =
    if c.id == id
    then if may_count limit c then some (record c { times_used = c.times_used + 1 } ∷ cs) else none
    else elim (bump id limit cs) [ none ↦ none | some ds ↦ some (c ∷ ds) ]

-- The write of `redeem`, for a coupon that was read at some earlier moment.
unfoldable pub redeem_claim : Coupon → M Coupon
unfolding bump
redeem_claim c w = elim (bump c.id c.max_redemptions w.coupons) [
  | none ↦ (err (bad_request coupon_used_up), w)
  | some cs ↦ (ok c, record w { coupons = cs })
]

unfoldable pub redeem : ℕ → String → M Coupon
redeem now code = validate now code >>= redeem_claim

-- The browser's own test.
unfoldable pub is_coupon_usable : ℕ → Coupon → Bool
unfolding has_expired used_up
is_coupon_usable now c =
    if not c.is_active
    then false
    else if has_expired now c.expires_at
    then false
    else not (used_up c.max_redemptions c.times_used)
