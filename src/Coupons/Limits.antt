-- ===== src/Coupons/Limits.antt =====
-- Limited codes stay within their limits.
use nation_wide.Common.{
  ℕ, ◌+◌, ◌≤◌, ◌≡◌, refl, inl, inr, ◌↔◌, true, Option, none, some, List, [], ◌∷◌, arith, ◌==◌, All,
  Option-cases, Bool-cases,
}
use nation_wide.Store.{World, Coupon, Result, ok, err, bad_request, coupon_used_up}
use nation_wide.Coupons.Defs.{check, bump, redeem_claim, may_count, is_coupon_usable}

-- A code has been redeemed at most as often as it may be.
abbrev pub AtMost : ℕ → Option ℕ → Type 0
AtMost used none = Unit
AtMost used (some limit) = used ≤ limit

abbrev pub IsWithin : Coupon → Type 0
IsWithin c = AtMost c.times_used c.max_redemptions

pub total_used : List Coupon → ℕ
total_used [] = 0
total_used (c ∷ cs) = c.times_used + total_used cs

-- The limit that was read is the one on the row: no call changes it.
abbrev pub SameLimit : ℕ → Option ℕ → Coupon → Type 0
SameLimit id limit c = c.id ≡ id → c.max_redemptions ≡ limit

abbrev Counted : List Coupon → Option (List Coupon) → Type 0
Counted cs none = Unit
Counted cs (some ds) = All IsWithin ds × (total_used ds ≡ total_used cs + 1)

may_count-AtMost :
    (limit : Option ℕ) (c : Coupon)
    → may_count limit c ≡ true
    → c.max_redemptions ≡ limit
    → AtMost (c.times_used + 1) c.max_redemptions
may_count-AtMost none c h e = rw e tt
may_count-AtMost (some limit) c h e = rw e (ground arith)

eq_of_id : (a b : ℕ) → (a == b) ≡ true → a ≡ b
eq_of_id a b h = ground arith

bump-Counted :
    (id : ℕ) (limit : Option ℕ) (cs : List Coupon)
    → All IsWithin cs
    → All (SameLimit id limit) cs
    → Counted cs (bump id limit cs)
unfolding bump total_used
bump-Counted id limit [] v s = tt
bump-Counted id limit (c ∷ cs) v s = elim (Bool-cases (c.id == id)) [
  | inl here ↦ elim (Bool-cases (may_count limit c)) [
    | inl m ↦
        let within = may_count-AtMost limit c m (s.0 (eq_of_id c.id id here)) in
        rw (here, m) ((within, v.1), omega arith)
    | inr m ↦ rw (here, m) tt
  ]
  | inr other ↦ elim (Option-cases (bump id limit cs)) [
    | inl e ↦ rw (other, e) tt
    | inr (ds, e) ↦
        let rest = rw e at (bump-Counted id limit cs v.1 s.1) in
        rw (other, e) ((v.0, rest.0), omega (arith, rest.1))
  ]
]

-- What a redemption leaves: on success one more use in all, else the state as it was.
abbrev pub Redeemed : World → Result Coupon × World → Type 0
Redeemed w (ok c, w') = (total_used w'.coupons ≡ total_used w.coupons + 1) × All IsWithin w'.coupons
Redeemed w (err e, w') = w' ≡ w

-- However old the coupon that a caller has read, if its limit is still that of its row: the write
-- keeps every code within its limit and counts one use, or is refused and changes nothing.
pub redeem_claim-IsWithin :
    (c : Coupon) (w : World)
    → All IsWithin w.coupons
    → All (SameLimit c.id c.max_redemptions) w.coupons
    → Redeemed w (redeem_claim c w)
unfolding redeem_claim
redeem_claim-IsWithin c w v s =
    written (bump c.id c.max_redemptions w.coupons)
      (bump-Counted c.id c.max_redemptions w.coupons v s)
  where
    written :
        (o : Option (List Coupon))
        → Counted w.coupons o
        → Redeemed w (elim o [
          | none ↦ (err (bad_request coupon_used_up), w)
          | some cs ↦ (ok c, record w { coupons = cs })
        ])
    written none k = refl
    written (some ds) k = (k.1, k.0)

-- The server's checks pass a coupon exactly when the browser's own test calls it usable.
pub check_iff :
    (now : ℕ) (c : Coupon) (w : World)
    → (check now c w ≡ (ok c, w)) ↔ (is_coupon_usable now c ≡ true)
unfolding check is_coupon_usable
check_iff now c w = (λ h. ground arith, λ h. ground arith)
