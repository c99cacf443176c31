-- ===== src/Tracking/Invitations.antt =====
-- The invitations to a review, counted beside the reviews.
use mathlib.Core.Bool.{false≢true}
use mathlib.Core.Option.{some-injective}
use nation_wide.Common.{
  ℕ, suc, ◌≤◌, ◌≡◌, refl, sym, false, Option, none, some, List, [], ◌∷◌, ◌++◌, String, arith,
  Bool-cases, Option-cases, inl, inr, any, map, find, if◌then◌else◌, ==_iff, ◌==◌,
}
use nation_wide.Accounts.Rows.{Crypto}
use nation_wide.Tracking.Rows.{Shipment, Review, TrackingDb, has_id}
use nation_wide.Tracking.Reviews.{
  reviews_shipment, new_invitation, given, invite, request_feedback, change_review,
}

-- The mails that asked for a review of the shipment.
abbrev pub times_invited : ℕ → List (ℕ × String × String) → ℕ
times_invited id [] = 0
times_invited id (m ∷ ms) = let rest = times_invited id ms in if m.0 == id then suc rest else rest

abbrev pub reviews_of : ℕ → List Review → ℕ
reviews_of id [] = 0
reviews_of id (r ∷ rs) =
    let rest = reviews_of id rs in if r.shipment_id == id then suc rest else rest

-- Each mail has a review of its own, and no shipment has two.
abbrev pub IsAskedOnce : TrackingDb → Type 0
IsAskedOnce d =
    (id : ℕ)
    → (times_invited id d.invited ≤ reviews_of id d.reviews) × (reviews_of id d.reviews ≤ 1)

reviews_of-any :
    (id : ℕ) (rs : List Review) → any (reviews_shipment id) rs ≡ false → reviews_of id rs ≡ 0
reviews_of-any id [] h = refl
reviews_of-any id (r ∷ rs) h = elim (Bool-cases (r.shipment_id == id)) [
  | inl e ↦ absurd (false≢true (sym (rw e at h)))
  | inr e ↦ rw e (reviews_of-any id rs (rw e at h))
]

reviews_of-append :
    (id : ℕ) (rs : List Review) (r : Review)
    → reviews_of id (rs ++ (r ∷ []))
      ≡ (if r.shipment_id == id then suc (reviews_of id rs) else reviews_of id rs)
reviews_of-append id [] r = refl
reviews_of-append id (x ∷ rs) r = let ih = reviews_of-append id rs r in rw ih (ground arith)

pub reviews_of-change :
    (id row : ℕ) (f : Review → Review)
    → ((r : Review) → (f r).shipment_id ≡ r.shipment_id)
    → (rs : List Review) → reviews_of id (map (change_review row f) rs) ≡ reviews_of id rs
reviews_of-change id row f h [] = refl
reviews_of-change id row f h (r ∷ rs) = elim (Bool-cases (r.id == row)) [
  | inl e ↦ rw e (rw (h r) (rw (reviews_of-change id row f h rs) refl))
  | inr e ↦ rw e (rw (reviews_of-change id row f h rs) refl)
]

find-has_id :
    (id : ℕ) (ss : List Shipment) {s : Shipment} → find (has_id id) ss ≡ some s → s.id ≡ id
find-has_id id [] e = cc
find-has_id id (x ∷ xs) e = elim (Bool-cases (x.id == id)) [
  | inl t ↦ rw⁻¹ (some-injective _ _ (rw t at e)) ((==_iff x.id id).0 t)
  | inr t ↦ find-has_id id xs (rw t at e)
]

module _ (c : Crypto) where
  invite-IsAskedOnce :
      (now : ℕ) (s : Shipment) (d : TrackingDb)
      → reviews_of s.id d.reviews ≡ 0
      → IsAskedOnce d
      → IsAskedOnce (invite c now (some s) d)
  invite-IsAskedOnce now s d z h id = elim (Option-cases (given s.customer_email)) [
    | inl e ↦ rw (e, invite) (h id)
    | inr e ↦
        let old = h id in
        rw (e.1, invite)
          (rw (reviews_of-append id d.reviews (new_invitation c now s d.next))
            (elim (Bool-cases (s.id == id)) [
              | inl t ↦
                  let none_yet : reviews_of id d.reviews ≡ 0 = rw⁻¹ ((==_iff s.id id).0 t) z in
                  rw t (omega (arith, old.0, none_yet), omega (arith, none_yet))
              | inr t ↦ rw t old
            ]))
  ]

  pub request_feedback-IsAskedOnce :
      (now id : ℕ) (d : TrackingDb) → IsAskedOnce d → IsAskedOnce (request_feedback c now id d)
  unfolding request_feedback
  request_feedback-IsAskedOnce now id d h =
      elim (Bool-cases (any (reviews_shipment id) d.reviews)) [
        | inl t ↦ rw t h
        | inr t ↦ rw t (found (find (has_id id) d.shipments) refl (reviews_of-any id d.reviews t))
      ]
    where
      found :
          (o : Option Shipment)
          → find (has_id id) d.shipments ≡ o
          → reviews_of id d.reviews ≡ 0
          → IsAskedOnce (invite c now o d)
      found none e z = h
      found (some s) e z = invite-IsAskedOnce now s d (rw (find-has_id id d.shipments e) z) h
