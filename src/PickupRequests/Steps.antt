-- ===== src/PickupRequests/Steps.antt =====
-- The life of a pickup request as a step relation on its row, and of the table, row by row.
use nation_wide.Common.{
  ℕ, ◌≡◌, subst, inl, inr, Bool, true, false, Option, none, some, arith, ◌==◌, Bool-cases, String,
}
use nation_wide.Store.{
  Table, put, PickupRequest, PickupRequestStatus, is_request_status, VerifiedParcel, Checklist,
  Assertion,
}
use nation_wide.PickupRequests.Access.{is_open, is_none, assign_to}
use nation_wide.PickupRequests.Door.{arrive_row, verify_row}
use nation_wide.PickupRequests.Collection.{CollectPayment, is_settled, collect_row, defer_row}
use nation_wide.PickupRequests.Outcome.{complete_row, link_row, reject_row}
use nation_wide.PickupRequests.Uploads.{photo_row}
use nation_wide.Orders.Cancel.{cancel_row}
use nation_wide.Quotes.Decide.{orphan_row}

pub data RowStep (r r' : PickupRequest) : Type 0 where
  assigns :
      (partner now : ℕ) → is_open r.status ≡ true → r' ≡ assign_to partner now r → RowStep r r'
  arrives :
      (now : ℕ)
      → is_open r.status ≡ true
      → is_none r.arrived_at ≡ true
      → r' ≡ arrive_row now r
      → RowStep r r'
  photographs : (key : ℕ) → r' ≡ photo_row key r → RowStep r r'
  verifies :
      (now : ℕ) (with_recipient : Bool) (price : ℕ) (parcel : VerifiedParcel)
      → is_open r.status ≡ true
      → is_none r.arrived_at ≡ false
      → is_none r.parcel_photo_key ≡ false
      → r' ≡ verify_row now with_recipient price parcel r
      → RowStep r r'
  collects :
      (now : ℕ) (dto : CollectPayment) (approver : Option ℕ)
      → is_none r.verified_at ≡ false
      → is_settled r ≡ false
      → r' ≡ collect_row now dto approver r
      → RowStep r r'
  defers :
      (now approver : ℕ) (note : Option String)
      → is_none r.verified_at ≡ false
      → is_settled r ≡ false
      → r' ≡ defer_row now approver note r
      → RowStep r r'
  completes :
      is_open r.status ≡ true
      → is_none r.verified_at ≡ false
      → is_settled r ≡ true
      → r' ≡ complete_row r
      → RowStep r r'
  links :
      (order_id : ℕ) (list : Checklist)
      → is_request_status r.status PickupRequestStatus.completed ≡ true
      → r' ≡ link_row order_id list r
      → RowStep r r'
  rejects : (reason : String) → is_open r.status ≡ true → r' ≡ reject_row reason r → RowStep r r'
  cancels :
      (order_id : ℕ) (reason : Option String) → r' ≡ cancel_row order_id reason r → RowStep r r'
  orphans : (quote_id : ℕ) → r' ≡ orphan_row quote_id r → RowStep r r'

pub data Steps (r : PickupRequest) : PickupRequest → Type 0 where
  stays : Steps r r
  goes : {s t : PickupRequest} → Steps r s → RowStep s t → Steps r t

-- A new request is unverified, unpaid and open, and names no order.
abbrev pub IsFresh : PickupRequest → Type 0
IsFresh r =
    (is_open r.status ≡ true)
    × (r.verified_at ≡ none)
    × (r.payment_collected_at ≡ none)
    × (r.payment_deferred_at ≡ none)
    × (r.order_id ≡ none)

-- A request is never lost, and a new one goes on from a fresh row.
abbrev pub Evolved : Option PickupRequest → Option PickupRequest → Type 0
Evolved none none = Unit
Evolved none (some r) = (f : PickupRequest) × IsFresh f × Steps f r
Evolved (some r) none = ⊥
Evolved (some r) (some r') = Steps r r'

pub Evolved-refl : (a : Option PickupRequest) → Evolved a a
Evolved-refl none = tt
Evolved-refl (some r) = stays

-- From one table of requests to a later one.
abbrev pub Evolves : Table PickupRequest → Assertion
Evolves t t' = (j : ℕ) → Evolved (t j) (t' j)

pub Evolved-step :
    (a b : Option PickupRequest) (r r' : PickupRequest)
    → Evolved a b
    → b ≡ some r
    → RowStep r r'
    → Evolved a (some r')
Evolved-step a b r r' h e s = ahead a (subst (Evolved a) e h)
  where
    ahead : (a : Option PickupRequest) → Evolved a (some r) → Evolved a (some r')
    ahead none (f, fresh, k) = (f, fresh, goes k s)
    ahead (some q) k = goes k s

pub put-Evolves :
    (t t' : Table PickupRequest) (id : ℕ) (r r' : PickupRequest)
    → Evolves t t'
    → t' id ≡ some r
    → RowStep r r'
    → Evolves t (put t' id r')
put-Evolves t t' id r r' h e s j = elim (Bool-cases (j == id)) [
  | inl here ↦
      let same = eq_of_id j id here in rw here (Evolved-step (t j) (t' j) r r' (h j) (rw same e) s)
  | inr other ↦ rw other (h j)
]
  where
    eq_of_id : (a b : ℕ) → (a == b) ≡ true → a ≡ b
    eq_of_id a b k = ground arith
