-- ===== src/PickupRequests/Valid.antt =====
-- What holds of every pickup request, kept by every step.
use nation_wide.Common.{◌≡◌, Bool, true, not, ◌&&◌, ◌||◌, arith}
use nation_wide.Store.{PickupRequest, PickupRequestStatus, is_request_status}
use nation_wide.PickupRequests.Access.{is_none}
use nation_wide.PickupRequests.Collection.{is_settled, is_some}
use nation_wide.PickupRequests.Steps.{
  RowStep, assigns, arrives, photographs, verifies, collects, defers, completes, links, rejects,
  cancels, orphans, IsFresh,
}

abbrev pub implies : Bool → Bool → Bool
implies a b = not a || b

abbrev pub is_completed : PickupRequest → Bool
is_completed r = is_request_status r.status PickupRequestStatus.completed

-- A verified parcel was reached and photographed and has a price; only a verified parcel is paid
-- for, either collected or deferred, and a deferral names its approver; a completed request is
-- verified and settled, and only a completed one names an order.
abbrev pub IsValid : PickupRequest → Type 0
IsValid r =
    (implies (is_some r.verified_at) (
        is_some r.arrived_at
        && is_some r.parcel_photo_key
        && is_some r.verified_price
        && is_some r.verified)
      ≡ true)
    × (implies (is_settled r) (is_some r.verified_at) ≡ true)
    × (implies (is_some r.payment_collected_at)
          (is_some r.collected_amount && is_none r.payment_deferred_at)
        ≡ true)
    × (implies (is_some r.payment_deferred_at) (is_some r.due_approved_by) ≡ true)
    × (implies (is_completed r) (is_some r.verified_at && is_settled r) ≡ true)
    × (implies (is_some r.order_id) (is_completed r) ≡ true)

pub IsFresh-IsValid : (r : PickupRequest) → IsFresh r → IsValid r
IsFresh-IsValid r h = ground arith

pub RowStep-IsValid : (r r' : PickupRequest) → IsValid r → RowStep r r' → IsValid r'
RowStep-IsValid r r' v (assigns p now o e) = rw e (ground arith)
RowStep-IsValid r r' v (arrives now o a e) = rw e (ground arith)
RowStep-IsValid r r' v (photographs key e) = rw e (ground arith)
RowStep-IsValid r r' v (verifies now b price parcel o a ph e) = rw e (ground arith)
RowStep-IsValid r r' v (collects now dto approver ver uns e) = rw e (ground arith)
RowStep-IsValid r r' v (defers now approver memo ver uns e) = rw e (ground arith)
RowStep-IsValid r r' v (completes o ver s e) = rw e (ground arith)
RowStep-IsValid r r' v (links order list c e) = rw e (ground arith)
RowStep-IsValid r r' v (rejects reason o e) = rw e (ground arith)
RowStep-IsValid r r' v (cancels order reason e) = rw e (ground arith)
RowStep-IsValid r r' v (orphans q e) = rw e (ground arith)
