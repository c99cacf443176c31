-- ===== src/PickupRequests/Money.antt =====
-- A payment is settled once.
use nation_wide.Common.{ℕ, ◌≡◌, true, some, arith}
use nation_wide.Store.{Refused, World, PickupRequest}
use nation_wide.PickupRequests.Access.{find_one, claim_request}
use nation_wide.PickupRequests.Collection.{
  CollectPayment, check_amount, require_due_approver, settle, collect, defer_payment, is_settled,
}

-- However old the row that a caller has read, settling a payment that is settled is refused and
-- changes nothing.
pub settle-once :
    (now id : ℕ) (dto : CollectPayment) (partner : ℕ) (snapshot r : PickupRequest) (w : World)
    → w.requests id ≡ some r
    → is_settled r ≡ true
    → Refused w (settle now id dto partner snapshot w)
unfolding settle collect defer_payment check_amount require_due_approver claim_request find_one
settle-once now id dto partner snapshot r w e s = ground arith
