-- ===== src/PickupRequests/Calls.antt =====
-- The bookings and the calls on pickup requests, in any order, by anyone.
use nation_wide.Common.{arith, ℕ, ◌≡◌, subst, Bool, true, Option, none, some, List, [], ◌∷◌, String}
use nation_wide.Store.{World, Table, Result, ok, err, PickupRequest, Checklist, Post, Keeps}
use nation_wide.Orders.Cancel.{CancellationFees, Distance, cancel}
use nation_wide.Quotes.Decide.{reject}
use nation_wide.PickupRequests.Access.{claim, assign_partner, update_partner_location}
use nation_wide.PickupRequests.Rules.{Keeps-Evolving}
use nation_wide.PickupRequests.Door.{VerifyPickupRequest, mark_arrived, verify}
use nation_wide.PickupRequests.Collection.{CollectPayment, collect_payment, is_settled}
use nation_wide.PickupRequests.Outcome.{accept_parcel, reject_parcel}
use nation_wide.PickupRequests.Uploads.{save_aadhaar, save_parcel_photo}
use nation_wide.PickupRequests.Steps.{Steps, Evolved, Evolves, Evolved-refl}
use nation_wide.PickupRequests.Evolution.Door.{mark_arrived-Evolving, verify-Evolving}
use nation_wide.PickupRequests.Evolution.Payment.{collect_payment-Evolving}
use nation_wide.PickupRequests.Evolution.Closing.{accept_parcel-Evolving, reject_parcel-Evolving}
use nation_wide.PickupRequests.Evolution.Handling.{
  claim-Evolving, assign_partner-Evolving, save_aadhaar-Evolving, save_parcel_photo-Evolving,
  cancel-Evolves, reject-Evolves,
}
use nation_wide.PickupRequests.Slots.{Clock}
use nation_wide.PickupRequests.Booking.{CreatePickupRequest, create, Booking, commit_booking}
use nation_wide.PickupRequests.Evolution.Booking.{create-Evolving, commit_booking-Evolving}
use nation_wide.PickupRequests.BatchTerms.{B2bCreateOrders, BatchOptions}
use nation_wide.PickupRequests.Batch.{create_batch_for_customer, create_for_admin}
use nation_wide.PickupRequests.Evolution.Batch.{
  create_batch_for_customer-Evolving, create_for_admin-Evolving,
}
use nation_wide.PickupRequests.Valid.{IsValid, is_completed}
use nation_wide.PickupRequests.Final.{
  TableValid, Evolves-TableValid, SamePayment, Steps-SamePayment, IsClosedAs, Steps-IsClosedAs,
}

-- The time, the request or the order, and who calls.
pub data Call : Type 0 where
  claim_call : (now id partner : ℕ) → Call
  assign_call : (now id partner actor : ℕ) → Call
  arrive_call : (now id partner : ℕ) (as_admin : Bool) → Call
  aadhaar_call photo_call : (id actor : ℕ) (as_admin back_office : Bool) → Call
  verify_call : (now id : ℕ) (dto : VerifyPickupRequest) (partner : ℕ) (as_admin : Bool) → Call
  collect_call : (now id : ℕ) (dto : CollectPayment) (partner : ℕ) (as_admin : Bool) → Call
  accept_call : (now id : ℕ) (list : Checklist) (partner : ℕ) (as_admin : Bool) → Call
  reject_call : (id : ℕ) (reason : String) (partner : ℕ) (as_admin : Bool) → Call
  cancel_order_call :
      (fees : Option CancellationFees) (km : ℕ → Option Distance) (now order_id : ℕ)
      (reason : Option String) (actor : ℕ) (customer : Option ℕ)
      → Call
  book_call : (now : ℕ) (clock : Clock) (dto : CreatePickupRequest) (customer : ℕ) → Call
  commit_call : (now : ℕ) (b : Booking) → Call
  batch_call :
      (resolve : String → Option (ℕ × ℕ)) (now : ℕ) (hours : Option ℕ) (customer : ℕ)
      (dto : B2bCreateOrders) (opts : BatchOptions)
      → Call
  admin_call :
      (resolve : String → Option (ℕ × ℕ)) (now : ℕ) (hours : Option ℕ) (partner customer : ℕ)
      (dto : B2bCreateOrders) (actor : ℕ)
      → Call
  locate_call : (now partner latitude longitude : ℕ) → Call
  reject_quote_call : (quote_id : ℕ) (reason : String) (actor : ℕ) → Call

-- The state after one call; a failed call leaves what it wrote before it failed.
unfoldable pub run_call : Call → World → World
run_call (claim_call now id partner) w = (claim now id partner w).1
run_call (assign_call now id partner actor) w = (assign_partner now id partner actor w).1
run_call (arrive_call now id partner as_admin) w = (mark_arrived now id partner as_admin w).1
run_call (aadhaar_call id actor as_admin back_office) w =
    (save_aadhaar id actor as_admin back_office w).1
run_call (photo_call id actor as_admin back_office) w =
    (save_parcel_photo id actor as_admin back_office w).1
run_call (verify_call now id dto partner as_admin) w = (verify now id dto partner as_admin w).1
run_call (collect_call now id dto partner as_admin) w =
    (collect_payment now id dto partner as_admin w).1
run_call (accept_call now id list partner as_admin) w =
    (accept_parcel now id list partner as_admin w).1
run_call (reject_call id reason partner as_admin) w = (reject_parcel id reason partner as_admin w).1
run_call (cancel_order_call fees km now id reason actor customer) w =
    (cancel fees km now id reason actor customer w).1
run_call (book_call now clock dto customer) w = (create now clock dto customer w).1
run_call (commit_call now b) w = (commit_booking now b w).1
run_call (batch_call resolve now hours customer dto opts) w =
    (create_batch_for_customer resolve now hours customer dto opts w).1
run_call (admin_call resolve now hours partner customer dto actor) w =
    (create_for_admin resolve now hours partner customer dto actor w).1
run_call (locate_call now partner latitude longitude) w =
    (update_partner_location now partner latitude longitude w).1
run_call (reject_quote_call id reason actor) w = (reject id reason actor w).1

pub run : List Call → World → World
unfolding run_call
run [] w = w
run (c ∷ cs) w = run cs (run_call c w)

Post-Evolves :
    {A : Type 0} (t : Table PickupRequest) (res : Result A × World)
    → Post (Evolves t) (λ _. Evolves t) res
    → Evolves t res.1.requests
Post-Evolves t (ok a, w) h = h
Post-Evolves t (err e, w) h = h

update_partner_location-Keeps :
    (now partner latitude longitude : ℕ)
    → Keeps (update_partner_location now partner latitude longitude)
unfolding update_partner_location
update_partner_location-Keeps now partner latitude longitude w = ground arith

pub run_call-Evolves :
    (t : Table PickupRequest) (c : Call) (w : World)
    → Evolves t w.requests
    → Evolves t (run_call c w).requests
unfolding run_call
run_call-Evolves t (claim_call now id partner) w h =
    Post-Evolves t _ (claim-Evolving t id now partner w h)
run_call-Evolves t (assign_call now id partner actor) w h =
    Post-Evolves t _ (assign_partner-Evolving t id now partner actor w h)
run_call-Evolves t (arrive_call now id partner a) w h =
    Post-Evolves t _ (mark_arrived-Evolving t now id partner a w h)
run_call-Evolves t (aadhaar_call id actor a b) w h =
    Post-Evolves t _ (save_aadhaar-Evolving t id actor a b w h)
run_call-Evolves t (photo_call id actor a b) w h =
    Post-Evolves t _ (save_parcel_photo-Evolving t id actor a b w h)
run_call-Evolves t (verify_call now id dto partner a) w h =
    Post-Evolves t _ (verify-Evolving t now id dto partner a w h)
run_call-Evolves t (collect_call now id dto partner a) w h =
    Post-Evolves t _ (collect_payment-Evolving t now id dto partner a w h)
run_call-Evolves t (accept_call now id list partner a) w h =
    Post-Evolves t _ (accept_parcel-Evolving t id now list partner a w h)
run_call-Evolves t (reject_call id reason partner a) w h =
    Post-Evolves t _ (reject_parcel-Evolving t id reason partner a w h)
run_call-Evolves t (cancel_order_call fees km now id reason actor customer) w h =
    cancel-Evolves t fees km now id reason actor customer w h
run_call-Evolves t (book_call now clock dto customer) w h =
    Post-Evolves t _ (create-Evolving t now clock dto customer w h)
run_call-Evolves t (commit_call now b) w h = Post-Evolves t _ (commit_booking-Evolving t now b w h)
run_call-Evolves t (batch_call resolve now hours customer dto opts) w h =
    Post-Evolves t _ (create_batch_for_customer-Evolving t resolve now hours customer dto opts w h)
run_call-Evolves t (admin_call resolve now hours partner customer dto actor) w h =
    Post-Evolves t _ (create_for_admin-Evolving t resolve now hours partner customer dto actor w h)
run_call-Evolves t (locate_call now partner latitude longitude) w h = Post-Evolves t _ (
    Keeps-Evolving t 0 (update_partner_location now partner latitude longitude)
      (update_partner_location-Keeps now partner latitude longitude) w h)
run_call-Evolves t (reject_quote_call id reason actor) w h = reject-Evolves t id reason actor w h

-- Whatever is called, the requests only move along the steps of their life.
pub run-Evolves :
    (t : Table PickupRequest) (cs : List Call) (w : World)
    → Evolves t w.requests
    → Evolves t (run cs w).requests
unfolding run
run-Evolves t [] w h = h
run-Evolves t (c ∷ cs) w h = run-Evolves t cs (run_call c w) (run_call-Evolves t c w h)

here_after : (cs : List Call) (w : World) → Evolves w.requests (run cs w).requests
here_after cs w = run-Evolves w.requests cs w (λ j. Evolved-refl (w.requests j))

-- Every sequence of bookings, calls on booked requests, order cancellations and quote rejections,
-- accepted or refused, keeps each row valid: verified only after arrival and with a price, paid only when
-- verified, never both collected and deferred, completed only when verified and settled, linked only
-- when completed.
pub run-TableValid :
    (cs : List Call) (w : World) → TableValid w.requests → TableValid (run cs w).requests
run-TableValid cs w v = Evolves-TableValid w.requests (run cs w).requests v (here_after cs w)

-- What every row that comes from `r` is like.
abbrev pub Later : (PickupRequest → Type 0) → Option PickupRequest → Type 0
Later P none = ⊥
Later P (some r) = P r

Later-of :
    (P : PickupRequest → Type 0) (r : PickupRequest) (a b : Option PickupRequest)
    → ((s : PickupRequest) → Steps r s → P s)
    → a ≡ some r
    → Evolved a b
    → Later P b
Later-of P r a b f e h = of_row b (subst (λ o. Evolved o b) e h)
  where
    of_row : (b : Option PickupRequest) → Evolved (some r) b → Later P b
    of_row none k = k
    of_row (some s) k = f s k

-- A payment that is collected or deferred is recorded the same after every sequence of calls: its
-- times, amount, method and approver.
pub run-SamePayment :
    (cs : List Call) (w : World) (id : ℕ) (r : PickupRequest)
    → w.requests id ≡ some r
    → is_settled r ≡ true
    → Later (SamePayment r) ((run cs w).requests id)
run-SamePayment cs w id r e s =
    Later-of (SamePayment r) r (w.requests id) ((run cs w).requests id)
      (λ a k. Steps-SamePayment r a s k) e (here_after cs w id)

-- A completed request that is valid stays completed through every sequence of calls, with its
-- verified price, its partner and its payment.
pub run-IsClosedAs :
    (cs : List Call) (w : World) (id : ℕ) (r : PickupRequest)
    → w.requests id ≡ some r
    → IsValid r
    → is_completed r ≡ true
    → Later (IsClosedAs r) ((run cs w).requests id)
run-IsClosedAs cs w id r e v c =
    Later-of (IsClosedAs r) r (w.requests id) ((run cs w).requests id)
      (λ a k. Steps-IsClosedAs r a v c k) e (here_after cs w id)
