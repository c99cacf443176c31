-- ===== src/Examples/Pickups.antt =====
-- The life of a pickup request, on the sample state.
use nation_wide.Common.{◌≡◌, ◌≤◌, refl, true, false, none, some, List, [], ◌∷◌, arith}
use nation_wide.Store.{Order, Refused, PaymentMethod}
use nation_wide.PickupRequests.Collection.{collect_payment, payable_for, CollectPayment, settle}
use nation_wide.PickupRequests.Outcome.{accept_checked, accept_parcel}
use nation_wide.PickupRequests.Final.{TableValid, SamePayment, IsClosedAs}
use nation_wide.PickupRequests.Calls.{
  run_call, Call, claim_call, arrive_call, photo_call, collect_call, accept_call, reject_call, run,
  Later, run-TableValid, run-SamePayment, run-IsClosedAs,
}
use nation_wide.PickupRequests.Money.{settle-once}
use nation_wide.Money.{round2}
use nation_wide.PickupRequests.Once.{Turn, accepts, calls, orders_made, orders_made_once}
use nation_wide.Orders.{new_order}
use nation_wide.PickupRequests.Accepted.{Accepted, accept_parcel-Accepted}
use nation_wide.Examples.Rows.{
  asked_quote, sender, carrier, weighed_request, paid_request, closed_request, requests, sample,
  checked_list,
}

abbrev cash_down : CollectPayment
cash_down = record {
  deferred = false;
  defer_remainder = true;
  due_approved_by = some 9;
  due_note = none;
  payment_method = PaymentMethod.cash;
  collected_amount = 100_000;
  payment_reference = none;
  payment_notes = none;
}

abbrev day : List Call
day =
    claim_call 60 1 7
    ∷ arrive_call 70 1 7 false
    ∷ photo_call 1 7 false false
    ∷ collect_call 80 2 cash_down 7 false
    ∷ accept_call 90 2 checked_list 7 false
    ∷ accept_call 95 3 checked_list 7 false
    ∷ reject_call 4 "late" 7 false
    ∷ []

sample-TableValid : TableValid requests
sample-TableValid j = ground arith

run-TableValid_example : TableValid (run day sample).requests
run-TableValid_example = run-TableValid day sample sample-TableValid

run-SamePayment_example : Later (SamePayment paid_request) ((run day sample).requests 3)
run-SamePayment_example = run-SamePayment day sample 3 paid_request refl refl

run-IsClosedAs_example : Later (IsClosedAs closed_request) ((run day sample).requests 4)
run-IsClosedAs_example = run-IsClosedAs day sample 4 closed_request refl (sample-TableValid 4) refl

-- Two stale acceptances of one request, a collection and a third acceptance.
abbrev tries : List Turn
tries =
    accepts 96 3 checked_list 7 paid_request
    ∷ accepts 97 3 checked_list 7 paid_request
    ∷ calls (collect_call 98 2 cash_down 7 false)
    ∷ calls (accept_call 99 3 checked_list 7 false)
    ∷ []

orders_made_once_example : orders_made 3 tries sample ≤ 1
orders_made_once_example = orders_made_once 3 tries sample

one_made : orders_made 3 tries sample ≡ 1
unfolding orders_made accept_checked run_call accept_parcel collect_payment payable_for round2
one_made = refl

settle-once_example : Refused sample (settle 99 3 cash_down 7 weighed_request sample)
settle-once_example = settle-once 99 3 cash_down 7 weighed_request paid_request sample refl refl

abbrev made : Order
made = new_order 100 1

accept_parcel-Accepted_example :
    Accepted 3 checked_list 7 paid_request 100 (accept_parcel 99 3 checked_list 7 false sample)
accept_parcel-Accepted_example =
    accept_parcel-Accepted 99 3 checked_list 7 paid_request asked_quote sender carrier sample refl
      refl refl refl refl refl refl refl
