-- ===== src/PickupRequests/Closed.antt =====
-- A closed request stays closed, and an acceptance closes its request or changes nothing.
use nation_wide.Common.{
  ℕ, ◌≡◌, ◌⊎◌, sym, subst, inl, inr, Bool, true, false, not, Option, none, some, arith,
}
use nation_wide.Store.{
  World, M, Result, ok, err, PickupRequest, Checklist, Order, transaction, bound, bad_request,
  already_processed, wrong_status, not_verified, payment_missing, Error, raise_if, emit,
  invoice_asked, receipt_asked, notified, Template, ◌>>◌, ◌>>=◌, Shipment,
}
use nation_wide.Coupons.{redeem, redeem_claim, validate, check}
use nation_wide.Orders.{create_order_with_shipment}
use nation_wide.PickupRequests.Access.{
  is_none, is_open, find_one, find_one_for_partner, claim_request, may_work,
}
use nation_wide.PickupRequests.Collection.{is_settled}
use nation_wide.PickupRequests.Outcome.{
  accept_checked, accept_parcel, link_and_announce, link_order, redeem_quietly, complete_row,
}
use nation_wide.PickupRequests.Steps.{
  RowStep, Steps, Evolved, Evolved-refl, assigns, arrives, photographs, verifies, collects, defers,
  completes, links, rejects, cancels, orphans, stays, goes,
}
use nation_wide.PickupRequests.Evolution.Closing.{create_order_with_shipment-Keeps}
use nation_wide.PickupRequests.Calls.{Call, run_call, run_call-Evolves}

-- The request is there and is closed.
abbrev pub is_closed : Option PickupRequest → Bool
is_closed none = false
is_closed (some r) = not (is_open r.status)

abbrev pub IsClosed : ℕ → World → Type 0
IsClosed id w = is_closed (w.requests id) ≡ true

RowStep-is_open :
    (r s : PickupRequest) → RowStep r s → is_open r.status ≡ false → is_open s.status ≡ false
RowStep-is_open r s (assigns _ now o e) c = rw e (ground arith)
RowStep-is_open r s (arrives now o a e) c = rw e (ground arith)
RowStep-is_open r s (photographs key e) c = rw e (ground arith)
RowStep-is_open r s (verifies now b price parcel o a ph e) c = rw e (ground arith)
RowStep-is_open r s (collects now dto approver ver uns e) c = rw e (ground arith)
RowStep-is_open r s (defers now approver memo ver uns e) c = rw e (ground arith)
RowStep-is_open r s (completes o ver k e) c = rw e (ground arith)
RowStep-is_open r s (links order list d e) c = rw e (ground arith)
RowStep-is_open r s (rejects reason o e) c = rw e (ground arith)
RowStep-is_open r s (cancels order reason e) c = rw e (ground arith)
RowStep-is_open r s (orphans q e) c = rw e (ground arith)

Steps-is_open :
    (r s : PickupRequest) → Steps r s → is_open r.status ≡ false → is_open s.status ≡ false
Steps-is_open r s stays c = c
Steps-is_open r s (goes {s = m} k step) c = RowStep-is_open m s step (Steps-is_open r m k c)

Evolved-is_closed :
    (a b : Option PickupRequest) → Evolved a b → is_closed a ≡ true → is_closed b ≡ true
Evolved-is_closed none b e h = ground arith
Evolved-is_closed (some r) none e h = absurd e
Evolved-is_closed (some r) (some s) e h =
    let closed = Steps-is_open r s e (ground arith) in ground arith

pub call-IsClosed : (id : ℕ) (c : Call) (w : World) → IsClosed id w → IsClosed id (run_call c w)
call-IsClosed id c w h =
    Evolved-is_closed (w.requests id) ((run_call c w).requests id)
      (run_call-Evolves w.requests c w (λ j. Evolved-refl (w.requests j)) id) h

module _ (now id : ℕ) (list : Checklist) (partner : ℕ) (r : PickupRequest) where
  redeem-IsClosed : (j : ℕ) (w : World) → IsClosed j w → IsClosed j (redeem_quietly now r w).1
  unfolding redeem_quietly redeem validate check redeem_claim
  redeem-IsClosed j w h = ground arith

  link_order-IsClosed :
      (order : Order) (j : ℕ) (w : World)
      → IsClosed j w
      → IsClosed j (transaction (link_order id list partner r order) w).1
  unfolding link_order
  link_order-IsClosed order j w h = ground arith

  announce-IsClosed :
      (order : Order) (j : ℕ) (w : World)
      → IsClosed j w
      → IsClosed j (link_and_announce now id list partner r order w).1
  unfolding link_and_announce find_one
  announce-IsClosed order j w h = redeemed (redeem_quietly now r w) (redeem-IsClosed j w h)
    where
      finish : World → Result PickupRequest × World
      finish =
          emit (invoice_asked order.id)
          >> (emit (receipt_asked order.id)
              >> (emit (notified r.customer_id Template.order_created_from_pickup) >> find_one id))

      linked :
          (res : Result (Unit {0}) × World)
          → IsClosed j res.1
          → IsClosed j (bound (λ _. finish) res).1
      linked (ok a, u) k = ground arith
      linked (err e, u) k = k

      redeemed :
          (res : Result (Unit {0}) × World)
          → IsClosed j res.1
          → IsClosed j
              (bound (λ _. transaction (link_order id list partner r order) >> finish) res).1
      redeemed (ok a, u) k =
          linked (transaction (link_order id list partner r order) u)
            (link_order-IsClosed order j u k)
      redeemed (err e, u) k = k

  created-IsClosed :
      (j : ℕ) (w : World)
      → IsClosed j w
      → IsClosed j
          ((create_order_with_shipment r.customer_id none >>= λ made.
              link_and_announce now id list partner r made.0)
            w).1
  created-IsClosed j w h = created (create_order_with_shipment r.customer_id none w) (
      subst (λ t. is_closed (t j) ≡ true)
        (sym (create_order_with_shipment-Keeps r.customer_id none w)) h)
    where
      created :
          (res : Result (Order × Shipment) × World)
          → IsClosed j res.1
          → IsClosed j (bound (λ made. link_and_announce now id list partner r made.0) res).1
      created (ok made, u) k = announce-IsClosed made.0 j u k
      created (err e, u) k = k

  abbrev claim_it : M (Unit {0})
  claim_it = claim_request id (λ a. is_open a.status) complete_row (bad_request already_processed)

  -- The claim is refused and changes nothing, or closes its request and opens none.
  claim-IsClosed : (j : ℕ) (w : World) → IsClosed j w → IsClosed j (claim_it w).1
  unfolding claim_request
  claim-IsClosed j w h = ground arith

  abbrev Claims : World → Result (Unit {0}) × World → Type 0
  Claims w (ok a, w') = IsClosed id w'
  Claims w (err e, w') = w' ≡ w

  claim-Claims : (w : World) → Claims w (claim_it w)
  unfolding claim_request
  claim-Claims w = ground arith

  -- An acceptance that gets anywhere leaves its request closed, whatever comes of it.
  abbrev Closes : World → World → Type 0
  Closes w v = (v ≡ w) ⊎ IsClosed id v

  pub accept_checked-Closes : (w : World) → Closes w (accept_checked now id list partner r w).1
  unfolding accept_checked
  accept_checked-Closes w = after (claim_it w) (claim-Claims w)
    where
      after :
          (res : Result (Unit {0}) × World)
          → Claims w res
          → Closes w
              (bound
                (λ _. create_order_with_shipment r.customer_id none >>= λ made.
                  link_and_announce now id list partner r made.0)
                res).1
      after (ok a, u) k = inr (created-IsClosed id u k)
      after (err e, u) k = inl k

  pub accept_checked-IsClosed :
      (j : ℕ) (w : World) → IsClosed j w → IsClosed j (accept_checked now id list partner r w).1
  unfolding accept_checked
  accept_checked-IsClosed j w h = after (claim_it w) (claim-IsClosed j w h)
    where
      after :
          (res : Result (Unit {0}) × World)
          → IsClosed j res.1
          → IsClosed j
              (bound
                (λ _. create_order_with_shipment r.customer_id none >>= λ made.
                  link_and_announce now id list partner r made.0)
                res).1
      after (ok a, u) k = created-IsClosed j u k
      after (err e, u) k = k

  -- However old the row that the caller has read.
  pub accept_checked-once :
      (w : World) → IsClosed id w → (accept_checked now id list partner r w).1 ≡ w
  unfolding accept_checked claim_request
  accept_checked-once w h = ground arith

module _ (P : World → Type 0) (w : World) (same : P w) where
  guarded : {A : Type 0} (b : Bool) (e : Error) (m : M A) → P (m w).1 → P ((raise_if b e >> m) w).1
  guarded true e m h = same
  guarded false e m h = h

  found-reads :
      (id partner : ℕ) (as_admin : Bool) → (find_one_for_partner id partner as_admin w).1 ≡ w
  unfolding find_one_for_partner find_one may_work
  found-reads id partner as_admin = ground arith

  -- The checks of `accept_parcel` only read, and it goes on from the row that it has read.
  pub accept_parcel-checks :
      (now id : ℕ) (list : Checklist) (partner : ℕ) (as_admin : Bool)
      → ((r : PickupRequest) → P (accept_checked now id list partner r w).1)
      → P (accept_parcel now id list partner as_admin w).1
  unfolding accept_parcel
  accept_parcel-checks now id list partner as_admin h =
      after (find_one_for_partner id partner as_admin w) (found-reads id partner as_admin)
    where
      checks : PickupRequest → M PickupRequest
      checks r =
          raise_if (not (is_open r.status)) (bad_request wrong_status)
          >> (raise_if (is_none r.verified_at) (bad_request not_verified)
              >> (raise_if (not (is_settled r)) (bad_request payment_missing)
                  >> accept_checked now id list partner r))

      after : (res : Result PickupRequest × World) → res.1 ≡ w → P (bound checks res).1
      after (ok r, u) e =
          subst (λ v. P (checks r v).1) (sym e)
            (guarded (not (is_open r.status)) (bad_request wrong_status) _ (
              guarded (is_none r.verified_at) (bad_request not_verified) _ (
                guarded (not (is_settled r)) (bad_request payment_missing)
                  (accept_checked now id list partner r) (h r))))
      after (err x, u) e = subst P (sym e) same
