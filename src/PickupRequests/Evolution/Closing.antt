-- ===== src/PickupRequests/Evolution/Closing.antt =====
-- Accepting and rejecting a parcel takes the steps of `RowStep`.
use nation_wide.Common.{
  ℕ, ◌≡◌, refl, sym, subst, Bool, true, false, not, Option, none, some, arith, String,
}
use nation_wide.Store.{
  Table, put, M, bad_request, wrong_status, not_verified, payment_missing, already_processed, ◌>>◌,
  modify, log, emit, Action, notified, invoice_asked, receipt_asked, Template, transaction,
  PickupRequest, PickupRequestStatus, is_request_status, Checklist, Order, Assertion, Triple, Keeps,
  bind, keep, guard, in_transaction,
}
use nation_wide.Coupons.{redeem, validate, check, redeem_claim}
use nation_wide.Orders.{create_order_with_shipment, resolve_provider, create_for_order}
use nation_wide.PickupRequests.Access.{
  is_open, is_none, find_one, find_one_for_partner, claim_request, update_request, update_quote,
}
use nation_wide.PickupRequests.Collection.{is_settled, payable_for}
use nation_wide.PickupRequests.Outcome.{
  complete_row, link_row, link_order, order_payment, accept_quote_row, accept_checked,
  link_and_announce, accept_parcel, reject_row, reject_quote_row, reject_parcel, redeem_quietly,
}
use nation_wide.PickupRequests.Steps.{RowStep, Evolves, completes, links, rejects}
use nation_wide.PickupRequests.Rules.{
  Read, Evolving, row_fact, Keeps-Evolving, update_quote-Keeps, find_one_for_partner-Triple,
  update_request-Triple, claim_request-Triple, Changed,
}

pub create_order_with_shipment-Keeps :
    (c : ℕ) (code : Option String) → Keeps (create_order_with_shipment c code)
unfolding create_order_with_shipment resolve_provider create_for_order
create_order_with_shipment-Keeps c code w = ground arith

redeem_quietly-Keeps : (now : ℕ) (r : PickupRequest) → Keeps (redeem_quietly now r)
unfolding redeem_quietly redeem validate check redeem_claim
redeem_quietly-Keeps now r w = ground arith

not-false : {b : Bool} → not b ≡ false → b ≡ true
not-false h = ground arith

-- The row was verified and settled when it was read.
abbrev Payable : Table PickupRequest → ℕ → PickupRequest → Assertion
Payable t id r u = Read t id r u × (is_none r.verified_at ≡ false) × (is_settled r ≡ true)

completes_row :
    (t u : Table PickupRequest) (id : ℕ) (r a : PickupRequest)
    → Payable t id r u
    → u id ≡ some a
    → is_open a.status ≡ true
    → RowStep a (complete_row a)
completes_row t u id r a h e o =
    let same =
      row_fact (λ q. (is_none q.verified_at ≡ false) × (is_settled q ≡ true)) u id r a h.0.1 e
        (h.1, h.2) in
    completes o same.0 same.1 refl

module _ (t : Table PickupRequest) (id : ℕ) where
  put_payment-Keeps :
      (order : Order) → Keeps (modify λ w. record w { orders = put w.orders order.id order })
  put_payment-Keeps order w = refl

  links_row :
      (u : Table PickupRequest) (a : PickupRequest) (order_id : ℕ) (list : Checklist)
      → Changed t id complete_row u
      → u id ≡ some a
      → RowStep a (link_row order_id list a)
  links_row u a order_id list h e =
      let (o, k) = h.1 a e in
      links order_id list
        (subst (λ q. is_request_status q.status PickupRequestStatus.completed ≡ true) (sym k) refl)
        refl

  link_order-Evolving :
      (list : Checklist) (partner : ℕ) (r : PickupRequest) (order : Order)
      → Triple
          (Changed t id complete_row)
          (Evolves t)
          (link_order id list partner r order)
          (λ _. Evolves t)
  unfolding link_order
  link_order-Evolving list partner r order =
      keep (Evolves t) (Changed t id complete_row) (λ _. Evolves t)
        (modify λ w. record w {
          orders = put w.orders order.id (order_payment (payable_for r) partner r order);
        })
        _ (λ _ h. h.0) (λ w. refl)
        (λ _.
          keep (Evolves t) (Changed t id complete_row) (λ _. Evolves t)
            (update_quote r.quote_id (accept_quote_row order.id)) _ (λ _ h. h.0)
            (update_quote-Keeps r.quote_id (accept_quote_row order.id))
            (λ _.
              bind (Evolves t) (Changed t id complete_row) (λ _. Evolves t) (λ _. Evolves t)
                (update_request id (link_row order.id list)) (λ _. log partner Action.accepted id)
                (update_request-Triple t id (Changed t id complete_row) (link_row order.id list)
                  (λ _ h. h.0) (λ u a h e. links_row u a order.id list h e))
                (λ _ w p. p)))

  abbrev finish_acceptance : PickupRequest → ℕ → M PickupRequest
  finish_acceptance r order_id =
      emit (invoice_asked order_id)
      >> (emit (receipt_asked order_id)
          >> (emit (notified r.customer_id Template.order_created_from_pickup) >> find_one id))

  finish_acceptance-Keeps :
      (r : PickupRequest) (order_id : ℕ) → Keeps (finish_acceptance r order_id)
  unfolding find_one
  finish_acceptance-Keeps r order_id w = ground arith

  pub accept_checked-Evolving :
      (now : ℕ) (list : Checklist) (partner : ℕ) (r : PickupRequest)
      → Triple (Payable t id r) (Evolves t) (accept_checked now id list partner r) (λ _. Evolves t)
  unfolding accept_checked link_and_announce
  accept_checked-Evolving now list partner r =
      bind (Evolves t) (Payable t id r) (λ _. Changed t id complete_row) (λ _. Evolves t)
        (claim_request id (λ a. is_open a.status) complete_row (bad_request already_processed)) _
        (claim_request-Triple t id (Payable t id r) (λ a. is_open a.status) complete_row
          (bad_request already_processed) (λ _ h. h.0.0)
          (λ u a h e o. completes_row t u id r a h e o))
        (λ _.
          keep (Evolves t) (Changed t id complete_row) (λ _. Evolves t)
            (create_order_with_shipment r.customer_id none) _ (λ _ h. h.0)
            (create_order_with_shipment-Keeps r.customer_id none)
            (λ made.
              keep (Evolves t) (Changed t id complete_row) (λ _. Evolves t) (redeem_quietly now r) _
                (λ _ h. h.0) (redeem_quietly-Keeps now r)
                (λ _.
                  bind (Evolves t) (Changed t id complete_row) (λ _. Evolves t) (λ _. Evolves t)
                    (transaction (link_order id list partner r made.0))
                    (λ _. finish_acceptance r made.0.id)
                    (in_transaction (Evolves t) (Changed t id complete_row) (λ _. Evolves t)
                      (link_order id list partner r made.0) (λ _ h. h.0)
                      (link_order-Evolving list partner r made.0))
                    (λ _.
                      Keeps-Evolving t id (finish_acceptance r made.0.id)
                        (finish_acceptance-Keeps r made.0.id)))))

  pub accept_parcel-Evolving :
      (now : ℕ) (list : Checklist) (partner : ℕ) (as_admin : Bool)
      → Evolving t (accept_parcel now id list partner as_admin)
  unfolding accept_parcel
  accept_parcel-Evolving now list partner as_admin =
      bind (Evolves t) (Evolves t) (Read t id) (λ _. Evolves t)
        (find_one_for_partner id partner as_admin) _
        (find_one_for_partner-Triple t id partner as_admin)
        (λ r.
          guard (Evolves t) (Read t id r) (λ _. Evolves t) (not (is_open r.status))
            (bad_request wrong_status) _ (λ _ h. h.0)
            (λ _.
              guard (Evolves t) (Read t id r) (λ _. Evolves t) (is_none r.verified_at)
                (bad_request not_verified) _ (λ _ h. h.0)
                (λ v.
                  guard (Evolves t) (Read t id r) (λ _. Evolves t) (not (is_settled r))
                    (bad_request payment_missing) _ (λ _ h. h.0)
                    (λ s w p. accept_checked-Evolving now list partner r w (p, v, not-false s)))))

  rejects_row :
      (reason : String) (r a : PickupRequest) (u : Table PickupRequest)
      → Read t id r u
      → is_open r.status ≡ true
      → u id ≡ some a
      → RowStep a (reject_row reason a)
  rejects_row reason r a u h o e =
      rejects reason (row_fact (λ q. is_open q.status ≡ true) u id r a h.1 e o) refl

  abbrev finish_rejection : ℕ → String → ℕ → M (Unit {0})
  finish_rejection quote_id reason partner =
      update_quote quote_id (reject_quote_row reason) >> log partner Action.rejected id

  finish_rejection-Keeps :
      (q : ℕ) (reason : String) (partner : ℕ) → Keeps (finish_rejection q reason partner)
  finish_rejection-Keeps q reason partner w = ground arith

  abbrev announce_rejection : PickupRequest → M PickupRequest
  announce_rejection r = emit (notified r.customer_id Template.pickup_rejected) >> find_one id

  announce_rejection-Keeps : (r : PickupRequest) → Keeps (announce_rejection r)
  unfolding find_one
  announce_rejection-Keeps r w = ground arith

  pub reject_parcel-Evolving :
      (reason : String) (partner : ℕ) (as_admin : Bool)
      → Evolving t (reject_parcel id reason partner as_admin)
  unfolding reject_parcel
  reject_parcel-Evolving reason partner as_admin =
      bind (Evolves t) (Evolves t) (Read t id) (λ _. Evolves t)
        (find_one_for_partner id partner as_admin) _
        (find_one_for_partner-Triple t id partner as_admin)
        (λ r.
          guard (Evolves t) (Read t id r) (λ _. Evolves t) (not (is_open r.status))
            (bad_request wrong_status) _ (λ _ h. h.0)
            (λ o.
              bind (Evolves t) (Read t id r) (λ _. Evolves t) (λ _. Evolves t)
                (transaction (
                  update_request id (reject_row reason)
                  >> finish_rejection r.quote_id reason partner))
                (λ _. announce_rejection r)
                (in_transaction (Evolves t) (Read t id r) (λ _. Evolves t)
                  (update_request id (reject_row reason)
                    >> finish_rejection r.quote_id reason partner)
                  (λ _ h. h.0)
                  (bind (Evolves t) (Read t id r) (λ _. Evolves t) (λ _. Evolves t)
                    (update_request id (reject_row reason))
                    (λ _. finish_rejection r.quote_id reason partner)
                    (update_request-Triple t id (Read t id r) (reject_row reason) (λ _ h. h.0)
                      (λ u a h e. rejects_row reason r a u h (not-false o) e))
                    (λ _.
                      Keeps-Evolving t id (finish_rejection r.quote_id reason partner)
                        (finish_rejection-Keeps r.quote_id reason partner))))
                (λ _. Keeps-Evolving t id (announce_rejection r) (announce_rejection-Keeps r))))
