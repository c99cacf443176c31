-- ===== src/PickupRequests/Linked.antt =====
-- The rows that an acceptance of a settled parcel writes.
use text.Mathlib.Text.{◌==◌ as str_eq}
use nation_wide.Common.{ℕ, ◌+◌, ◌≡◌, sym, subst, ap, ◌∙◌, true, false, none, some, ◌∷◌, arith, find}
use nation_wide.Store.{
  World, put, Result, ok, err, bound, PickupRequest, Checklist, Order, Quote, Customer,
  ShippingProvider, transaction, M, ◌>>◌, ◌>>=◌, Shipment, bad_request, already_processed, emit,
  invoice_asked, receipt_asked, notified, Template,
}
use nation_wide.Coupons.{redeem, redeem_claim, validate, check}
use nation_wide.Orders.{
  create_order_with_shipment, resolve_provider, create_for_order, new_order, default_provider_code,
}
use nation_wide.PickupRequests.Access.{
  is_open, is_none, is_id, find_one, find_one_for_partner, may_work, claim_request,
}
use nation_wide.PickupRequests.Collection.{payable_for, is_settled}
use nation_wide.PickupRequests.Outcome.{
  complete_row, accept_quote_row, link_row, redeem_quietly, link_order, link_and_announce,
  order_payment, accept_checked, accept_parcel,
}

abbrev Framed : World → Result (Unit {0}) × World → Type 0
Framed u (ok _, v) = (v.requests ≡ u.requests) × (v.quotes ≡ u.quotes) × (v.orders ≡ u.orders)
Framed u (err e, v) = ⊥

redeem_quietly-Framed :
    (now : ℕ) (r : PickupRequest) (u : World) → Framed u (redeem_quietly now r u)
unfolding redeem_quietly redeem validate check redeem_claim
redeem_quietly-Framed now r u = ground arith

-- The rows of the request, the quote and the order, as the code writes them.
abbrev pub Linked :
    ℕ
    → Checklist
    → ℕ
    → PickupRequest
    → PickupRequest
    → Order
    → Quote
    → Result PickupRequest × World
    → Type 0
Linked id list partner r a order q res =
    (res.0 ≡ ok (link_row order.id list a))
    × (res.1.requests id ≡ some (link_row order.id list a))
    × (res.1.quotes r.quote_id ≡ some (accept_quote_row order.id q))
    × (res.1.orders order.id ≡ some (order_payment (payable_for r) partner r order))

module _ (now id : ℕ) (list : Checklist) (partner : ℕ) (r : PickupRequest) where
  abbrev after_redeem : Order → M PickupRequest
  after_redeem order =
      transaction (link_order id list partner r order)
      >> (emit (invoice_asked order.id)
          >> (emit (receipt_asked order.id)
              >> (emit (notified r.customer_id Template.order_created_from_pickup) >> find_one id)))

  after_redeem-Linked :
      (a : PickupRequest) (order : Order) (q : Quote) (v : World)
      → v.requests id ≡ some a
      → v.quotes r.quote_id ≡ some q
      → Linked id list partner r a order q (after_redeem order v)
  unfolding link_order find_one
  after_redeem-Linked a order q v e k = (ground arith, ground arith, ground arith, ground arith)

  redeemed-Linked :
      (a : PickupRequest) (order : Order) (q : Quote) (u : World) (res : Result (Unit {0}) × World)
      → u.requests id ≡ some a
      → u.quotes r.quote_id ≡ some q
      → Framed u res
      → Linked id list partner r a order q (bound (λ _. after_redeem order) res)
  redeemed-Linked a order q u (ok _, v) e k f =
      after_redeem-Linked a order q v (subst (λ t. t id ≡ some a) (sym f.0) e)
        (subst (λ t. t r.quote_id ≡ some q) (sym f.1) k)
  redeemed-Linked a order q u (err x, v) e k f = absurd f

  link_and_announce-Linked :
      (a : PickupRequest) (order : Order) (q : Quote) (u : World)
      → u.requests id ≡ some a
      → u.quotes r.quote_id ≡ some q
      → Linked id list partner r a order q (link_and_announce now id list partner r order u)
  unfolding link_and_announce
  link_and_announce-Linked a order q u e k =
      redeemed-Linked a order q u (redeem_quietly now r u) e k (redeem_quietly-Framed now r u)

  -- The state after the claim and the creation of the order.
  abbrev with_order : ℕ → World → World
  with_order provider w = record w {
    requests = put w.requests id (complete_row r);
    orders = put w.orders w.next_id (new_order w.next_id r.customer_id);
    shipments =
        record { id = w.next_id + 1; order_id = w.next_id; provider_id = provider; awb_count = 0 }
        ∷ w.shipments;
    next_id = w.next_id + 1 + 1;
  }

  abbrev after_claim : World → World
  after_claim w = record w { requests = put w.requests id (complete_row r) }

  abbrev order_and_shipment : ℕ → World → Order × Shipment
  order_and_shipment provider w = (
    new_order w.next_id r.customer_id,
    record { id = w.next_id + 1; order_id = w.next_id; provider_id = provider; awb_count = 0 },
  )

  claimed :
      (w : World)
      → w.requests id ≡ some r
      → is_open r.status ≡ true
      → claim_request id (λ a. is_open a.status) complete_row (bad_request already_processed) w
        ≡ (ok tt, after_claim w)
  unfolding claim_request
  claimed w e o = ground arith

  created :
      (c : Customer) (p : ShippingProvider) (w : World)
      → w.customers r.customer_id ≡ some c
      → find (λ p. str_eq p.code default_provider_code) w.providers ≡ some p
      → create_order_with_shipment r.customer_id none (after_claim w)
        ≡ (ok (order_and_shipment p.id w), with_order p.id w)
  unfolding create_order_with_shipment resolve_provider create_for_order
  created c p w cu pr = ground arith

  accept_checked-with_order :
      (c : Customer) (p : ShippingProvider) (w : World)
      → w.requests id ≡ some r
      → is_open r.status ≡ true
      → w.customers r.customer_id ≡ some c
      → find (λ p. str_eq p.code default_provider_code) w.providers ≡ some p
      → accept_checked now id list partner r w
        ≡ link_and_announce now id list partner r
            (new_order w.next_id r.customer_id)
            (with_order p.id w)
  unfolding accept_checked
  accept_checked-with_order c p w e o cu pr =
      ap
        (bound λ _. create_order_with_shipment r.customer_id none >>= λ made.
          link_and_announce now id list partner r made.0)
        (claimed w e o)
      ∙ ap (bound λ made. link_and_announce now id list partner r made.0) (created c p w cu pr)

  accept_checked-Linked :
      (q : Quote) (c : Customer) (p : ShippingProvider) (w : World)
      → w.requests id ≡ some r
      → is_open r.status ≡ true
      → w.quotes r.quote_id ≡ some q
      → w.customers r.customer_id ≡ some c
      → find (λ p. str_eq p.code default_provider_code) w.providers ≡ some p
      → Linked id list partner r
          (complete_row r)
          (new_order w.next_id r.customer_id)
          q
          (accept_checked now id list partner r w)
  accept_checked-Linked q c p w e o k cu pr =
      subst (Linked id list partner r (complete_row r) (new_order w.next_id r.customer_id) q)
        (sym (accept_checked-with_order c p w e o cu pr))
        (link_and_announce-Linked (complete_row r) (new_order w.next_id r.customer_id) q
          (with_order p.id w) (ground arith) k)

  pub accept_parcel-Linked :
      (q : Quote) (c : Customer) (p : ShippingProvider) (w : World)
      → w.requests id ≡ some r
      → is_id r.assigned_partner_id partner ≡ true
      → is_open r.status ≡ true
      → is_none r.verified_at ≡ false
      → is_settled r ≡ true
      → w.quotes r.quote_id ≡ some q
      → w.customers r.customer_id ≡ some c
      → find (λ p. str_eq p.code default_provider_code) w.providers ≡ some p
      → Linked id list partner r
          (complete_row r)
          (new_order w.next_id r.customer_id)
          q
          (accept_parcel now id list partner false w)
  unfolding accept_parcel find_one_for_partner find_one may_work
  accept_parcel-Linked q c p w e mine o v s k cu pr =
      let checked : accept_parcel now id list partner false w
          ≡ accept_checked now id list partner r w =
        ground arith in
      subst (Linked id list partner r (complete_row r) (new_order w.next_id r.customer_id) q)
        (sym checked) (accept_checked-Linked q c p w e o k cu pr)
