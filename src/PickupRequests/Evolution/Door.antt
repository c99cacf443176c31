-- ===== src/PickupRequests/Evolution/Door.antt =====
-- The operations at the door take the steps of `RowStep`.
use nation_wide.Common.{
  ℕ, ◌≡◌, refl, inl, inr, Bool, true, false, not, Option, none, some, arith, if◌then◌else◌,
  Bool-cases, ◌∷◌,
}
use nation_wide.Store.{
  World, Table, claim_row, ok, bad_request, wrong_status, pure, ◌>>◌, Action, notified, Template,
  PickupRequest, Assertion, Post, Triple, Keeps, bind, keep, reads, guard, VerifiedParcel,
}
use nation_wide.PickupRequests.Access.{
  is_open, is_none, find_one, find_one_for_partner, may_work, update_request,
}
use nation_wide.PickupRequests.Door.{
  mark_arrived, record_arrival, after_arrival, arrive_row, verify, verify_row, VerifyPickupRequest,
  price_at_door, reprice_against_original_provider, check_verifiable, price_parcel,
  announce_verified, write_contents, verified_parcel,
}
use nation_wide.PickupRequests.Steps.{RowStep, Evolves, put-Evolves, arrives, verifies}
use nation_wide.PickupRequests.Rules.{
  Read, Evolving, row_fact, Keeps-Evolving, find_one-Keeps, find_one_for_partner-Keeps,
  find_one_for_partner-Triple, update_request-Triple,
}

module _ (t : Table PickupRequest) where
  abbrev Written : World → Option (Table PickupRequest) → Type 0
  Written w none = Evolves t w.requests
  Written w (some u) = Evolves t u

  after_arrival-Written :
      (id partner : ℕ) (as_admin : Bool) (r : PickupRequest) (o : Option (Table PickupRequest))
      (w : World)
      → Written w o
      → Post (Evolves t) (λ _. Evolves t) (after_arrival id partner as_admin r o w)
  unfolding after_arrival
  after_arrival-Written id partner as_admin r none w h =
      Keeps-Evolving t id (find_one_for_partner id partner as_admin)
        (find_one_for_partner-Keeps id partner as_admin) w h
  after_arrival-Written id partner as_admin r (some u) w h =
      Keeps-Evolving t id (find_one id) (find_one-Keeps id)
        (record w {
          requests = u;
          audit = record { actor = partner; action = Action.arrived; entity_id = id } ∷ w.audit;
          events = notified r.customer_id Template.pickup_partner_arrived ∷ w.events;
        })
        h

  claim_row-Written :
      (test : PickupRequest → Bool) (change : PickupRequest → PickupRequest) (id : ℕ) (w : World)
      (o : Option PickupRequest)
      → Evolves t w.requests
      → w.requests id ≡ o
      → ((r : PickupRequest) → w.requests id ≡ some r → test r ≡ true → RowStep r (change r))
      → Written w (claim_row test change w.requests id o)
  claim_row-Written test change id w none h e s = h
  claim_row-Written test change id w (some r) h e s = elim (Bool-cases (test r)) [
    | inl y ↦ rw y (put-Evolves t w.requests id r (change r) h e (s r e y))
    | inr n ↦ rw n h
  ]

  pub record_arrival-Evolving :
      (now id partner : ℕ) (as_admin : Bool) (r : PickupRequest)
      → is_open r.status ≡ true
      → Triple (Read t id r) (Evolves t) (record_arrival now id partner as_admin r) (λ _. Evolves t)
  unfolding record_arrival
  record_arrival-Evolving now id partner as_admin r o w p =
      after_arrival-Written id partner as_admin r
        (claim_row (λ a. is_none a.arrived_at) (arrive_row now) w.requests id (w.requests id)) w
        (claim_row-Written (λ a. is_none a.arrived_at) (arrive_row now) id w (w.requests id) p.0
          refl (λ a e y. arrives now (open_row a e) y refl))
    where
      open_row : (a : PickupRequest) → w.requests id ≡ some a → is_open a.status ≡ true
      open_row a e = row_fact (λ q. is_open q.status ≡ true) w.requests id r a p.1 e o

  arrive_if-Evolving :
      (now id partner : ℕ) (as_admin : Bool) (r : PickupRequest) (b : Bool)
      → is_open r.status ≡ true
      → Triple
          (Read t id r)
          (Evolves t)
          (if b then record_arrival now id partner as_admin r else pure r)
          (λ _. Evolves t)
  arrive_if-Evolving now id partner as_admin r true o w p =
      record_arrival-Evolving now id partner as_admin r o w p
  arrive_if-Evolving now id partner as_admin r false o w p = p.0

  pub mark_arrived-Evolving :
      (now id partner : ℕ) (as_admin : Bool) → Evolving t (mark_arrived now id partner as_admin)
  unfolding mark_arrived
  mark_arrived-Evolving now id partner as_admin =
      bind (Evolves t) (Evolves t) (Read t id) (λ _. Evolves t)
        (find_one_for_partner id partner as_admin) _
        (find_one_for_partner-Triple t id partner as_admin)
        (λ r.
          guard (Evolves t) (Read t id r) (λ _. Evolves t) (not (is_open r.status))
            (bad_request wrong_status) _ (λ _ h. h.0)
            (λ o.
              arrive_if-Evolving now id partner as_admin r (is_none r.arrived_at) (not-false o)))
    where
      not-false : {b : Bool} → not b ≡ false → b ≡ true
      not-false h = ground arith

  abbrev Verifiable : ℕ → PickupRequest → Assertion
  Verifiable id r u =
      (u id ≡ some r)
      × (is_open r.status ≡ true)
      × (is_none r.arrived_at ≡ false)
      × (is_none r.parcel_photo_key ≡ false)

  check_verifiable-Keeps :
      (id partner : ℕ) (as_admin : Bool) → Keeps (check_verifiable id partner as_admin)
  unfolding check_verifiable find_one_for_partner find_one may_work
  check_verifiable-Keeps id partner as_admin w = ground arith

  check_verifiable-Verifiable :
      (id partner : ℕ) (as_admin : Bool) (w : World) (r : PickupRequest)
      → (check_verifiable id partner as_admin w).0 ≡ ok r
      → Verifiable id r w.requests
  unfolding check_verifiable find_one_for_partner find_one may_work
  check_verifiable-Verifiable id partner as_admin w r e = ground arith

  price_parcel-Keeps : (dto : VerifyPickupRequest) (r : PickupRequest) → Keeps (price_parcel dto r)
  unfolding price_parcel price_at_door reprice_against_original_provider
  price_parcel-Keeps dto r w = ground arith

  announce_verified-Keeps :
      (id partner : ℕ) (r : PickupRequest) → Keeps (announce_verified id partner r)
  unfolding announce_verified find_one
  announce_verified-Keeps id partner r w = ground arith

  write_contents-Keeps :
      (dto : VerifyPickupRequest) (quote_id : ℕ) → Keeps (write_contents dto quote_id)
  write_contents-Keeps dto quote_id w = ground arith

  verifies_row :
      (now id : ℕ) (b : Bool) (price : ℕ) (parcel : VerifiedParcel) (r a : PickupRequest)
      (u : Table PickupRequest)
      → Verifiable id r u
      → u id ≡ some a
      → RowStep a (verify_row now b price parcel a)
  verifies_row now id b price parcel r a u h e =
      let same =
        row_fact
          (λ q.
            (is_open q.status ≡ true)
            × (is_none q.arrived_at ≡ false)
            × (is_none q.parcel_photo_key ≡ false))
          u id r a h.0 e (h.1, h.2, h.3) in
      verifies now b price parcel same.0 same.1 same.2 refl

  pub verify-Evolving :
      (now id : ℕ) (dto : VerifyPickupRequest) (partner : ℕ) (as_admin : Bool)
      → Evolving t (verify now id dto partner as_admin)
  unfolding verify
  verify-Evolving now id dto partner as_admin =
      bind (Evolves t) (Evolves t) (λ r u. Evolves t u × Verifiable id r u) (λ _. Evolves t)
        (check_verifiable id partner as_admin) _
        (reads (Evolves t) (Evolves t) (Verifiable id) (check_verifiable id partner as_admin)
          (λ _ h. h) (check_verifiable-Keeps id partner as_admin)
          (check_verifiable-Verifiable id partner as_admin))
        (λ r.
          keep (Evolves t) (λ u. Evolves t u × Verifiable id r u) (λ _. Evolves t)
            (price_parcel dto r) _ (λ _ h. h.0) (price_parcel-Keeps dto r)
            (λ priced.
              keep (Evolves t) (λ u. Evolves t u × Verifiable id r u) (λ _. Evolves t)
                (write_contents dto r.quote_id) _ (λ _ h. h.0) (write_contents-Keeps dto r.quote_id)
                (λ _. write_priced r priced.0 (verified_parcel dto priced.1))))
    where
      write_priced :
          (r : PickupRequest) (price : ℕ) (parcel : VerifiedParcel)
          → Triple
              (λ u. Evolves t u × Verifiable id r u)
              (Evolves t)
              (update_request id (verify_row now (not (is_none dto.recipient)) price parcel)
                >> announce_verified id partner r)
              (λ _. Evolves t)
      write_priced r price parcel =
          bind (Evolves t) (λ u. Evolves t u × Verifiable id r u) (λ _. Evolves t) (λ _. Evolves t)
            (update_request id (verify_row now (not (is_none dto.recipient)) price parcel))
            (λ _. announce_verified id partner r)
            (update_request-Triple t id (λ u. Evolves t u × Verifiable id r u)
              (verify_row now (not (is_none dto.recipient)) price parcel) (λ _ h. h.0)
              (λ u a h e.
                verifies_row now id (not (is_none dto.recipient)) price parcel r a u h.1 e))
            (λ _.
              Keeps-Evolving t id (announce_verified id partner r)
                (announce_verified-Keeps id partner r))
