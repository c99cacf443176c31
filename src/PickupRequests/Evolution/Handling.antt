-- ===== src/PickupRequests/Evolution/Handling.antt =====
-- Assigning, claiming and photographing, and cancelling the order, take the steps of `RowStep`.
use nation_wide.Common.{
  ℕ, ◌≡◌, refl, sym, subst, ◌⊎◌, inl, inr, Bool, true, false, not, Option, none, some, arith,
  String,
}
use nation_wide.Store.{
  World, Table, M, ok, not_found, bad_request, wrong_status, already_taken, or_raise, ◌>>=◌, ◌>>◌,
  log, emit, Action, notified, pushed, file_put, Template, PickupRequest, Keeps, bind, keep, guard,
}
use nation_wide.Orders.{find_one as find_order}
use nation_wide.Orders.Cancel.{
  CancellationFees, Distance, cancel, cancel_requests, cancel_row, quote_cancellation, ask_charge,
}
use nation_wide.Quotes.Decide.{find_one_or_throw, reject, cancel_orphan, orphan_row}
use nation_wide.PickupRequests.Access.{
  is_open, is_unclaimed, find_one, find_one_for_partner, may_work, assign_to, claim, claim_request,
  assign_partner, partner_of, update_request,
}
use nation_wide.PickupRequests.Uploads.{
  find_one_workable, resolve_for_upload, save_aadhaar, save_parcel_photo, photo_row, fresh_key,
  delete_file,
}
use nation_wide.PickupRequests.Steps.{
  RowStep, Evolved, Evolved-step, Evolves, assigns, photographs, cancels, orphans,
}
use nation_wide.PickupRequests.Rules.{
  Read, Evolving, row_fact, Keeps-Evolving, find_one-Triple, update_request-Triple,
  claim_request-Triple, Changed,
}

unclaimed_open : (a : PickupRequest) → is_unclaimed a ≡ true → is_open a.status ≡ true
unclaimed_open a h = ground arith

module _ (t : Table PickupRequest) (id : ℕ) where
  abbrev finish_claim : ℕ → M PickupRequest
  finish_claim partner = find_one id >>= λ r.
      log partner Action.partner_assigned id
      >> (emit (notified r.customer_id Template.pickup_partner_assigned) >> (λ w. (ok r, w)))

  finish_claim-Keeps : (partner : ℕ) → Keeps (finish_claim partner)
  unfolding find_one
  finish_claim-Keeps partner w = ground arith

  pub claim-Evolving : (now partner : ℕ) → Evolving t (claim now id partner)
  unfolding claim
  claim-Evolving now partner =
      bind (Evolves t) (Evolves t) (λ _. Changed t id (assign_to partner now)) (λ _. Evolves t)
        (claim_request id is_unclaimed (assign_to partner now) (bad_request already_taken))
        (λ _. finish_claim partner)
        (claim_request-Triple t id (Evolves t) is_unclaimed (assign_to partner now)
          (bad_request already_taken) (λ _ h. h)
          (λ u a h e y. assigns partner now (unclaimed_open a y) refl))
        (λ _ w p. Keeps-Evolving t id (finish_claim partner) (finish_claim-Keeps partner) w p.0)

  abbrev finish_assignment : PickupRequest → ℕ → ℕ → M PickupRequest
  finish_assignment r partner actor =
      log actor Action.partner_assigned id
      >> ((emit (notified r.customer_id Template.pickup_partner_assigned) >> emit (pushed partner))
          >> find_one id)

  finish_assignment-Keeps :
      (r : PickupRequest) (partner actor : ℕ) → Keeps (finish_assignment r partner actor)
  unfolding find_one
  finish_assignment-Keeps r partner actor w = ground arith

  assigns_row :
      (now partner : ℕ) (r a : PickupRequest) (u : Table PickupRequest)
      → Read t id r u
      → not (is_open r.status) ≡ false
      → u id ≡ some a
      → RowStep a (assign_to partner now a)
  assigns_row now partner r a u h o e =
      assigns partner now (row_fact (λ q. is_open q.status ≡ true) u id r a h.1 e (ground arith))
        refl

  pub assign_partner-Evolving :
      (now partner actor : ℕ) → Evolving t (assign_partner now id partner actor)
  unfolding assign_partner
  assign_partner-Evolving now partner actor =
      bind (Evolves t) (Evolves t) (Read t id) (λ _. Evolves t) (find_one id) _
        (find_one-Triple t id)
        (λ r.
          guard (Evolves t) (Read t id r) (λ _. Evolves t) (not (is_open r.status))
            (bad_request wrong_status) _ (λ _ h. h.0)
            (λ o.
              keep (Evolves t) (Read t id r) (λ _. Evolves t)
                (λ w. or_raise (partner_of (w.users partner)) not_found w) _ (λ _ h. h.0)
                (λ w. ground arith)
                (λ _.
                  bind (Evolves t) (Read t id r) (λ _. Evolves t) (λ _. Evolves t)
                    (update_request id (assign_to partner now))
                    (λ _. finish_assignment r partner actor)
                    (update_request-Triple t id (Read t id r) (assign_to partner now) (λ _ h. h.0)
                      (λ u a h e. assigns_row now partner r a u h o e))
                    (λ _.
                      Keeps-Evolving t id (finish_assignment r partner actor)
                        (finish_assignment-Keeps r partner actor)))))

  resolve_for_upload-Keeps :
      (actor : ℕ) (as_admin back_office : Bool)
      → Keeps (resolve_for_upload id actor as_admin back_office)
  unfolding resolve_for_upload find_one_workable find_one_for_partner find_one may_work
  resolve_for_upload-Keeps actor as_admin back_office w = ground arith

  save_aadhaar-Keeps :
      (actor : ℕ) (as_admin back_office : Bool) → Keeps (save_aadhaar id actor as_admin back_office)
  unfolding save_aadhaar resolve_for_upload find_one_workable find_one_for_partner find_one may_work
  save_aadhaar-Keeps actor as_admin back_office w = ground arith

  pub save_aadhaar-Evolving :
      (actor : ℕ) (as_admin back_office : Bool)
      → Evolving t (save_aadhaar id actor as_admin back_office)
  save_aadhaar-Evolving actor as_admin back_office =
      Keeps-Evolving t id (save_aadhaar id actor as_admin back_office)
        (save_aadhaar-Keeps actor as_admin back_office)

  abbrev finish_photo : PickupRequest → M PickupRequest
  finish_photo r = delete_file r.parcel_photo_key >> find_one id

  finish_photo-Keeps : (r : PickupRequest) → Keeps (finish_photo r)
  unfolding find_one
  finish_photo-Keeps r w = ground arith

  pub save_parcel_photo-Evolving :
      (actor : ℕ) (as_admin back_office : Bool)
      → Evolving t (save_parcel_photo id actor as_admin back_office)
  unfolding save_parcel_photo
  save_parcel_photo-Evolving actor as_admin back_office =
      keep (Evolves t) (Evolves t) (λ _. Evolves t)
        (resolve_for_upload id actor as_admin back_office) _ (λ _ h. h)
        (resolve_for_upload-Keeps actor as_admin back_office)
        (λ r.
          keep (Evolves t) (Evolves t) (λ _. Evolves t) fresh_key _ (λ _ h. h) (λ w. refl)
            (λ key.
              keep (Evolves t) (Evolves t) (λ _. Evolves t) (emit (file_put key)) _ (λ _ h. h)
                (λ w. refl)
                (λ _.
                  bind (Evolves t) (Evolves t) (λ _. Evolves t) (λ _. Evolves t)
                    (update_request id (photo_row key)) (λ _. finish_photo r)
                    (update_request-Triple t id (Evolves t) (photo_row key) (λ _ h. h)
                      (λ u a h e. photographs key refl))
                    (λ _. Keeps-Evolving t id (finish_photo r) (finish_photo-Keeps r)))))

-- Cancelling the order cancels the rows of its requests that are not completed.
cancel_requests-Evolves :
    (t u : Table PickupRequest) (order_id : ℕ) (reason : Option String)
    → Evolves t u
    → Evolves t (cancel_requests order_id reason u)
unfolding cancel_requests
cancel_requests-Evolves t u order_id reason h j = each (u j) (h j)
  where
    each :
        (b : Option PickupRequest)
        → Evolved (t j) b
        → Evolved (t j) (elim b [ none ↦ none | some r ↦ some (cancel_row order_id reason r) ])
    each none k = k
    each (some r) k =
        Evolved-step (t j) (some r) r (cancel_row order_id reason r) k refl
          (cancels order_id reason refl)

-- The requests of the state after a cancellation.
cancel_outcome :
    (fees : Option CancellationFees) (km : ℕ → Option Distance) (now id : ℕ)
    (reason : Option String) (actor : ℕ) (customer : Option ℕ) (w : World)
    → ((cancel fees km now id reason actor customer w).1.requests ≡ w.requests)
      ⊎ ((cancel fees km now id reason actor customer w).1.requests
          ≡ cancel_requests id reason w.requests)
unfolding cancel find_order quote_cancellation ask_charge
cancel_outcome fees km now id reason actor customer w = ground arith

pub cancel-Evolves :
    (t : Table PickupRequest) (fees : Option CancellationFees) (km : ℕ → Option Distance)
    (now id : ℕ) (reason : Option String) (actor : ℕ) (customer : Option ℕ) (w : World)
    → Evolves t w.requests
    → Evolves t (cancel fees km now id reason actor customer w).1.requests
cancel-Evolves t fees km now id reason actor customer w h =
    elim (cancel_outcome fees km now id reason actor customer w) [
      | inl e ↦ subst (Evolves t) (sym e) h
      | inr e ↦ subst (Evolves t) (sym e) (cancel_requests-Evolves t w.requests id reason h)
    ]

-- Rejecting the quote cancels its open request.
cancel_orphan-Evolves :
    (t u : Table PickupRequest) (quote_id : ℕ) → Evolves t u → Evolves t (cancel_orphan quote_id u)
unfolding cancel_orphan
cancel_orphan-Evolves t u quote_id h j = each (u j) (h j)
  where
    each :
        (b : Option PickupRequest)
        → Evolved (t j) b
        → Evolved (t j) (elim b [ none ↦ none | some r ↦ some (orphan_row quote_id r) ])
    each none k = k
    each (some r) k =
        Evolved-step (t j) (some r) r (orphan_row quote_id r) k refl (orphans quote_id refl)

reject_outcome :
    (id : ℕ) (reason : String) (actor : ℕ) (w : World)
    → ((reject id reason actor w).1.requests ≡ w.requests)
      ⊎ ((reject id reason actor w).1.requests ≡ cancel_orphan id w.requests)
unfolding reject find_one_or_throw
reject_outcome id reason actor w = ground arith

pub reject-Evolves :
    (t : Table PickupRequest) (id : ℕ) (reason : String) (actor : ℕ) (w : World)
    → Evolves t w.requests
    → Evolves t (reject id reason actor w).1.requests
reject-Evolves t id reason actor w h = elim (reject_outcome id reason actor w) [
  | inl e ↦ subst (Evolves t) (sym e) h
  | inr e ↦ subst (Evolves t) (sym e) (cancel_orphan-Evolves t w.requests id h)
]
