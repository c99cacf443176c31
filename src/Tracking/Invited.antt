-- ===== src/Tracking/Invited.antt =====
-- A customer is asked for a review at most once for each shipment.
use nation_wide.Common.{
  ℕ, ◌≡◌, refl, Option, none, some, List, [], ◌∷◌, String, Bool-cases, Option-cases, inl, inr, any,
  map, find, filter_by, not, ltb, ◌==◌,
}
use nation_wide.Accounts.Rows.{Crypto, is_some}
use nation_wide.Tracking.Rows.{
  TrackingStatus, is_delivered, Shipment, NormalizedTrackingEvent, CacheEntry, Review, TrackingDb,
  Reply, ok, err, Texts, TrackingConfig, has_number, is_current, same_status,
}
use nation_wide.Tracking.Reviews.{
  change_review, with_answer, with_approval, submit, submit_found, set_approved, approve_found,
  has_token_hash,
}
use nation_wide.Tracking.Shipments.{
  map_external_tracking_number, map_found, is_conflicting, override_tracking_status,
  ask_if_delivered, override_found,
}
use nation_wide.Tracking.Events.{
  persist_new_events, store_events, is_known, is_new, latest_time, last_status,
}
use nation_wide.Tracking.Status.{
  get_status, after_storing, fallback, synced, track, or_cached, status_of,
  find_shipment_by_reference,
}
use nation_wide.Tracking.Invitations.{IsAskedOnce, reviews_of-change, request_feedback-IsAskedOnce}
use nation_wide.Tracking.Calls.{Call, ask, map_number, correct, review, approve, call, run}

module _ (c : Crypto) where
  ask_if_delivered-IsAskedOnce :
      (now : ℕ) (st : TrackingStatus) (id : ℕ) (d : TrackingDb)
      → IsAskedOnce d
      → IsAskedOnce (ask_if_delivered c now st id d)
  ask_if_delivered-IsAskedOnce now st id d h = elim (Bool-cases (is_delivered st)) [
    | inl t ↦ rw t (request_feedback-IsAskedOnce c now id d h)
    | inr t ↦ rw t h
  ]

  store_events-IsAskedOnce :
      (now : ℕ) (s : Shipment) (new : List NormalizedTrackingEvent) (d : TrackingDb)
      → IsAskedOnce d
      → IsAskedOnce (store_events c now s new d).1
  store_events-IsAskedOnce now s [] d h = h
  store_events-IsAskedOnce now s (e ∷ es) d h =
      elim (Bool-cases (any (λ n. not (is_known d.statuses n)) (e ∷ es))) [
        | inl t ↦ rw t h
        | inr t ↦ rw t (ask_if_delivered-IsAskedOnce now (last_status e.status es) s.id _ h)
      ]

  module _ (t : Texts) (config : TrackingConfig) where
    fallback-IsAskedOnce :
        (s : Shipment) (d : TrackingDb) → IsAskedOnce d → IsAskedOnce (fallback t s d).1
    fallback-IsAskedOnce s d h = elim (Bool-cases (any (λ e. e.shipment_id == s.id) d.events)) [
      | inl e ↦ rw e h
      | inr e ↦ rw e h
    ]

    after_storing-IsAskedOnce :
        (now : ℕ) (s : Shipment) (x : Reply (Unit {0}) × TrackingDb)
        → IsAskedOnce x.1
        → IsAskedOnce (after_storing t c config now s x).1
    after_storing-IsAskedOnce now s (ok a, d) h = h
    after_storing-IsAskedOnce now s (err e, d) h = fallback-IsAskedOnce s _ h

    track-IsAskedOnce :
        (now : ℕ) (s : Shipment) (answer : Option (List NormalizedTrackingEvent)) (d : TrackingDb)
        → IsAskedOnce d
        → IsAskedOnce (track t c config now s answer d).1
    unfolding persist_new_events
    track-IsAskedOnce now s answer d h = elim (Option-cases (find (is_current s) d.mappings)) [
      | inl e ↦ rw (e, track) h
      | inr e ↦ rw (e.1, track) (answered answer)
    ]
      where
        answered :
            (a : Option (List NormalizedTrackingEvent))
            → IsAskedOnce (synced t c config now s a d).1
        answered none = fallback-IsAskedOnce s _ h
        answered (some events) =
            after_storing-IsAskedOnce now s
              (persist_new_events c now s events (record d { logs = (s.id, some 200) ∷ d.logs }))
              (store_events-IsAskedOnce now s
                (filter_by (is_new (latest_time s.id d.events)) events)
                (record d { logs = (s.id, some 200) ∷ d.logs }) h)

    get_status-IsAskedOnce :
        (now : ℕ) (reference : String) (answer : Option (List NormalizedTrackingEvent))
        (d : TrackingDb)
        → IsAskedOnce d
        → IsAskedOnce (get_status t c config now reference answer d).1
    unfolding get_status
    get_status-IsAskedOnce now reference answer d h =
        found (find_shipment_by_reference t reference d)
      where
        cached_or :
            (s : Shipment) (o : Option CacheEntry)
            → IsAskedOnce (or_cached t c config now s answer d o).1
        cached_or s none = track-IsAskedOnce now s answer d h
        cached_or s (some e) = h

        found : (o : Option Shipment) → IsAskedOnce (status_of t c config now answer d o).1
        found none = h
        found (some s) = cached_or s _

    changed :
        (row : ℕ) (f : Review → Review)
        → ((r : Review) → (f r).shipment_id ≡ r.shipment_id)
        → (d : TrackingDb) → IsAskedOnce d
        → IsAskedOnce (record d { reviews = map (change_review row f) d.reviews })
    changed row f k d h id = rw (reviews_of-change id row f k d.reviews) (h id)

    call-IsAskedOnce :
        (k : Call) (d : TrackingDb) → IsAskedOnce d → IsAskedOnce (call t c config k d)
    unfolding call override_tracking_status map_external_tracking_number submit set_approved
    call-IsAskedOnce (ask now reference answer) d h =
        get_status-IsAskedOnce now reference answer d h
    call-IsAskedOnce (correct now internal input actor) d h =
        found (find (has_number internal) d.shipments)
      where
        found : (o : Option Shipment) → IsAskedOnce (override_found c now input actor d o).1
        found none = h
        found (some s) = elim (Bool-cases (any (λ t. same_status t.code input.status) d.statuses)) [
          | inl e ↦ rw e (ask_if_delivered-IsAskedOnce now input.status s.id _ h)
          | inr e ↦ rw e h
        ]
    call-IsAskedOnce (map_number internal provider number actor) d h =
        found (find (has_number internal) d.shipments)
      where
        found : (o : Option Shipment) → IsAskedOnce (map_found provider number actor d o).1
        found none = h
        found (some s) = elim (Bool-cases (any (λ p. p.id == provider) d.providers)) [
          | inl e ↦ rw e (elim (Bool-cases (any (is_conflicting s.id provider number) d.mappings)) [
            | inl f ↦ rw f h
            | inr f ↦ rw f h
          ])
          | inr e ↦ rw e h
        ]
    call-IsAskedOnce (review now token dto) d h =
        found (find (has_token_hash (c.sha256 token)) d.reviews)
      where
        found : (o : Option Review) → IsAskedOnce (submit_found c now t dto d o).1
        found none = h
        found (some r) = elim (Bool-cases (ltb r.expires_at now)) [
          | inl e ↦ rw e h
          | inr e ↦ rw e (elim (Bool-cases (is_some r.submitted_at)) [
            | inl f ↦ rw f h
            | inr f ↦ rw f (changed r.id (with_answer c now t dto) (λ x. refl) d h)
          ])
        ]
    call-IsAskedOnce (approve now id approved admin) d h = found (find (λ r. r.id == id) d.reviews)
      where
        found : (o : Option Review) → IsAskedOnce (approve_found now approved admin d o).1
        found none = h
        found (some r) = elim (Bool-cases (is_some r.submitted_at)) [
          | inl f ↦ rw f (changed r.id (with_approval now approved admin) (λ x. refl) d h)
          | inr f ↦ rw f h
        ]

    -- Every sequence of calls, accepted or refused, keeps it so that each mail that asks for a review
    -- has a review of its own and no shipment has two: a customer is asked at most once for each.
    pub run-IsAskedOnce :
        (ks : List Call) (d : TrackingDb) → IsAskedOnce d → IsAskedOnce (run t c config ks d)
    unfolding run
    run-IsAskedOnce [] d h = h
    run-IsAskedOnce (k ∷ ks) d h = run-IsAskedOnce ks (call t c config k d) (call-IsAskedOnce k d h)
