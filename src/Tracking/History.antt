-- ===== src/Tracking/History.antt =====
-- The history of the parcels is only ever added to.
use nation_wide.Common.{
  ℕ, ◌≡◌, refl, sym, ap, Option, none, some, List, [], ◌∷◌, ◌++◌, ◌∙◌, String, arith, Bool-cases,
  Option-cases, inl, inr, any, map, find, filter_by, not,
}
use nation_wide.Accounts.Rows.{Crypto}
use nation_wide.Tracking.Rows.{
  TrackingEvent, TrackingStatus, Shipment, NormalizedTrackingEvent, CacheEntry, TrackingDb, Reply,
  ok, err, Texts, TrackingConfig, has_number, is_current, same_status,
}
use nation_wide.Tracking.Reviews.{submit, set_approved, request_feedback}
use nation_wide.Tracking.Shipments.{
  map_external_tracking_number, override_tracking_status, ask_if_delivered, override_found,
  override_event,
}
use nation_wide.Tracking.Events.{
  persist_new_events, store_events, is_known, is_new, latest_time, event_row, last_status,
}
use nation_wide.Tracking.Status.{
  get_status, after_storing, track, or_cached, status_of, find_shipment_by_reference,
}
use nation_wide.Tracking.Calls.{Call, ask, map_number, correct, review, approve, call, run}

abbrev pub Grows : List TrackingEvent → List TrackingEvent → Type 0
Grows es es' = (more : List TrackingEvent) × (es' ≡ es ++ more)

pub append_nil : {A : Type 0} (xs : List A) → xs ++ [] ≡ xs
append_nil [] = refl
append_nil (x ∷ xs) = ap (λ ys. x ∷ ys) (append_nil xs)

append_assoc : {A : Type 0} (xs ys zs : List A) → (xs ++ ys) ++ zs ≡ xs ++ (ys ++ zs)
append_assoc [] ys zs = refl
append_assoc (x ∷ xs) ys zs = ap (λ ws. x ∷ ws) (append_assoc xs ys zs)

same : (es : List TrackingEvent) → Grows es es
same es = ([], sym (append_nil es))

follow :
    (es fs : List TrackingEvent) (gs : List TrackingEvent) → Grows es fs → Grows fs gs → Grows es gs
follow es fs gs h k = (h.0 ++ k.0, k.1 ∙ (ap (λ xs. xs ++ k.0) h.1 ∙ append_assoc es h.0 k.0))

to_same : (es fs : List TrackingEvent) → fs ≡ es → Grows es fs
to_same es fs e = ([], e ∙ sym (append_nil es))

module _ (c : Crypto) where
  pub ask_if_delivered-events :
      (now : ℕ) (st : TrackingStatus) (id : ℕ) (d : TrackingDb)
      → (ask_if_delivered c now st id d).events ≡ d.events
  unfolding request_feedback
  ask_if_delivered-events now st id d = ground arith

  store_events-Grows :
      (now : ℕ) (s : Shipment) (new : List NormalizedTrackingEvent) (d : TrackingDb)
      → Grows d.events (store_events c now s new d).1.events
  store_events-Grows now s [] d = same d.events
  store_events-Grows now s (e ∷ es) d =
      elim (Bool-cases (any (λ n. not (is_known d.statuses n)) (e ∷ es))) [
        | inl t ↦ rw t (same d.events)
        | inr t ↦ rw t (
          map (event_row s) (e ∷ es),
          ask_if_delivered-events now (last_status e.status es) s.id _,
        )
      ]

  module _ (t : Texts) (config : TrackingConfig) where
    after_storing-events :
        (now : ℕ) (s : Shipment) (x : Reply (Unit {0}) × TrackingDb)
        → (after_storing t c config now s x).1.events ≡ x.1.events
    after_storing-events now s (ok a, d) = refl
    after_storing-events now s (err e, d) = ground arith

    track-Grows :
        (now : ℕ) (s : Shipment) (answer : Option (List NormalizedTrackingEvent)) (d : TrackingDb)
        → Grows d.events (track t c config now s answer d).1.events
    unfolding persist_new_events
    track-Grows now s none d = to_same d.events _ (ground arith)
    track-Grows now s (some events) d = elim (Option-cases (find (is_current s) d.mappings)) [
      | inl e ↦ rw (e, track) (same d.events)
      | inr e ↦
          rw (e.1, track)
            (follow d.events _ _
              (store_events-Grows now s (filter_by (is_new (latest_time s.id d.events)) events)
                (record d { logs = (s.id, some 200) ∷ d.logs }))
              (to_same _ _ (
                after_storing-events now s (
                  persist_new_events c now s events
                    (record d { logs = (s.id, some 200) ∷ d.logs })))))
    ]

    get_status-Grows :
        (now : ℕ) (reference : String) (answer : Option (List NormalizedTrackingEvent))
        (d : TrackingDb)
        → Grows d.events (get_status t c config now reference answer d).1.events
    unfolding get_status
    get_status-Grows now reference answer d = found (find_shipment_by_reference t reference d)
      where
        cached_or :
            (s : Shipment) (o : Option CacheEntry)
            → Grows d.events (or_cached t c config now s answer d o).1.events
        cached_or s none = track-Grows now s answer d
        cached_or s (some e) = same d.events

        found :
            (o : Option Shipment) → Grows d.events (status_of t c config now answer d o).1.events
        found none = same d.events
        found (some s) = cached_or s _

    call-Grows : (k : Call) (d : TrackingDb) → Grows d.events (call t c config k d).events
    unfolding call override_tracking_status map_external_tracking_number submit set_approved
    call-Grows (ask now reference answer) d = get_status-Grows now reference answer d
    call-Grows (correct now internal input actor) d = found (find (has_number internal) d.shipments)
      where
        found :
            (o : Option Shipment) → Grows d.events (override_found c now input actor d o).1.events
        found none = same d.events
        found (some s) = elim (Bool-cases (any (λ t. same_status t.code input.status) d.statuses)) [
          | inl e ↦
              rw e
                ((override_event now input s ∷ []), ask_if_delivered-events now input.status s.id _)
          | inr e ↦ rw e (same d.events)
        ]
    call-Grows (map_number internal provider number actor) d = to_same d.events _ (ground arith)
    call-Grows (review now token dto) d = to_same d.events _ (ground arith)
    call-Grows (approve now id approved admin) d = to_same d.events _ (ground arith)

    -- The history is only added to: after every sequence of calls, accepted or refused, the events
    -- that were stored before stand unchanged at the front, and new ones behind them.
    pub run-Grows : (ks : List Call) (d : TrackingDb) → Grows d.events (run t c config ks d).events
    unfolding run
    run-Grows [] d = same d.events
    run-Grows (k ∷ ks) d = follow d.events _ _ (call-Grows k d) (run-Grows ks (call t c config k d))
