-- ===== src/Tracking/Again.antt =====
-- A carrier that reports the same events again.
use mathlib.Core.Bool.{false≢true}
use nation_wide.Common.{
  ℕ, ◌≤◌, ◌<◌, ◌+◌, max, ◌≡◌, refl, sym, ap, Bool, true, false, Option, none, some, List, [], ◌∷◌,
  ◌++◌, ◌∙◌, arith, Bool-cases, inl, inr, any, map, filter_by, not, In, here, there, In-filter_by,
  ==_iff, ◌==◌,
}
use nation_wide.Accounts.Rows.{Crypto}
use nation_wide.Tracking.Rows.{
  TrackingEvent, Shipment, NormalizedTrackingEvent, TrackingDb, Reply, ok, err,
}
use nation_wide.Tracking.Events.{
  persist_new_events, store_events, is_known, is_new, latest_time, later_of, event_row, last_status,
}
use nation_wide.Tracking.History.{append_nil, ask_if_delivered-events}

abbrev pub is_done : Reply (Unit {0}) → Bool
is_done (ok a) = true
is_done (err e) = false

-- The first time that is later than all of them.
abbrev bound : Option ℕ → ℕ
bound none = 0
bound (some t) = t + 1

later_bound : (o : Option ℕ) (t : ℕ) → bound (later_of o t) ≡ max (bound o) (t + 1)
later_bound none t = omega arith
later_bound (some u) t = omega arith

is_new-bound :
    (o : Option ℕ) (e : NormalizedTrackingEvent) → e.event_time < bound o → is_new o e ≡ false
is_new-bound none e h = ground arith
is_new-bound (some t) e h = ground arith

bound-is_new :
    (o : Option ℕ) (e : NormalizedTrackingEvent) → is_new o e ≡ false → e.event_time < bound o
bound-is_new none e h = absurd (false≢true (sym h))
bound-is_new (some t) e h = ground arith

latest_append :
    (id : ℕ) (es more : List TrackingEvent)
    → bound (latest_time id es) ≤ bound (latest_time id (es ++ more))
latest_append id [] more = omega arith
latest_append id (x ∷ es) more =
    let rest = latest_append id es more in
    elim (Bool-cases (x.shipment_id == id)) [
      | inl e ↦ rw e (
          rw (later_bound (latest_time id es) x.event_time)
            (rw (later_bound (latest_time id (es ++ more)) x.event_time) (omega (arith, rest))))
      | inr e ↦ rw e rest
    ]

module _ (s : Shipment) where
  latest_new :
      (es : List TrackingEvent) (new : List NormalizedTrackingEvent) (e : NormalizedTrackingEvent)
      → In e new
      → e.event_time < bound (latest_time s.id (es ++ map (event_row s) new))
  latest_new [] [] e i = elim i [ ]
  latest_new [] (x ∷ new) e (here h) = rw ((==_iff s.id s.id).1 refl) (
      rw (later_bound (latest_time s.id (map (event_row s) new)) x.event_time) (rw h (omega arith)))
  latest_new [] (x ∷ new) e (there i) =
      let rest = latest_new [] new e i in
      rw ((==_iff s.id s.id).1 refl) (
        rw (later_bound (latest_time s.id (map (event_row s) new)) x.event_time)
          (omega (arith, rest)))
  latest_new (y ∷ es) new e i =
      let rest = latest_new es new e i in
      elim (Bool-cases (y.shipment_id == s.id)) [
        | inl h ↦ rw h (
            rw (later_bound (latest_time s.id (es ++ map (event_row s) new)) y.event_time)
              (omega (arith, rest)))
        | inr h ↦ rw h rest
      ]

filter_none :
    {A : Type 0} (p : A → Bool) (xs : List A)
    → ((x : A) → In x xs → p x ≡ false)
    → filter_by p xs ≡ []
filter_none p [] h = refl
filter_none p (x ∷ xs) h = rw (h x (here refl)) (filter_none p xs (λ y i. h y (there i)))

module _ (c : Crypto) (now : ℕ) (s : Shipment) (events : List NormalizedTrackingEvent)
    (d : TrackingDb) where
  abbrev new : List NormalizedTrackingEvent
  new = filter_by (is_new (latest_time s.id d.events)) events

  none_new : filter_by (is_new (latest_time s.id (d.events ++ map (event_row s) new))) events ≡ []
  none_new = filter_none _ events (λ e i. elim (Bool-cases (is_new (latest_time s.id d.events) e)) [
    | inl h ↦ is_new-bound _ e (latest_new s d.events new e (In-filter_by _ e events i h))
    | inr h ↦ is_new-bound _ e (
        omega (
          arith,
          bound-is_new (latest_time s.id d.events) e h,
          latest_append s.id d.events (map (event_row s) new),
        ))
  ])

  stored :
      (ns : List NormalizedTrackingEvent) {d' : TrackingDb}
      → store_events c now s ns d ≡ (ok tt, d')
      → d'.events ≡ d.events ++ map (event_row s) ns
  stored [] e = rw⁻¹ (ap (λ x. x.1.events) e) (sym (append_nil d.events))
  stored (n ∷ ns) {d'} e = elim (Bool-cases (any (λ m. not (is_known d.statuses m)) (n ∷ ns))) [
    | inl h ↦ absurd (false≢true (ap (λ x. is_done x.0) (rw h at e)))
    | inr h ↦
        sym (ap (λ x. x.1.events) (rw h at e))
        ∙ ask_if_delivered-events c now (last_status n.status ns) s.id _
  ]

  -- Once the events that a carrier reports are stored, storing the same report again, at any time,
  -- succeeds and changes nothing: no event is stored twice and nobody is told twice.
  pub persist_new_events-again :
      (later : ℕ) {d' : TrackingDb}
      → persist_new_events c now s events d ≡ (ok tt, d')
      → persist_new_events c later s events d' ≡ (ok tt, d')
  unfolding persist_new_events
  persist_new_events-again later {d'} e = rw (stored new e) (rw none_new refl)
