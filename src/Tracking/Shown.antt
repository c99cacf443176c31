-- ===== src/Tracking/Shown.antt =====
-- A correction by staff is what the next question is answered with.
use mathlib.Core.Bool.{false≢true}
use mathlib.Core.Option.{some-injective}
use text.Mathlib.Text.{◌==◌ as str_eq}
use nation_wide.Common.{
  ℕ, ◌≡◌, refl, ap, Bool, true, false, Option, none, some, List, [], ◌∷◌, ◌++◌, ◌∙◌, String, arith,
  Bool-cases, inl, inr, any, map, find, filter_by, if◌then◌else◌, ==_iff, ◌==◌, ltb, or_default,
}
use nation_wide.Accounts.Rows.{Crypto}
use nation_wide.Tracking.Rows.{
  TrackingStatus, Shipment, CacheEntry, ExternalTrackingNumber, TrackingEvent,
  NormalizedTrackingEvent, TrackingDb, TrackingResult, Reply, ok, err, Texts, TrackingConfig,
  has_id, has_number, is_current, same_status,
}
use nation_wide.Tracking.Reviews.{request_feedback}
use nation_wide.Tracking.Shipments.{
  StatusOverride, change_shipment, with_status, other_entry, override_event, overridden,
  override_found, override_tracking_status, ask_if_delivered,
}
use nation_wide.Tracking.Events.{persist_new_events}
use nation_wide.Tracking.Again.{is_done}
use nation_wide.Tracking.Status.{get_status, track, cache_get, find_shipment_by_reference}

abbrev pub shown_status : Reply TrackingResult → Option TrackingStatus
shown_status (ok r) = r.current_status
shown_status (err e) = none

-- The entries of the number are gone.
dropped :
    (now : ℕ) (number : String) (es : List CacheEntry)
    → find
        (λ e. if str_eq e.number number then ltb now e.expires_at else false)
        (filter_by (other_entry number) es)
      ≡ none
dropped now number [] = refl
dropped now number (e ∷ es) = elim (Bool-cases (str_eq e.number number)) [
  | inl t ↦ rw t (dropped now number es)
  | inr t ↦ rw t (rw t (dropped now number es))
]

appended :
    (id : ℕ) (es : List TrackingEvent) (e : TrackingEvent)
    → (e.shipment_id == id) ≡ true
    → any (λ x. x.shipment_id == id) (es ++ (e ∷ [])) ≡ true
appended id [] e h = rw h refl
appended id (x ∷ es) e h = elim (Bool-cases (x.shipment_id == id)) [
  | inl t ↦ rw t refl
  | inr t ↦ rw t (appended id es e h)
]

-- The first row that passes a test which no change touches is the changed one.
find_shipment_changed :
    (p : Shipment → Bool) (id : ℕ) (f : Shipment → Shipment)
    → ((s : Shipment) → p (f s) ≡ p s)
    → (ss : List Shipment) {s : Shipment} → find p ss ≡ some s
    → find p (map (change_shipment id f) ss) ≡ some (change_shipment id f s)
find_shipment_changed p id f h [] e = cc
find_shipment_changed p id f h (x ∷ xs) e = elim (Bool-cases (p x)) [
  | inl t ↦
      rw (kept x) (rw t (ap (λ y. some (change_shipment id f y)) (some-injective _ _ (rw t at e))))
  | inr t ↦ rw (kept x) (rw t (find_shipment_changed p id f h xs (rw t at e)))
]
  where
    kept : (y : Shipment) → p (change_shipment id f y) ≡ p y
    kept y = elim (Bool-cases (y.id == id)) [ inl t ↦ rw t (h y) | inr t ↦ rw t refl ]

-- Nothing new from the carrier: it fails, or has no event.
abbrev pub IsSilent : Option (List NormalizedTrackingEvent) → Type 0
IsSilent none = Unit
IsSilent (some []) = Unit
IsSilent (some (e ∷ es)) = ⊥

-- A number of ours as it is written: it is looked up as it stands.
abbrev pub IsPlain : Texts → String → Type 0
IsPlain t number = (t.trim number ≡ number) × (t.upper number ≡ number) × (str_eq number "" ≡ false)

module _ (t : Texts) (c : Crypto) (config : TrackingConfig) where
  found_by_number :
      (number : String) (d : TrackingDb) {s : Shipment}
      → IsPlain t number
      → find (has_number number) d.shipments ≡ some s
      → find_shipment_by_reference t number d ≡ some s
  unfolding find_shipment_by_reference
  found_by_number number d h e = rw (h.0) (rw (h.2) (rw (h.1) (rw e refl)))

  -- The status that is shown for a shipment that is not in the cache, with events, is its own.
  shown_uncached :
      (now : ℕ) (answer : Option (List NormalizedTrackingEvent)) (d : TrackingDb) (s : Shipment)
      {m : ExternalTrackingNumber}
      → IsSilent answer
      → find (has_id s.id) d.shipments ≡ some s
      → find (is_current s) d.mappings ≡ some m
      → any (λ x. x.shipment_id == s.id) d.events ≡ true
      → shown_status (track t c config now s answer d).0 ≡ s.current_status
  unfolding persist_new_events
  shown_uncached now none d s h e f g = rw (f, track) (rw g (ap shown e))
    where
      shown : Option Shipment → Option TrackingStatus
      shown o = (or_default o s).current_status
  shown_uncached now (some []) d s h e f g = rw (f, track) (ap shown e)
    where
      shown : Option Shipment → Option TrackingStatus
      shown o = (or_default o s).current_status
  shown_uncached now (some (x ∷ xs)) d s h e f g = absurd h

  asked_keeps :
      (now : ℕ) (st : TrackingStatus) (id : ℕ) (d : TrackingDb)
      → let d' = ask_if_delivered c now st id d in
        (d'.shipments ≡ d.shipments)
        × (d'.mappings ≡ d.mappings)
        × (d'.cache ≡ d.cache)
        × (d'.events ≡ d.events)
  unfolding request_feedback
  asked_keeps now st id d = ground arith

  shown_after :
      (number : String) (now later : ℕ) (input : StatusOverride) (actor : ℕ)
      (answer : Option (List NormalizedTrackingEvent)) (d : TrackingDb) (s : Shipment)
      {m : ExternalTrackingNumber}
      → IsPlain t number
      → IsSilent answer
      → find (has_number number) d.shipments ≡ some s
      → find (has_id s.id) d.shipments ≡ some s
      → find (is_current s) d.mappings ≡ some m
      → (d' : TrackingDb)
      → (d'.shipments ≡ (overridden c now input actor s d).shipments)
        × (d'.mappings ≡ d.mappings)
        × (d'.cache ≡ filter_by (other_entry s.internal_tracking_number) d.cache)
        × (d'.events ≡ d.events ++ (override_event now input s ∷ []))
      → shown_status (get_status t c config later number answer d').0 ≡ some input.status
  unfolding get_status
  shown_after number now later input actor answer d s {m} plain silent e f g d' k =
      let new : Shipment = with_status input.status now s in
      let self : change_shipment s.id (with_status input.status now) s ≡ new =
        rw ((==_iff s.id s.id).1 refl) refl in
      let number_found : find (has_number number) d'.shipments ≡ some new = rw (k.0) (
        find_shipment_changed (has_number number) s.id (with_status input.status now) (λ x. refl)
          d.shipments e
        ∙ ap some self) in
      let id_found : find (has_id s.id) d'.shipments ≡ some new = rw (k.0) (
        find_shipment_changed (has_id s.id) s.id (with_status input.status now) (λ x. refl)
          d.shipments f
        ∙ ap some self) in
      let no_entry : cache_get later s.internal_tracking_number d' ≡ none =
        rw (k.2) (dropped later s.internal_tracking_number d.cache) in
      rw (found_by_number number d' plain number_found) (
        rw no_entry (
          shown_uncached later answer d' new {m = m} silent id_found (rw (k.1) g) (
            rw (k.3)
              (appended s.id d.events (override_event now input s) ((==_iff s.id s.id).1 refl)))))

  overridden_result :
      (now : ℕ) (input : StatusOverride) (actor : ℕ) (d : TrackingDb) (s : Shipment)
      {d' : TrackingDb}
      → override_found c now input actor d (some s) ≡ (ok tt, d')
      → ask_if_delivered c now input.status s.id (overridden c now input actor s d) ≡ d'
  overridden_result now input actor d s e =
      elim (Bool-cases (any (λ x. same_status x.code input.status) d.statuses)) [
        | inl h ↦ ap (λ x. x.1) (rw h at e)
        | inr h ↦ absurd (false≢true (ap (λ x. is_done x.0) (rw h at e)))
      ]

  -- A correction is shown at once: where a number is looked up as it stands, its shipment is the one
  -- of its id and has a number at its current carrier, and the carrier fails or reports no event, a
  -- question after an override that succeeds is answered with the status that staff have set,
  -- whatever the cache held.
  pub override_tracking_status-shown :
      (number : String) (now later : ℕ) (input : StatusOverride) (actor : ℕ)
      (answer : Option (List NormalizedTrackingEvent)) (d : TrackingDb) (s : Shipment)
      {m : ExternalTrackingNumber} {d' : TrackingDb}
      → IsPlain t number
      → IsSilent answer
      → find (has_number number) d.shipments ≡ some s
      → find (has_id s.id) d.shipments ≡ some s
      → find (is_current s) d.mappings ≡ some m
      → override_tracking_status c now number input actor d ≡ (ok tt, d')
      → shown_status (get_status t c config later number answer d').0 ≡ some input.status
  unfolding override_tracking_status
  override_tracking_status-shown number now later input actor answer d s {m} plain silent e f g q =
      let done = overridden_result now input actor d s (rw e at q) in
      rw⁻¹ done (
        shown_after number now later input actor answer d s {m = m} plain silent e f g _
          (asked_keeps now input.status s.id (overridden c now input actor s d)))
