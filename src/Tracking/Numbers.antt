-- ===== src/Tracking/Numbers.antt =====
-- A carrier's number names one shipment.
use mathlib.Core.Bool.{false≢true}
use text.Mathlib.Text.{◌==◌ as str_eq}
use text.Mathlib.TextPositions.{compare_refl}
use nation_wide.Common.{
  ℕ, ◌≡◌, ◌⊎◌, refl, sym, ap, subst, Bool, true, false, not, ◌&&◌, inl, inr, Bool-cases, Option,
  none, some, List, [], ◌∷◌, ◌++◌, ◌∙◌, String, In, here, there, any, map, find, ◌==◌, arith,
}
use nation_wide.Accounts.Rows.{Crypto}
use nation_wide.Tracking.Rows.{
  Shipment, ExternalTrackingNumber, TrackingDb, has_number, Texts, TrackingConfig,
  NormalizedTrackingEvent,
}
use nation_wide.Tracking.Reviews.{submit, set_approved, request_feedback}
use nation_wide.Tracking.Shipments.{
  is_conflicting, is_mapping, renumber, upsert_mapping, map_checked, map_found,
  map_external_tracking_number, override_tracking_status,
}
use nation_wide.Tracking.Events.{persist_new_events}
use nation_wide.Tracking.Status.{get_status}
use nation_wide.Tracking.Calls.{Call, ask, map_number, correct, review, approve, call, run}

-- No carrier's number stands for two shipments.
abbrev AreUnambiguous : List ExternalTrackingNumber → Type 0
AreUnambiguous ms =
    (m n : ExternalTrackingNumber)
    → In m ms
    → In n ms
    → m.provider_id ≡ n.provider_id
    → m.external_tracking_number ≡ n.external_tracking_number
    → m.shipment_id ≡ n.shipment_id

abbrev pub IsUnambiguous : TrackingDb → Type 0
IsUnambiguous d = AreUnambiguous d.mappings

any-none :
    {A : Type 0} (p : A → Bool) (xs : List A) (x : A) → any p xs ≡ false → In x xs → p x ≡ false
any-none p [] x h m = elim m [ ]
any-none p (y ∷ ys) x h (here e) = elim (Bool-cases (p y)) [
  | inl t ↦ absurd (false≢true (sym (rw t at h)))
  | inr t ↦ rw e t
]
any-none p (y ∷ ys) x h (there m) = elim (Bool-cases (p y)) [
  | inl t ↦ absurd (false≢true (sym (rw t at h)))
  | inr t ↦ any-none p ys x (rw t at h) m
]

-- What an upsert leaves is an old row or the new number.
module _ (shipment provider : ℕ) (number : String) where
  abbrev IsMapped : ExternalTrackingNumber → Type 0
  IsMapped m =
      (m.shipment_id ≡ shipment)
      × (m.provider_id ≡ provider)
      × (m.external_tracking_number ≡ number)

  columns :
      {m : ExternalTrackingNumber} (x : ExternalTrackingNumber)
      → m ≡ record x { external_tracking_number = number }
      → (x.shipment_id ≡ shipment) × (x.provider_id ≡ provider)
      → IsMapped m
  columns x e h = (
    ap (λ y. y.shipment_id) e ∙ h.0,
    ap (λ y. y.provider_id) e ∙ h.1,
    ap (λ y. y.external_tracking_number) e,
  )

  In-renumbered :
      (ms : List ExternalTrackingNumber) (m : ExternalTrackingNumber)
      → In m (map (renumber shipment provider number) ms)
      → In m ms ⊎ IsMapped m
  In-renumbered [] m i = elim i [ ]
  In-renumbered (x ∷ xs) m (here e) = elim (Bool-cases (is_mapping shipment provider x)) [
    | inl t ↦ inr (columns x (rw t at e) (ground arith))
    | inr t ↦ inl (here (rw t at e))
  ]
  In-renumbered (x ∷ xs) m (there i) = elim (In-renumbered xs m i) [
    | inl j ↦ inl (there j)
    | inr h ↦ inr h
  ]

  In-upsert_mapping :
      (ms : List ExternalTrackingNumber) (m : ExternalTrackingNumber)
      → In m (upsert_mapping shipment provider number ms)
      → In m ms ⊎ IsMapped m
  In-upsert_mapping ms m i = elim (Bool-cases (any (is_mapping shipment provider) ms)) [
    | inl t ↦ In-renumbered ms m (rw t at i)
    | inr t ↦ appended ms (rw t at i)
  ]
    where
      appended :
          (ms : List ExternalTrackingNumber)
          → In m (
              ms
              ++ (record {
                shipment_id = shipment;
                provider_id = provider;
                external_tracking_number = number;
              }
                  ∷ []))
          → In m ms ⊎ IsMapped m
      appended [] (here e) = inr (
        ap (λ x. x.shipment_id) e,
        ap (λ x. x.provider_id) e,
        ap (λ x. x.external_tracking_number) e,
      )
      appended [] (there i) = elim i [ ]
      appended (x ∷ xs) (here e) = inl (here e)
      appended (x ∷ xs) (there i) = elim (appended xs i) [ inl j ↦ inl (there j) | inr h ↦ inr h ]

-- A free number: no other shipment has it at this carrier.
free :
    (shipment provider : ℕ) (number : String) (ms : List ExternalTrackingNumber)
    → any (is_conflicting shipment provider number) ms ≡ false
    → (m : ExternalTrackingNumber) → In m ms
    → m.provider_id ≡ provider
    → m.external_tracking_number ≡ number
    → m.shipment_id ≡ shipment
free shipment provider number ms h m i e f =
    let none = any-none (is_conflicting shipment provider number) ms m h i in
    let same : str_eq m.external_tracking_number number ≡ true =
      rw f (rw (compare_refl number) refl) in
    shipped (rw same at none)
  where
    shipped :
        ((m.provider_id == provider) && true && not (m.shipment_id == shipment)) ≡ false
        → m.shipment_id ≡ shipment
    shipped g = ground arith

module _ (s : Shipment) (provider : ℕ) (number : String) (actor : ℕ) (d : TrackingDb) where
  map_checked-IsUnambiguous :
      IsUnambiguous d → IsUnambiguous (map_checked provider number actor s d).1
  map_checked-IsUnambiguous u =
      elim (Bool-cases (any (is_conflicting s.id provider number) d.mappings)) [
        | inl t ↦ rw t u
        | inr t ↦ rw t (λ m n i j.
            both (free s.id provider number d.mappings t)
              (In-upsert_mapping s.id provider number d.mappings m i)
              (In-upsert_mapping s.id provider number d.mappings n j))
      ]
    where
      both :
          ((m : ExternalTrackingNumber)
            → In m d.mappings
            → m.provider_id ≡ provider
            → m.external_tracking_number ≡ number
            → m.shipment_id ≡ s.id)
          → {m n : ExternalTrackingNumber} → In m d.mappings ⊎ IsMapped s.id provider number m
          → In n d.mappings ⊎ IsMapped s.id provider number n
          → m.provider_id ≡ n.provider_id
          → m.external_tracking_number ≡ n.external_tracking_number
          → m.shipment_id ≡ n.shipment_id
      both f (inl i) (inl j) e g = u _ _ i j e g
      both f {m} (inl i) (inr h) e g = f m i (e ∙ h.1) (g ∙ h.2) ∙ sym h.0
      both f {n} (inr h) (inl j) e g = h.0 ∙ sym (f n j (sym e ∙ h.1) (sym g ∙ h.2))
      both f (inr h) (inr k) e g = h.0 ∙ sym k.0

keeps_mappings :
    (t : Texts) (c : Crypto) (config : TrackingConfig) (now : ℕ) (reference : String)
    (answer : Option (List NormalizedTrackingEvent)) (d : TrackingDb)
    → (get_status t c config now reference answer d).1.mappings ≡ d.mappings
unfolding get_status persist_new_events request_feedback
keeps_mappings t c config now reference answer d = ground arith

module _ (t : Texts) (c : Crypto) (config : TrackingConfig) where
  abbrev Keeps : (k : Call) (d : TrackingDb) → Type 0
  Keeps (map_number internal provider number actor) d = Unit
  Keeps k d = (call t c config k d).mappings ≡ d.mappings

  call-Keeps : (k : Call) (d : TrackingDb) → Keeps k d
  unfolding call override_tracking_status submit set_approved request_feedback
  call-Keeps (ask now reference answer) d = keeps_mappings t c config now reference answer d
  call-Keeps k d = ground arith

  call-IsUnambiguous :
      (k : Call) (d : TrackingDb) → IsUnambiguous d → IsUnambiguous (call t c config k d)
  unfolding call map_external_tracking_number
  call-IsUnambiguous (map_number internal provider number actor) d u =
      found (find (has_number internal) d.shipments)
    where
      found : (o : Option Shipment) → IsUnambiguous (map_found provider number actor d o).1
      found none = u
      found (some s) = elim (Bool-cases (any (λ p. p.id == provider) d.providers)) [
        | inl e ↦ rw e (map_checked-IsUnambiguous s provider number actor d u)
        | inr e ↦ rw e u
      ]
  call-IsUnambiguous (ask now reference answer) d u =
      subst AreUnambiguous (sym (call-Keeps (ask now reference answer) d)) u
  call-IsUnambiguous (correct now internal input actor) d u =
      subst AreUnambiguous (sym (call-Keeps (correct now internal input actor) d)) u
  call-IsUnambiguous (review now token dto) d u =
      subst AreUnambiguous (sym (call-Keeps (review now token dto) d)) u
  call-IsUnambiguous (approve now id approved admin) d u =
      subst AreUnambiguous (sym (call-Keeps (approve now id approved admin) d)) u

  -- Every sequence of calls, accepted or refused, keeps the numbers of the carriers unambiguous: no
  -- number of a carrier stands for two shipments.
  pub run-IsUnambiguous :
      (ks : List Call) (d : TrackingDb) → IsUnambiguous d → IsUnambiguous (run t c config ks d)
  unfolding run
  run-IsUnambiguous [] d u = u
  run-IsUnambiguous (k ∷ ks) d u =
      run-IsUnambiguous ks (call t c config k d) (call-IsUnambiguous k d u)
