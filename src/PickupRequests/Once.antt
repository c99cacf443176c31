-- ===== src/PickupRequests/Once.antt =====
-- However acceptances and the other calls follow one another, a request makes one order.
use nation_wide.Common.{
  ℕ, ◌≤◌, ◌≡◌, ◌⊎◌, refl, sym, subst, inl, inr, Bool, true, false, not, arith, ◌==◌, Bool-cases,
  if◌then◌else◌, List, [], ◌∷◌, ◌+◌, ◌&&◌,
}
use nation_wide.Store.{World, PickupRequest, Checklist}
use mathlib.Core.Bool.{false≢true}
use nation_wide.PickupRequests.Outcome.{accept_checked, accept_parcel}
use nation_wide.PickupRequests.Calls.{Call, accept_call, run_call}
use nation_wide.PickupRequests.Closed.{
  IsClosed, call-IsClosed, accept_checked-Closes, accept_checked-IsClosed, accept_checked-once,
  accept_parcel-checks,
}

-- An acceptance for a row that was read at some earlier moment, or another call of the service,
-- `accept_parcel` among them.
pub data Turn : Type 0 where
  accepts : (now id : ℕ) (list : Checklist) (partner : ℕ) (snapshot : PickupRequest) → Turn
  calls : (c : Call) → Turn

abbrev pub after_turn : Turn → World → World
after_turn (accepts now id list partner r) w = (accept_checked now id list partner r w).1
after_turn (calls c) w = run_call c w

-- Whether the turn asks for the request to be accepted.
abbrev is_acceptance : ℕ → Turn → Bool
is_acceptance j (accepts now id list partner r) = id == j
is_acceptance j (calls (accept_call now id list partner as_admin)) = id == j
is_acceptance j (calls _) = false

-- A new order and its shipment take new ids.
abbrev makes_order : World → World → Bool
makes_order w v = not (v.next_id == w.next_id)

-- How many acceptances of the request, among all turns, make an order.
unfoldable pub orders_made : ℕ → List Turn → World → ℕ
orders_made j [] w = 0
orders_made j (e ∷ es) w =
    let later = orders_made j es (after_turn e w) in
    if is_acceptance j e && makes_order w (after_turn e w) then later + 1 else later

turn-IsClosed : (j : ℕ) (e : Turn) (w : World) → IsClosed j w → IsClosed j (after_turn e w)
turn-IsClosed j (accepts now id list partner r) w h =
    accept_checked-IsClosed now id list partner r j w h
turn-IsClosed j (calls c) w h = call-IsClosed j c w h

-- An acceptance of a request that is closed changes nothing, and any other closes it or changes
-- nothing.
abbrev Once : ℕ → World → World → Type 0
Once j w v = ((IsClosed j w → v ≡ w)) × ((v ≡ w) ⊎ IsClosed j v)

acceptance-Once :
    (j : ℕ) (e : Turn) (w : World) → is_acceptance j e ≡ true → Once j w (after_turn e w)
unfolding run_call
acceptance-Once j (accepts now id list partner r) w h =
    let same : id ≡ j = ground arith in
    subst (λ k. Once k w (accept_checked now id list partner r w).1) same
      (accept_checked-once now id list partner r w, accept_checked-Closes now id list partner r w)
acceptance-Once j (calls (accept_call now id list partner as_admin)) w h =
    let same : id ≡ j = ground arith in
    subst (λ k. Once k w (accept_parcel now id list partner as_admin w).1) same
      (accept_parcel-checks (Once id w) w ((λ _. refl), inl refl) now id list partner as_admin
        (λ r. (
          accept_checked-once now id list partner r w,
          accept_checked-Closes now id list partner r w,
        )))
acceptance-Once j (calls _) w h = absurd (false≢true h)

none_later : (j : ℕ) (es : List Turn) (w : World) → IsClosed j w → orders_made j es w ≡ 0
unfolding orders_made
none_later j [] w h = refl
none_later j (e ∷ es) w h =
    let ih = none_later j es (after_turn e w) (turn-IsClosed j e w h) in
    elim (Bool-cases (is_acceptance j e)) [
      | inl y ↦
          let same = (acceptance-Once j e w y).0 h in
          let no : makes_order w (after_turn e w) ≡ false =
            subst (λ v. makes_order w v ≡ false) (sym same) (ground arith) in
          rw y (rw no ih)
      | inr n ↦ rw n ih
    ]

-- However acceptances, with rows read at any earlier moment, and all other calls of the service
-- follow one another, a request makes at most one order.
pub orders_made_once : (j : ℕ) (es : List Turn) (w : World) → orders_made j es w ≤ 1
unfolding orders_made
orders_made_once j [] w = ground arith
orders_made_once j (e ∷ es) w =
    let ih = orders_made_once j es (after_turn e w) in
    elim (Bool-cases (is_acceptance j e)) [
      | inl y ↦ elim (acceptance-Once j e w y).1 [
        | inl same ↦
            let no : makes_order w (after_turn e w) ≡ false =
              subst (λ v. makes_order w v ≡ false) (sym same) (ground arith) in
            rw y (rw no ih)
        | inr closed ↦
            let zero_later = none_later j es (after_turn e w) closed in rw y (ground arith)
      ]
      | inr n ↦ rw n ih
    ]
