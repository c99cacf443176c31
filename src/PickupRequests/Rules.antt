-- ===== src/PickupRequests/Rules.antt =====
-- How the reads and the writes of the requests evolve their table.
use mathlib.Core.Option.{some-injective}
use nation_wide.Common.{
  ℕ, ◌≡◌, refl, sym, subst, ◌∙◌, inl, inr, Bool, true, false, Option, none, some, arith,
  if◌then◌else◌, Bool-cases,
}
use nation_wide.Store.{
  World, Table, put, claim_row, M, ok, err, Error, not_found, bad_request, not_a_drop_off, or_raise,
  PickupRequest, Assertion, Post, Triple, Keeps, keeps-Post, bind, Quote,
}
use nation_wide.PickupRequests.Access.{
  is_id, find_one, find_one_for_partner, may_work, claim_request, update_request, update_quote,
}
use nation_wide.PickupRequests.Steps.{RowStep, Evolves, put-Evolves}

-- The row that a call has read, in a table that has come from `t`.
abbrev pub Read : Table PickupRequest → ℕ → PickupRequest → Assertion
Read t id r t' = Evolves t t' × (t' id ≡ some r)

-- A call that takes the requests from `t` on, whether it succeeds or fails.
abbrev pub Evolving : {A : Type 0} → Table PickupRequest → M A → Type 0
Evolving t m = Triple (Evolves t) (Evolves t) m (λ _. Evolves t)

-- What holds of a row that was read holds of the row that is there.
pub row_fact :
    (P : PickupRequest → Type 0) (u : Table PickupRequest) (id : ℕ) (r a : PickupRequest)
    → u id ≡ some r
    → u id ≡ some a
    → P r
    → P a
row_fact P u id r a e k h = subst P (some-injective _ _ (sym e ∙ k)) h

pub find_one-Keeps : (id : ℕ) → Keeps (find_one id)
unfolding find_one
find_one-Keeps id w = ground arith

pub find_one_for_partner-Keeps :
    (id partner : ℕ) (as_admin : Bool) → Keeps (find_one_for_partner id partner as_admin)
unfolding find_one_for_partner find_one may_work
find_one_for_partner-Keeps id partner as_admin w = ground arith

pub update_quote-Keeps : (id : ℕ) (change : Quote → Quote) → Keeps (update_quote id change)
update_quote-Keeps id change w = ground arith

module _ (t : Table PickupRequest) (id : ℕ) where
  pub find_one-Triple : Triple (Evolves t) (Evolves t) (find_one id) (Read t id)
  unfolding find_one
  find_one-Triple w p = found (w.requests id) refl
    where
      found :
          (o : Option PickupRequest)
          → w.requests id ≡ o
          → Post (Evolves t) (Read t id) (or_raise o not_found w)
      found none e = p
      found (some r) e = (p, e)

  pub Keeps-Evolving : {A : Type 0} (m : M A) → Keeps m → Evolving t m
  Keeps-Evolving m k w p = keeps-Post (Evolves t) (Evolves t) w.requests (m w) (λ _ h. h) (k w) p

  allowed :
      (b : Bool) (e : Error) (r : PickupRequest) (w : World)
      → Read t id r w.requests
      → Post (Evolves t) (Read t id) (if b then (ok r, w) else (err e, w))
  allowed true e r w p = p
  allowed false e r w p = p.0

  may_work-Triple :
      (partner : ℕ) (as_admin : Bool) (r : PickupRequest)
      → Triple (Read t id r) (Evolves t) (may_work partner as_admin r) (Read t id)
  unfolding may_work
  may_work-Triple partner true r w p =
      allowed r.logistics.drop_at_warehouse (bad_request not_a_drop_off) r w p
  may_work-Triple partner false r w p =
      allowed (is_id r.assigned_partner_id partner) not_found r w p

  pub find_one_for_partner-Triple :
      (partner : ℕ) (as_admin : Bool)
      → Triple (Evolves t) (Evolves t) (find_one_for_partner id partner as_admin) (Read t id)
  unfolding find_one_for_partner
  find_one_for_partner-Triple partner as_admin =
      bind (Evolves t) (Evolves t) (Read t id) (Read t id) (find_one id) (may_work partner as_admin)
        find_one-Triple (may_work-Triple partner as_admin)

  pub update_request-Triple :
      (P : Assertion) (change : PickupRequest → PickupRequest)
      → ((t' : Table PickupRequest) → P t' → Evolves t t')
      → ((t' : Table PickupRequest) (r : PickupRequest)
          → P t'
          → t' id ≡ some r
          → RowStep r (change r))
      → Triple P (Evolves t) (update_request id change) (λ _. Evolves t)
  update_request-Triple P change h s w p = found (w.requests id) refl
    where
      found :
          (o : Option PickupRequest)
          → w.requests id ≡ o
          → Post {A = Unit {0}}
              (Evolves t)
              (λ _. Evolves t)
              (elim o [
                | none ↦ (err not_found, w)
                | some r ↦ (ok tt, record w { requests = put w.requests id (change r) })
              ])
      found none e = h w.requests p
      found (some r) e =
          put-Evolves t w.requests id r (change r) (h w.requests p) e (s w.requests r p e)

  -- After a conditional write the row is a changed one.
  abbrev pub Changed : (PickupRequest → PickupRequest) → Assertion
  Changed change t' =
      Evolves t t' × ((r : PickupRequest) → t' id ≡ some r → (o : PickupRequest) × (r ≡ change o))

  changed_row : (u : Table PickupRequest) (a r : PickupRequest) → put u id a id ≡ some r → r ≡ a
  changed_row u a r e = ground arith

  pub claim_request-Triple :
      (P : Assertion) (test : PickupRequest → Bool) (change : PickupRequest → PickupRequest)
      (e : Error)
      → ((t' : Table PickupRequest) → P t' → Evolves t t')
      → ((t' : Table PickupRequest) (r : PickupRequest)
          → P t'
          → t' id ≡ some r
          → test r ≡ true
          → RowStep r (change r))
      → Triple P (Evolves t) (claim_request id test change e) (λ _. Changed change)
  unfolding claim_request
  claim_request-Triple P test change e h s w p = found (w.requests id) refl
    where
      found :
          (o : Option PickupRequest)
          → w.requests id ≡ o
          → Post {A = Unit {0}}
              (Evolves t)
              (λ _. Changed change)
              (elim (claim_row test change w.requests id o) [
                | none ↦ (err e, w)
                | some u ↦ (ok tt, record w { requests = u })
              ])
      found none k = h w.requests p
      found (some r) k = elim (Bool-cases (test r)) [
        | inl y ↦ rw y (
          put-Evolves t w.requests id r (change r) (h w.requests p) k (s w.requests r p k y),
          λ a m. (r, changed_row w.requests (change r) a m),
        )
        | inr n ↦ rw n (h w.requests p)
      ]
