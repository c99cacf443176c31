-- ===== src/PickupRequests/Final.antt =====
-- What no step undoes.
use nation_wide.Common.{ℕ, ◌≡◌, refl, true, Option, none, some, arith}
use nation_wide.Store.{PickupRequest, Table}
use nation_wide.PickupRequests.Collection.{is_settled}
use nation_wide.PickupRequests.Steps.{
  RowStep, assigns, arrives, photographs, verifies, collects, defers, completes, links, rejects,
  cancels, orphans, Steps, stays, goes, Evolved, Evolves,
}
use nation_wide.PickupRequests.Valid.{IsValid, RowStep-IsValid, IsFresh-IsValid, is_completed}

Steps-IsValid : (r r' : PickupRequest) → IsValid r → Steps r r' → IsValid r'
Steps-IsValid r r' v stays = v
Steps-IsValid r r' v (goes {s = s} k step) = RowStep-IsValid s r' (Steps-IsValid r s v k) step

abbrev pub OptionValid : Option PickupRequest → Type 0
OptionValid none = Unit
OptionValid (some r) = IsValid r

Evolved-IsValid : (a b : Option PickupRequest) → OptionValid a → Evolved a b → OptionValid b
Evolved-IsValid none none v h = tt
Evolved-IsValid none (some r) v (f, fresh, k) = Steps-IsValid f r (IsFresh-IsValid f fresh) k
Evolved-IsValid (some r) none v h = absurd h
Evolved-IsValid (some r) (some r') v h = Steps-IsValid r r' v h

abbrev pub TableValid : Table PickupRequest → Type 0
TableValid t = (j : ℕ) → OptionValid (t j)

pub Evolves-TableValid : (t u : Table PickupRequest) → TableValid t → Evolves t u → TableValid u
Evolves-TableValid t u v h j = Evolved-IsValid (t j) (u j) (v j) (h j)

-- The columns of the payment, which are written once.
abbrev pub SamePayment : PickupRequest → PickupRequest → Type 0
SamePayment r s =
    (s.payment_collected_at ≡ r.payment_collected_at)
    × (s.payment_deferred_at ≡ r.payment_deferred_at)
    × (s.collected_amount ≡ r.collected_amount)
    × (s.payment_method ≡ r.payment_method)
    × (s.due_approved_by ≡ r.due_approved_by)

RowStep-SamePayment :
    (r s t : PickupRequest) → is_settled r ≡ true → SamePayment r s → RowStep s t → SamePayment r t
RowStep-SamePayment r s t h p (assigns _ now o e) = rw e (ground arith)
RowStep-SamePayment r s t h p (arrives now o a e) = rw e (ground arith)
RowStep-SamePayment r s t h p (photographs key e) = rw e (ground arith)
RowStep-SamePayment r s t h p (verifies now b price parcel o a ph e) = rw e (ground arith)
RowStep-SamePayment r s t h p (collects now dto approver ver uns e) = rw e (ground arith)
RowStep-SamePayment r s t h p (defers now approver memo ver uns e) = rw e (ground arith)
RowStep-SamePayment r s t h p (completes o ver k e) = rw e (ground arith)
RowStep-SamePayment r s t h p (links order list c e) = rw e (ground arith)
RowStep-SamePayment r s t h p (rejects reason o e) = rw e (ground arith)
RowStep-SamePayment r s t h p (cancels order reason e) = rw e (ground arith)
RowStep-SamePayment r s t h p (orphans q e) = rw e (ground arith)

-- Once a payment is collected or deferred, nothing that happens later alters its record.
pub Steps-SamePayment : (r s : PickupRequest) → is_settled r ≡ true → Steps r s → SamePayment r s
Steps-SamePayment r s h stays = (refl, refl, refl, refl, refl)
Steps-SamePayment r s h (goes {s = m} k step) =
    RowStep-SamePayment r m s h (Steps-SamePayment r m h k) step

-- A completed request with the price that it was completed at.
abbrev pub IsClosedAs : PickupRequest → PickupRequest → Type 0
IsClosedAs r s =
    (is_completed s ≡ true)
    × (s.verified_price ≡ r.verified_price)
    × (s.assigned_partner_id ≡ r.assigned_partner_id)
    × SamePayment r s

RowStep-IsClosedAs :
    (r s t : PickupRequest) → is_settled r ≡ true → IsClosedAs r s → RowStep s t → IsClosedAs r t
RowStep-IsClosedAs r s t h p (assigns _ now o e) = rw e (ground arith)
RowStep-IsClosedAs r s t h p (arrives now o a e) = rw e (ground arith)
RowStep-IsClosedAs r s t h p (photographs key e) = rw e (ground arith)
RowStep-IsClosedAs r s t h p (verifies now b price parcel o a ph e) = rw e (ground arith)
RowStep-IsClosedAs r s t h p (collects now dto approver ver uns e) = rw e (ground arith)
RowStep-IsClosedAs r s t h p (defers now approver memo ver uns e) = rw e (ground arith)
RowStep-IsClosedAs r s t h p (completes o ver k e) = rw e (ground arith)
RowStep-IsClosedAs r s t h p (links order list c e) = rw e (ground arith)
RowStep-IsClosedAs r s t h p (rejects reason o e) = rw e (ground arith)
RowStep-IsClosedAs r s t h p (cancels order reason e) = rw e (ground arith)
RowStep-IsClosedAs r s t h p (orphans q e) = rw e (ground arith)

-- A completed request stays completed, at its price, with its partner and its payment.
pub Steps-IsClosedAs :
    (r s : PickupRequest) → IsValid r → is_completed r ≡ true → Steps r s → IsClosedAs r s
Steps-IsClosedAs r s v c stays = (c, refl, refl, (refl, refl, refl, refl, refl))
Steps-IsClosedAs r s v c (goes {s = m} k step) =
    RowStep-IsClosedAs r m s (ground arith) (Steps-IsClosedAs r m v c k) step
