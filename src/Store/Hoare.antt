-- ===== src/Store/Hoare.antt =====
-- Rules for the calls that read and write the pickup requests: an assertion is over their table.
use nation_wide.Common.{◌≡◌, refl, sym, subst, Bool, true, false}
use nation_wide.Store.Rows.{PickupRequest}
use nation_wide.Store.State.{World, Table}
use nation_wide.Store.Monad.{
  M, Result, ok, err, Error, bound, ◌>>=◌, ◌>>◌, raise_if, transaction, committed,
}

abbrev pub Assertion : Type 1
Assertion = Table PickupRequest → Type 0

-- What holds after a call: `Q` of its result, or `E` where it fails.
abbrev pub Post : {A : Type 0} → Assertion → (A → Assertion) → Result A × World → Type 0
Post E Q (ok a, w) = Q a w.requests
Post E Q (err e, w) = E w.requests

abbrev pub Triple : {A : Type 0} → Assertion → Assertion → M A → (A → Assertion) → Type 0
Triple P E m Q = (w : World) → P w.requests → Post E Q (m w)

abbrev pub Keeps : {A : Type 0} → M A → Type 0
Keeps m = (w : World) → (m w).1.requests ≡ w.requests

module _ (E : Assertion) where
  bound-Post :
      {A B : Type 0} (Q : A → Assertion) (R : B → Assertion) (f : A → M B)
      → ((a : A) → Triple (Q a) E (f a) R)
      → (res : Result A × World) → Post E Q res
      → Post E R (bound f res)
  bound-Post Q R f k (ok a, w) h = k a w h
  bound-Post Q R f k (err e, w) h = h

  pub bind :
      {A B : Type 0} (P : Assertion) (Q : A → Assertion) (R : B → Assertion) (m : M A) (f : A → M B)
      → Triple P E m Q
      → ((a : A) → Triple (Q a) E (f a) R)
      → Triple P E (m >>= f) R
  bind P Q R m f h k w p = bound-Post Q R f k (m w) (h w p)

  pub keeps-Post :
      {A : Type 0} (P : Assertion) (t : Table PickupRequest) (res : Result A × World)
      → ((t : Table PickupRequest) → P t → E t)
      → res.1.requests ≡ t
      → P t
      → Post E (λ _. P) res
  keeps-Post P t (ok a, w) h e p = subst P (sym e) p
  keeps-Post P t (err x, w) h e p = h w.requests (subst P (sym e) p)

  -- A call that leaves the requests alone keeps every assertion.
  pub keep :
      {A B : Type 0} (P : Assertion) (R : B → Assertion) (m : M A) (f : A → M B)
      → ((t : Table PickupRequest) → P t → E t)
      → Keeps m
      → ((a : A) → Triple P E (f a) R)
      → Triple P E (m >>= f) R
  keep P R m f h k = bind P (λ _. P) R m f (λ w p. keeps-Post P w.requests (m w) h (k w) p)

  reads-Post :
      {A : Type 0} (P : Assertion) (F : A → Assertion) (t : Table PickupRequest)
      (res : Result A × World)
      → ((t : Table PickupRequest) → P t → E t)
      → res.1.requests ≡ t
      → ((a : A) → res.0 ≡ ok a → F a t)
      → P t
      → Post E (λ a u. P u × F a u) res
  reads-Post P F t (ok a, w) h e f p = subst (λ u. P u × F a u) (sym e) (p, f a refl)
  reads-Post P F t (err x, w) h e f p = h w.requests (subst P (sym e) p)

  -- A call that only reads adds what its success tells.
  pub reads :
      {A : Type 0} (P : Assertion) (F : A → Assertion) (m : M A)
      → ((t : Table PickupRequest) → P t → E t)
      → Keeps m
      → ((w : World) (a : A) → (m w).0 ≡ ok a → F a w.requests)
      → Triple P E m (λ a u. P u × F a u)
  reads P F m h k f w p = reads-Post P F w.requests (m w) h (k w) (f w) p

  -- The code after `if (test) throw …` runs where the test is false.
  pub guard :
      {B : Type 0} (P : Assertion) (R : B → Assertion) (b : Bool) (e : Error) (k : M B)
      → ((t : Table PickupRequest) → P t → E t)
      → (b ≡ false → Triple P E k R)
      → Triple P E (raise_if b e >> k) R
  guard P R true e k h next w p = h w.requests p
  guard P R false e k h next w p = next refl w p

  committed-Post :
      {A : Type 0} (Q : A → Assertion) (w : World) (res : Result A × World)
      → E w.requests
      → Post E Q res
      → Post E Q (committed w res)
  committed-Post Q w (ok a, w') e h = h
  committed-Post Q w (err x, w') e h = e

  pub in_transaction :
      {A : Type 0} (P : Assertion) (Q : A → Assertion) (m : M A)
      → ((t : Table PickupRequest) → P t → E t)
      → Triple P E m Q
      → Triple P E (transaction m) Q
  in_transaction P Q m h k w p = committed-Post Q w (m w) (h w.requests p) (k w p)
