-- ===== src/Common/Lists.antt =====
-- Lists measured by native numbers, and predicates over their elements.
use Prim.Native.Nat.{ℕ, suc, ◌+◌}
use mathlib.Core.Path.{◌≡◌, sym, subst}
use mathlib.Core.Logic.{inl, inr}
use mathlib.Core.Bool.{Bool, true, false}
use mathlib.Core.Option.{Option, none, some, some-injective}
use mathlib.Core.List.{List, [], ◌∷◌, ◌++◌}
use native.Mathlib.Omega.{arith}
use nation_wide.Common.Tests.{if◌then◌else◌, Bool-cases}

module _ {ℓ} {A : Type ℓ} where
  abbrev pub length : List A → ℕ
  length [] = 0
  length (x ∷ xs) = suc (length xs)

  -- `Array.prototype.find`: the first element that passes the test.
  abbrev pub find : (A → Bool) → List A → Option A
  find p [] = none
  find p (x ∷ xs) = if p x then some x else find p xs

  -- `Array.prototype.some`.
  abbrev pub any : (A → Bool) → List A → Bool
  any p [] = false
  any p (x ∷ xs) = if p x then true else any p xs

  abbrev pub filter_by : (A → Bool) → List A → List A
  filter_by p [] = []
  filter_by p (x ∷ xs) = let rest = filter_by p xs in if p x then x ∷ rest else rest

  abbrev pub All {κ} : (A → Type κ) → List A → Type κ
  All P [] = Unit
  All P (x ∷ xs) = P x × All P xs

  -- Membership that can be taken apart: a position of the element.
  pub data In (a : A) : List A → Type ℓ where
    here : {x : A} {xs : List A} → a ≡ x → In a (x ∷ xs)
    there : {x : A} {xs : List A} → In a xs → In a (x ∷ xs)

  pub length-append : (xs ys : List A) → length (xs ++ ys) ≡ length xs + length ys
  length-append [] ys = omega arith
  length-append (x ∷ xs) ys = omega (arith, length-append xs ys)

module _ {ℓ} {A : Type ℓ} where
  pub All-In {κ} : (P : A → Type κ) (a : A) (xs : List A) → All P xs → In a xs → P a
  All-In P a [] h m = elim m [ ]
  All-In P a (x ∷ xs) h (here e) = rw e h.0
  All-In P a (x ∷ xs) h (there m) = All-In P a xs h.1 m

  pub In-filter_by :
      (p : A → Bool) (a : A) (xs : List A) → In a xs → p a ≡ true → In a (filter_by p xs)
  In-filter_by p a [] m h = elim m [ ]
  In-filter_by p a (x ∷ xs) (here e) h = let hx = rw e at h in rw hx (here e)
  In-filter_by p a (x ∷ xs) (there m) h = elim (Bool-cases (p x)) [
    | inl e ↦ rw e (there (In-filter_by p a xs m h))
    | inr e ↦ rw e (In-filter_by p a xs m h)
  ]

  pub filter_by-In :
      (p : A → Bool) (a : A) (xs : List A) → In a (filter_by p xs) → In a xs × (p a ≡ true)
  filter_by-In p a [] m = elim m [ ]
  filter_by-In p a (x ∷ xs) m = elim (Bool-cases (p x)) [
    | inl e ↦ kept e (rw e at m) (filter_by-In p a xs)
    | inr e ↦ let later = filter_by-In p a xs (rw e at m) in (there later.0, later.1)
  ]
    where
      kept :
          p x ≡ true
          → In a (x ∷ filter_by p xs)
          → (In a (filter_by p xs) → In a xs × (p a ≡ true))
          → In a (x ∷ xs) × (p a ≡ true)
      kept e (here h) ih = (here h, rw h e)
      kept e (there h) ih = let later = ih h in (there later.0, later.1)

module _ {ℓ} {A : Type ℓ} where
  pub All-imp {κ μ} :
      {P : A → Type κ} {Q : A → Type μ} (xs : List A) → ((x : A) → P x → Q x) → All P xs → All Q xs
  All-imp [] f h = tt
  All-imp (x ∷ xs) f h = (f x h.0, All-imp xs f h.1)

  -- Each element of a list is in it.
  pub All-self : (xs : List A) → All (λ x. In x xs) xs
  All-self [] = tt
  All-self (x ∷ xs) = (here (λ i. x), All-imp xs (λ y m. there m) (All-self xs))

  pub All-zip {κ μ} :
      (P : A → Type κ) (Q : A → Type μ) (xs : List A)
      → All P xs
      → All Q xs
      → All (λ x. P x × Q x) xs
  All-zip P Q [] h k = tt
  All-zip P Q (x ∷ xs) h k = ((h.0, k.0), All-zip P Q xs h.1 k.1)

  pub All-filter_by {κ} :
      (P : A → Type κ) (p : A → Bool) (xs : List A)
      → All P xs
      → All (λ x. P x × (p x ≡ true)) (filter_by p xs)
  All-filter_by P p [] h = tt
  All-filter_by P p (x ∷ xs) h = elim (Bool-cases (p x)) [
    | inl e ↦ rw e ((h.0, e), All-filter_by P p xs h.1)
    | inr e ↦ rw e (All-filter_by P p xs h.1)
  ]

  pub All-find {κ} :
      (P : A → Type κ) (p : A → Bool) (xs : List A) {a : A}
      → All P xs
      → find p xs ≡ some a
      → P a × (p a ≡ true)
  All-find P p [] h e = cc
  All-find P p (x ∷ xs) h e = elim (Bool-cases (p x)) [
    | inl t ↦
        let same = some-injective _ _ (rw t at e) in
        (subst P same h.0, subst (λ y. p y ≡ true) same t)
    | inr f ↦ All-find P p xs h.1 (rw f at e)
  ]

  pub find-In : (p : A → Bool) (xs : List A) {a : A} → find p xs ≡ some a → In a xs
  find-In p [] e = cc
  find-In p (x ∷ xs) e = elim (Bool-cases (p x)) [
    | inl t ↦ here (sym (some-injective _ _ (rw t at e)))
    | inr f ↦ there (find-In p xs (rw f at e))
  ]
