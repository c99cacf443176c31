-- ===== src/Common/Any.antt =====
-- `Array.prototype.some` holds exactly when an element passes.
use mathlib.Core.Bool.{Bool, true, false≢true, ◌&&◌}
use mathlib.Core.List.{List, [], ◌∷◌, map}
use mathlib.Core.Logic.{◌↔◌, inl, inr}
use mathlib.Core.Path.{◌≡◌, refl}
use native.Mathlib.Omega.{arith}
use nation_wide.Common.Lists.{any, In, here, there, filter_by}
use nation_wide.Common.Tests.{Bool-cases}

module _ {A : Type 0} (p : A → Bool) where
  any-In : (xs : List A) (x : A) → In x xs → p x ≡ true → any p xs ≡ true
  any-In [] x m h = elim m [ ]
  any-In (y ∷ ys) x (here e) h = rw (← e) (rw h refl)
  any-In (y ∷ ys) x (there m) h = let ih = any-In ys x m h in ground arith

  In-any : (xs : List A) → any p xs ≡ true → (x : A) × In x xs × (p x ≡ true)
  In-any [] h = absurd (false≢true h)
  In-any (y ∷ ys) h = elim (Bool-cases (p y)) [
    | inl e ↦ (y, here refl, e)
    | inr e ↦ let later = In-any ys (rw e at h) in (later.0, there later.1, later.2)
  ]

  pub any_iff : (xs : List A) → (any p xs ≡ true) ↔ ((x : A) × In x xs × (p x ≡ true))
  any_iff xs = (In-any xs, λ h. any-In xs h.0 h.1 h.2)

  pub any-map-filter_by :
      {C : Type 0} (f : A → C) (q : C → Bool) (xs : List A)
      → any q (map f (filter_by p xs)) ≡ any (λ x. p x && q (f x)) xs
  any-map-filter_by f q [] = refl
  any-map-filter_by f q (x ∷ xs) =
      let ih = any-map-filter_by f q xs in
      elim (Bool-cases (p x)) [ inl e ↦ rw e (rw ih refl) | inr e ↦ rw e ih ]
