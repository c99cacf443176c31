-- ===== src/Common/Sort.antt =====
-- `Array.prototype.sort` by a numeric key (it is stable), and relations between all pairs of a list.
use nation_wide.Common.Tests.{leb, if◌then◌else◌, Bool-cases}
use nation_wide.Common.Lists.{All, In, here, there, filter_by, All-imp, All-filter_by}
use Prim.Native.Nat.{ℕ, ◌≤◌}
use mathlib.Core.Path.{◌≡◌}
use mathlib.Core.Logic.{◌↔◌, inl, inr}
use mathlib.Core.Bool.{Bool, true}
use mathlib.Core.List.{List, [], ◌∷◌}
use native.Mathlib.Omega.{arith}

-- `R` holds of each element and all later ones.
abbrev pub AllPairs {ℓ κ} : {A : Type ℓ} → (A → A → Type κ) → List A → Type κ
AllPairs R [] = Unit
AllPairs R (x ∷ xs) = All (R x) xs × AllPairs R xs

module _ {ℓ} {A : Type ℓ} (key : A → ℕ) where
  unfoldable pub insert_by : A → List A → List A
  insert_by x [] = x ∷ []
  insert_by x (y ∷ ys) = if leb (key x) (key y) then x ∷ y ∷ ys else y ∷ insert_by x ys

  unfoldable pub sort_by : List A → List A
  unfolding insert_by
  sort_by [] = []
  sort_by (x ∷ xs) = insert_by x (sort_by xs)

  pub All-insert_by {κ} :
      (P : A → Type κ) (x : A) (ys : List A) → All P (insert_by x ys) ↔ (P x × All P ys)
  unfolding insert_by
  All-insert_by P x [] = (λ h. h, λ h. h)
  All-insert_by P x (y ∷ ys) =
      let ih = All-insert_by P x ys in
      elim (Bool-cases (leb (key x) (key y))) [
        | inl e ↦ rw e (λ h. h, λ h. h)
        | inr e ↦ rw e (λ h. ((ih.0 h.1).0, (h.0, (ih.0 h.1).1)), λ h. (h.1.0, ih.1 (h.0, h.1.1)))
      ]

  pub All-sort_by {κ} : (P : A → Type κ) (xs : List A) → All P (sort_by xs) ↔ All P xs
  unfolding sort_by
  All-sort_by P [] = (λ h. h, λ h. h)
  All-sort_by P (x ∷ xs) =
      let ih = All-sort_by P xs in
      let one = All-insert_by P x (sort_by xs) in
      (λ h. ((one.0 h).0, ih.0 (one.0 h).1), λ h. one.1 (h.0, ih.1 h.1))

  pub In-insert_by : (a x : A) (ys : List A) → In a (x ∷ ys) → In a (insert_by x ys)
  unfolding insert_by
  In-insert_by a x [] h = h
  In-insert_by a x (y ∷ ys) h =
      let ih = In-insert_by a x ys in
      elim (Bool-cases (leb (key x) (key y))) [ inl e ↦ rw e h | inr e ↦ rw e (swapped h ih) ]
    where
      swapped :
          In a (x ∷ y ∷ ys) → (In a (x ∷ ys) → In a (insert_by x ys)) → In a (y ∷ insert_by x ys)
      swapped (here e) k = there (k (here e))
      swapped (there (here e)) k = here e
      swapped (there (there m)) k = there (k (there m))

  pub In-sort_by : (a : A) (xs : List A) → In a xs → In a (sort_by xs)
  unfolding sort_by
  In-sort_by a [] h = elim h [ ]
  In-sort_by a (x ∷ xs) (here e) = In-insert_by a x (sort_by xs) (here e)
  In-sort_by a (x ∷ xs) (there m) = In-insert_by a x (sort_by xs) (there (In-sort_by a xs m))

  module _ {κ} (R : A → A → Type κ) (R_sym : (x y : A) → R x y → R y x) where
    AllPairs-insert_by :
        (x : A) (ys : List A) → AllPairs R (insert_by x ys) ↔ (All (R x) ys × AllPairs R ys)
    unfolding insert_by
    AllPairs-insert_by x [] = (λ h. h, λ h. h)
    AllPairs-insert_by x (y ∷ ys) =
        let ih = AllPairs-insert_by x ys in
        let all = All-insert_by (R y) x ys in
        elim (Bool-cases (leb (key x) (key y))) [
          | inl e ↦ rw e (λ h. h, λ h. h)
          | inr e ↦ rw e (
            λ h. ((R_sym y x (all.0 h.0).0, (ih.0 h.1).0), ((all.0 h.0).1, (ih.0 h.1).1)),
            λ h. (all.1 (R_sym x y h.0.0, h.1.0), ih.1 (h.0.1, h.1.1)),
          )
        ]

    -- The order in which elements stand does not matter to a symmetric relation.
    pub AllPairs-sort_by : (xs : List A) → AllPairs R (sort_by xs) ↔ AllPairs R xs
    unfolding sort_by
    AllPairs-sort_by [] = (λ h. h, λ h. h)
    AllPairs-sort_by (x ∷ xs) =
        let ih = AllPairs-sort_by xs in
        let one = AllPairs-insert_by x (sort_by xs) in
        let all = All-sort_by (R x) xs in
        (λ h. (all.0 (one.0 h).0, ih.0 (one.0 h).1), λ h. one.1 (all.1 h.0, ih.1 h.1))

  abbrev pub StartsAbove : A → A → Type 0
  StartsAbove x y = key x ≤ key y

  All-StartsAbove :
      (x y : A) (ys : List A) → key x ≤ key y → All (StartsAbove y) ys → All (StartsAbove x) ys
  All-StartsAbove x y [] h k = tt
  All-StartsAbove x y (z ∷ zs) h k = (omega arith, All-StartsAbove x y zs h k.1)

  insert_by-sorted :
      (x : A) (ys : List A) → AllPairs StartsAbove ys → AllPairs StartsAbove (insert_by x ys)
  unfolding insert_by
  insert_by-sorted x [] h = (tt, tt)
  insert_by-sorted x (y ∷ ys) h = elim (Bool-cases (leb (key x) (key y))) [
    | inl e ↦ let le : key x ≤ key y = ground arith in rw e ((le, All-StartsAbove x y ys le h.0), h)
    | inr e ↦
        let ge : key y ≤ key x = ground arith in
        rw e ((All-insert_by (StartsAbove y) x ys).1 (ge, h.0), insert_by-sorted x ys h.1)
  ]

  pub sort_by-sorted : (xs : List A) → AllPairs StartsAbove (sort_by xs)
  unfolding sort_by
  sort_by-sorted [] = tt
  sort_by-sorted (x ∷ xs) = insert_by-sorted x (sort_by xs) (sort_by-sorted xs)

pub AllPairs-filter_by {ℓ κ μ} :
    {A : Type ℓ} {R : A → A → Type κ} {Q : A → A → Type μ} (p : A → Bool) (xs : List A)
    → ((x y : A) → p x ≡ true → p y ≡ true → R x y → Q x y)
    → AllPairs R xs
    → AllPairs Q (filter_by p xs)
AllPairs-filter_by p [] f h = tt
AllPairs-filter_by p (x ∷ xs) f h = elim (Bool-cases (p x)) [
  | inl e ↦ rw e (
    All-imp (filter_by p xs) (λ y k. f x y e k.1 k.0) (All-filter_by _ p xs h.0),
    AllPairs-filter_by p xs f h.1,
  )
  | inr e ↦ rw e (AllPairs-filter_by p xs f h.1)
]
