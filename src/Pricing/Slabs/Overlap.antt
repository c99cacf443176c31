-- ===== src/Pricing/Slabs/Overlap.antt =====
-- What `findOverlappingSlabs` decides: it looks at adjacent pairs of the sorted ranges only, and
-- that is enough for all pairs.
use nation_wide.Common.{
  ℕ, ◌≤◌, ◌<◌, ◌≡◌, refl, ◌⊎◌, inl, inr, ◌↔◌, none, List, [], ◌∷◌, arith, leb, All, AllPairs,
  StartsAbove, All-sort_by, AllPairs-sort_by, sort_by-sorted, sort_by, Bool-cases,
}
use nation_wide.Pricing.Slabs.Defs.{WeightSlabRange, first_overlap, find_overlapping_slabs}

abbrev pub Apart : WeightSlabRange → WeightSlabRange → Type 0
Apart s t = (s.weight_to < t.weight_from) ⊎ (t.weight_to < s.weight_from)

abbrev pub IsRange : WeightSlabRange → Type 0
IsRange s = s.weight_from ≤ s.weight_to

-- Each range lies apart from all later ones.
abbrev pub Disjoint : List WeightSlabRange → Type 0
Disjoint = AllPairs Apart

abbrev from : WeightSlabRange → ℕ
from s = s.weight_from

pub Apart-sym : (s t : WeightSlabRange) → Apart s t → Apart t s
Apart-sym s t (inl h) = inr h
Apart-sym s t (inr h) = inl h

-- Past a range that ends below `t`, all ranges that start at `t` or later lie apart from it.
All-Apart :
    (s t : WeightSlabRange) (ts : List WeightSlabRange)
    → s.weight_to < t.weight_from
    → All (StartsAbove from t) ts
    → All (Apart s) ts
All-Apart s t [] h k = tt
All-Apart s t (u ∷ us) h k = (inl (omega arith), All-Apart s t us h k.1)

first_overlap-Disjoint :
    (ss : List WeightSlabRange)
    → AllPairs (StartsAbove from) ss
    → All IsRange ss
    → (first_overlap ss ≡ none) ↔ Disjoint ss
unfolding first_overlap
first_overlap-Disjoint [] h r = (λ _. tt, λ _. refl)
first_overlap-Disjoint (s ∷ []) h r = (λ _. (tt, tt), λ _. refl)
first_overlap-Disjoint (s ∷ t ∷ rest) h r =
    let ih = first_overlap-Disjoint (t ∷ rest) h.1 r.1 in
    elim (Bool-cases (leb t.weight_from s.weight_to)) [
      | inl e ↦
          let touch : t.weight_from ≤ s.weight_to = ground arith in
          let order : s.weight_from ≤ t.weight_from = h.0.0 in
          let range : t.weight_from ≤ t.weight_to = r.1.0 in
          rw e (λ bad. cc, λ d. absurd (omega (arith, d.0.0)))
      | inr e ↦
          let gap : s.weight_to < t.weight_from = ground arith in
          rw e (λ f. ((inl gap, All-Apart s t rest gap h.1.0), ih.0 f), λ d. ih.1 d.1)
    ]

-- For ranges that do not run backwards, in any order, no overlap is found exactly when each two
-- of them lie apart, sharing no weight, not even an end.
pub find_overlapping_slabs_iff :
    (ss : List WeightSlabRange) → All IsRange ss → (find_overlapping_slabs ss ≡ none) ↔ Disjoint ss
unfolding find_overlapping_slabs
find_overlapping_slabs_iff ss r =
    let sorted = sort_by from ss in
    let found =
      first_overlap-Disjoint sorted (sort_by-sorted from ss) ((All-sort_by from IsRange ss).1 r) in
    let same = AllPairs-sort_by from Apart Apart-sym ss in
    (λ h. same.0 (found.0 h), λ d. found.1 (same.1 d))
