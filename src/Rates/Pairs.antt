-- ===== src/Rates/Pairs.antt =====
-- Pairs of rows: what the overlap check says of them, and how they fare when a row is written.
use nation_wide.Common.{
  ◌≡◌, ◌≢◌, refl, sym, subst, inl, inr, Bool, true, false, none, List, [], ◌∷◌, ◌++◌, map, arith,
  ◌==◌, All, AllPairs, All-imp, All-zip, filter_by, Bool-cases, if◌then◌else◌, ◌∙◌,
}
use nation_wide.Pricing.Slabs.{
  WeightSlab, WeightSlabRange, range_of, Apart, Apart-sym, IsRange, Disjoint,
  find_overlapping_slabs_iff,
}
use nation_wide.Rates.Create.{overlap_among}
use nation_wide.Rates.Edit.{put_slab}

-- Two active rows of one card lie apart.
abbrev pub Compatible : WeightSlab → WeightSlab → Type 0
Compatible s t =
    s.is_active ≡ true
    → t.is_active ≡ true
    → s.rate_card_id ≡ t.rate_card_id
    → Apart (range_of s) (range_of t)

abbrev pub DistinctIds : WeightSlab → WeightSlab → Type 0
DistinctIds s t = s.id ≢ t.id

pub Compatible-sym : (s t : WeightSlab) → Compatible s t → Compatible t s
Compatible-sym s t h a b e = Apart-sym _ _ (h b a (sym e))

Disjoint-last :
    (rs : List WeightSlabRange) (r : WeightSlabRange)
    → Disjoint (rs ++ (r ∷ []))
    → All (λ s. Apart s r) rs
Disjoint-last [] r d = tt
Disjoint-last (s ∷ rs) r d = (last rs d.0, Disjoint-last rs r d.1)
  where
    last : (ts : List WeightSlabRange) → All (Apart s) (ts ++ (r ∷ [])) → Apart s r
    last [] h = h.0
    last (t ∷ ts) h = last ts h.1

All-snoc :
    (rs : List WeightSlabRange) (r : WeightSlabRange)
    → All IsRange rs
    → IsRange r
    → All IsRange (rs ++ (r ∷ []))
All-snoc [] r h k = (k, tt)
All-snoc (s ∷ rs) r h k = (h.0, All-snoc rs r h.1 k)

ranges-filter_by :
    (p : WeightSlab → Bool) (ss : List WeightSlab)
    → All (λ s. IsRange (range_of s)) ss
    → All IsRange (map range_of (filter_by p ss))
ranges-filter_by p [] h = tt
ranges-filter_by p (s ∷ ss) h = elim (Bool-cases (p s)) [
  | inl e ↦ rw e (h.0, ranges-filter_by p ss h.1)
  | inr e ↦ rw e (ranges-filter_by p ss h.1)
]

unfilter :
    (p : WeightSlab → Bool) (r : WeightSlabRange) (ss : List WeightSlab)
    → All (λ s. Apart s r) (map range_of (filter_by p ss))
    → All (λ s. p s ≡ true → Apart (range_of s) r) ss
unfilter p r [] h = tt
unfilter p r (s ∷ ss) h = elim (Bool-cases (p s)) [
  | inl e ↦ let kept = rw e at h in (λ _. kept.0, unfilter p r ss kept.1)
  | inr e ↦ let kept = rw e at h in (λ bad. cc, unfilter p r ss kept)
]

-- A candidate that passes the check lies apart from every row that was looked at.
pub overlap_among-none :
    (p : WeightSlab → Bool) (r : WeightSlabRange) (ss : List WeightSlab)
    → All (λ s. IsRange (range_of s)) ss
    → IsRange r
    → overlap_among (filter_by p ss) r ≡ none
    → All (λ s. p s ≡ true → Apart (range_of s) r) ss
unfolding overlap_among
overlap_among-none p r ss h k e =
    let rs = map range_of (filter_by p ss) in
    let all =
      find_overlapping_slabs_iff (rs ++ (r ∷ [])) (All-snoc rs r (ranges-filter_by p ss h) k) in
    unfilter p r ss (Disjoint-last rs r (all.0 e))

module _ (new : WeightSlab) where
  put_slab-absent : (ss : List WeightSlab) → All (λ s. new.id ≢ s.id) ss → put_slab new ss ≡ ss
  unfolding put_slab
  put_slab-absent [] h = refl
  put_slab-absent (s ∷ ss) h =
      let other : (s.id == new.id) ≡ false = ground (arith, h.0) in
      rw other (rw (put_slab-absent ss h.1))

  pub All-put_slab {κ} :
      (P : WeightSlab → Type κ) (ss : List WeightSlab) → All P ss → P new → All P (put_slab new ss)
  unfolding put_slab
  All-put_slab P [] h k = tt
  All-put_slab P (s ∷ ss) h k = elim (Bool-cases (s.id == new.id)) [
    | inl e ↦ (subst (λ b. P (if b then new else s)) (sym e) k, All-put_slab P ss h.1 k)
    | inr e ↦ (subst (λ b. P (if b then new else s)) (sym e) h.0, All-put_slab P ss h.1 k)
  ]

  pub put_slab-DistinctIds :
      (ss : List WeightSlab) → AllPairs DistinctIds ss → AllPairs DistinctIds (put_slab new ss)
  unfolding put_slab
  put_slab-DistinctIds [] d = tt
  put_slab-DistinctIds (s ∷ ss) d = elim (Bool-cases (s.id == new.id)) [
    | inl e ↦
        let same : s.id ≡ new.id = ground arith in
        let absent : All (λ t. new.id ≢ t.id) ss = All-imp ss (λ t k q. k (same ∙ q)) d.0 in
        subst (λ b. AllPairs DistinctIds ((if b then new else s) ∷ put_slab new ss)) (sym e)
          (subst (λ ts. AllPairs DistinctIds (new ∷ ts)) (sym (put_slab-absent ss absent))
            (absent, d.1))
    | inr e ↦
        let other : s.id ≢ new.id = ground arith in
        subst (λ b. AllPairs DistinctIds ((if b then new else s) ∷ put_slab new ss)) (sym e)
          (All-put_slab (DistinctIds s) ss d.0 other, put_slab-DistinctIds ss d.1)
  ]

  pub put_slab-Compatible :
      (ss : List WeightSlab)
      → AllPairs DistinctIds ss
      → AllPairs Compatible ss
      → All (λ s. s.id ≢ new.id → Compatible s new) ss
      → AllPairs Compatible (put_slab new ss)
  unfolding put_slab
  put_slab-Compatible [] d c h = tt
  put_slab-Compatible (s ∷ ss) d c h = elim (Bool-cases (s.id == new.id)) [
    | inl e ↦
        let same : s.id ≡ new.id = ground arith in
        let absent : All (λ t. new.id ≢ t.id) ss = All-imp ss (λ t k q. k (same ∙ q)) d.0 in
        let flipped : All (Compatible new) ss =
          All-imp ss (λ t k. Compatible-sym t new (k.1 (λ q. k.0 (sym q))))
            (All-zip (λ t. new.id ≢ t.id) (λ t. t.id ≢ new.id → Compatible t new) ss absent h.1) in
        subst (λ b. AllPairs Compatible ((if b then new else s) ∷ put_slab new ss)) (sym e)
          (subst (λ ts. AllPairs Compatible (new ∷ ts)) (sym (put_slab-absent ss absent))
            (flipped, c.1))
    | inr e ↦
        let other : s.id ≢ new.id = ground arith in
        subst (λ b. AllPairs Compatible ((if b then new else s) ∷ put_slab new ss)) (sym e)
          (All-put_slab (Compatible s) ss c.0 (h.0 other), put_slab-Compatible ss d.1 c.1 h.1)
  ]
