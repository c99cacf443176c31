-- ===== src/Pricing/Bands.antt =====
-- `marginFromBands`: the margin that a carrier charges at a weight, from its ladder of bands.
pub mod Edit
pub mod Apart
use native.Mathlib.Decide.{dec_lt}
use native.Mathlib.Nat.{mul-le-mul, le_refl}
use nation_wide.Common.{
  ℕ, ◌+◌, ◌-◌, ◌*◌, ◌≤◌, ◌<◌, ◌≡◌, Bool, true, ◌&&◌, Option, none, some, List, [], ◌∷◌, find, arith,
  leb, ltb,
}
use nation_wide.Money.{round2, round2_mono, round2_bounds}

pub record MarginBand : Type 0 where
  pub from : ℕ  -- grams
  pub to : Option ℕ
  pub flat_amount : ℕ
  pub per_kg_amount : ℕ

abbrev below_top : ℕ → Option ℕ → Bool
below_top weight none = true
below_top weight (some to) = ltb weight to

unfoldable pub covers : ℕ → MarginBand → Bool
covers weight b = leb b.from weight && below_top weight b.to

-- Read only where the band contains the weight, so `weightKg - band.fromKg` is not negative.
unfoldable pub band_margin : ℕ → MarginBand → ℕ
band_margin weight b = round2 (b.flat_amount * 1000 + b.per_kg_amount * (weight - b.from)) 1000

margin_of : ℕ → Option MarginBand → ℕ
margin_of weight none = 0
margin_of weight (some b) = band_margin weight b

unfoldable pub margin_from_bands : List MarginBand → ℕ → ℕ
unfolding margin_of
margin_from_bands bands weight = margin_of weight (find (covers weight) bands)

-- A ladder without gaps from `floor` up, with an open top band, on which no band is left at more
-- than the flat amount of the next one.
abbrev pub IsLadder : ℕ → List MarginBand → Type 0
IsLadder floor [] = ⊥
IsLadder floor (b ∷ []) = (b.from ≡ floor) × (b.to ≡ none)
IsLadder floor (b ∷ c ∷ rest) =
    (b.from ≡ floor)
    × (b.to ≡ some c.from)
    × (b.from < c.from)
    × (b.flat_amount * 1000 + b.per_kg_amount * (c.from - b.from) ≤ c.flat_amount * 1000)
    × IsLadder c.from (c ∷ rest)

band_margin_mono : (b : MarginBand) (v w : ℕ) → v ≤ w → band_margin v b ≤ band_margin w b
unfolding band_margin
band_margin_mono b v w h =
    let more : v - b.from ≤ w - b.from = omega arith in
    round2_mono _ _ 1000 (omega arith) (omega (arith, mul-le-mul (le_refl b.per_kg_amount) more))

flat-le-band_margin : (b : MarginBand) (w : ℕ) → b.flat_amount ≤ band_margin w b
unfolding band_margin
flat-le-band_margin b w =
    omega (arith, round2_bounds (b.flat_amount * 1000 + b.per_kg_amount * (w - b.from)) 1000)

-- Below the floor of the next band a band charges at most the flat amount of the next.
band_margin-le-next :
    (b c : MarginBand) (v : ℕ)
    → b.flat_amount * 1000 + b.per_kg_amount * (c.from - b.from) ≤ c.flat_amount * 1000
    → v ≤ c.from
    → band_margin v b ≤ c.flat_amount
unfolding band_margin
band_margin-le-next b c v h k =
    let less : v - b.from ≤ c.from - b.from = omega arith in
    omega (
      arith,
      mul-le-mul (le_refl b.per_kg_amount) less,
      round2_bounds (b.flat_amount * 1000 + b.per_kg_amount * (v - b.from)) 1000,
    )

-- On a ladder the first band covers what lies below the second, and the rest covers the rest.
margin-first :
    (b c : MarginBand) (rest : List MarginBand) (w : ℕ)
    → b.to ≡ some c.from
    → b.from ≤ w
    → w < c.from
    → margin_from_bands (b ∷ c ∷ rest) w ≡ band_margin w b
unfolding margin_from_bands covers
margin-first b c rest w t h k = ground arith

margin-later :
    (b c : MarginBand) (rest : List MarginBand) (w : ℕ)
    → b.to ≡ some c.from
    → c.from ≤ w
    → margin_from_bands (b ∷ c ∷ rest) w ≡ margin_from_bands (c ∷ rest) w
unfolding margin_from_bands covers
margin-later b c rest w t h = ground arith

margin-last :
    (b : MarginBand) (w : ℕ)
    → b.to ≡ none
    → b.from ≤ w
    → margin_from_bands (b ∷ []) w ≡ band_margin w b
unfolding margin_from_bands covers
margin-last b w t h = ground arith

flat-le-margin :
    (floor : ℕ) (b : MarginBand) (rest : List MarginBand) (w : ℕ)
    → IsLadder floor (b ∷ rest)
    → floor ≤ w
    → b.flat_amount ≤ margin_from_bands (b ∷ rest) w
flat-le-margin floor b [] w l h = rw (margin-last b w l.1 (omega arith)) (flat-le-band_margin b w)
flat-le-margin floor b (c ∷ rest) w l h = elim (dec_lt w c.from) [
  | yes p ↦ rw (margin-first b c rest w l.1 (omega arith) p) (flat-le-band_margin b w)
  | no p ↦
      rw (margin-later b c rest w l.1 (omega arith))
        (omega (arith, flat-le-margin c.from c rest w l.4))
]

-- Along a ladder whose bands follow one another without a gap and never fall back, a heavier
-- parcel never has a smaller margin, across the bounds of the bands too.
pub margin_from_bands_mono :
    (floor : ℕ) (bands : List MarginBand) (v w : ℕ)
    → IsLadder floor bands
    → floor ≤ v
    → v ≤ w
    → margin_from_bands bands v ≤ margin_from_bands bands w
margin_from_bands_mono floor [] v w l h k = absurd l
margin_from_bands_mono floor (b ∷ []) v w l h k =
    rw (margin-last b v l.1 (omega arith), margin-last b w l.1 (omega arith))
      (band_margin_mono b v w k)
margin_from_bands_mono floor (b ∷ c ∷ rest) v w l h k = elim (dec_lt w c.from) [
  | yes p ↦
      rw
        (
          margin-first b c rest v l.1 (omega arith) (omega arith),
          margin-first b c rest w l.1 (omega arith) p,
        )
        (band_margin_mono b v w k)
  | no p ↦ elim (dec_lt v c.from) [
    | yes q ↦
        rw (margin-first b c rest v l.1 (omega arith) q, margin-later b c rest w l.1 (omega arith))
          (omega (
            arith,
            band_margin-le-next b c v l.3 (omega arith),
            flat-le-margin c.from c rest w l.4,
          ))
    | no q ↦
        rw (margin-later b c rest v l.1 (omega arith), margin-later b c rest w l.1 (omega arith))
          (margin_from_bands_mono c.from (c ∷ rest) v w l.4 (omega arith) k)
  ]
]
