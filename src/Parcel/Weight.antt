-- ===== src/Parcel/Weight.antt =====
-- The weight that a shipment is priced on: `volumetricWeightKg`, `chargeableWeightKg`.
use nation_wide.Common.{
  ℕ, suc, ◌+◌, ◌*◌, ◌/◌, ◌≤◌, ◌<◌, ◌≡◌, max, Option, some, List, [], ◌∷◌, map, arith,
}

pub record Package : Type 0 where
  pub weight : ℕ  -- grams
  pub length_mm : Option ℕ
  pub width_mm : Option ℕ
  pub height_mm : Option ℕ

abbrev pub volumetric_divisor : ℕ
volumetric_divisor = 5000

-- `!pkg.lengthCm` holds of a missing dimension and of a zero one.
volume : Option ℕ → Option ℕ → Option ℕ → ℕ
volume (some (suc l)) (some (suc w)) (some (suc h)) = suc l * suc w * suc h
volume _ _ _ = 0

-- In units of 1/5000 gram: a volume of 5000 cubic centimetres weighs one kilogram.
unfoldable pub volumetric_weight : Package → ℕ
unfolding volume
volumetric_weight p = volume p.length_mm p.width_mm p.height_mm

-- The callback of `packages.reduce`, in units of 1/5000 gram.
unfoldable pub charged_units : Package → ℕ
charged_units p = max (p.weight * volumetric_divisor) (volumetric_weight p)

unfoldable pub total_units : ℕ → List Package → ℕ
total_units sum [] = sum
total_units sum (p ∷ ps) = total_units (sum + charged_units p) ps

-- `Math.ceil` to two decimals of a kilogram, that is to ten grams. `toFixed(6)` strips the noise
-- of binary fractions, and the exact total has five decimals, so it changes nothing here.
unfoldable pub chargeable_weight : List Package → ℕ
unfolding total_units
chargeable_weight ps = (total_units 0 ps + 49_999) / 50_000 * 10

-- `cleanPackages` keeps the known keys, a missing dimension as null.
unfoldable pub clean_packages : List Package → List Package
clean_packages = map λ p. record {
  weight = p.weight;
  length_mm = p.length_mm;
  width_mm = p.width_mm;
  height_mm = p.height_mm;
}

sum_units : List Package → ℕ
sum_units [] = 0
sum_units (p ∷ ps) = charged_units p + sum_units ps

total_units-eq-sum_units : (sum : ℕ) (ps : List Package) → total_units sum ps ≡ sum + sum_units ps
unfolding total_units sum_units
total_units-eq-sum_units sum [] = omega arith
total_units-eq-sum_units sum (p ∷ ps) =
    omega (arith, total_units-eq-sum_units (sum + charged_units p) ps)

abbrev pub actual : List Package → ℕ
actual [] = 0
actual (p ∷ ps) = p.weight + actual ps

abbrev pub volumetric : List Package → ℕ
volumetric [] = 0
volumetric (p ∷ ps) = volumetric_weight p + volumetric ps

le-sum_units :
    (ps : List Package) → (actual ps * 5000 ≤ sum_units ps) × (volumetric ps ≤ sum_units ps)
unfolding sum_units charged_units
le-sum_units [] = omega arith
le-sum_units (p ∷ ps) = omega (arith, le-sum_units ps)

-- A shipment is charged for at least its actual weight and at least its volumetric weight, and for
-- less than ten grams above the sum of what its boxes are charged (`total_units`).
pub chargeable_weight_bounds :
    (ps : List Package)
    → (actual ps ≤ chargeable_weight ps)
      × (volumetric ps ≤ chargeable_weight ps * 5000)
      × (total_units 0 ps ≤ chargeable_weight ps * 5000)
      × (chargeable_weight ps * 5000 < total_units 0 ps + 50_000)
unfolding chargeable_weight
chargeable_weight_bounds ps = omega (arith, le-sum_units ps, total_units-eq-sum_units 0 ps)
