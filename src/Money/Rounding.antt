-- ===== src/Money/Rounding.antt =====
-- `Math.round(value * 100) / 100` for a value of `n / d` paise: the nearest whole paisa, a tie up.
use native.Mathlib.Nat.{div-mul-le_self, lt-div-mul-add, le-div_iff_mul-le, le_trans}
use nation_wide.Common.{ℕ, ◌+◌, ◌*◌, ◌/◌, ◌≤◌, ◌<◌, ◌≡◌, arith}

unfoldable pub round2 : ℕ → ℕ → ℕ
round2 n d = (2 * n + d) / (2 * d)

-- The rounded value lies within half a unit of the exact one.
pub round2_bounds :
    (n d : ℕ) → 0 < d → (2 * (round2 n d * d) ≤ 2 * n + d) × (2 * n < 2 * (round2 n d * d) + d)
unfolding round2
round2_bounds n d h = omega (
  arith,
  div-mul-le_self (2 * n + d) (2 * d),
  lt-div-mul-add {a = 2 * n + d} {b = 2 * d} (omega arith),
)

-- A whole number of paise is left alone.
pub round2_whole : (n : ℕ) → round2 n 1 ≡ n
unfolding round2
round2_whole n = omega arith

pub round2_mono : (m n d : ℕ) → 0 < d → m ≤ n → round2 m d ≤ round2 n d
unfolding round2
round2_mono m n d h k =
    (le-div_iff_mul-le {k = 2 * d} {x = (2 * m + d) / (2 * d)} {y = 2 * n + d} (omega arith)).1
      (le_trans (div-mul-le_self (2 * m + d) (2 * d)) (omega arith))
