-- ===== src/Money/Signed.antt =====
-- Differences of amounts, which may be negative.
use nation_wide.Common.{ℕ, suc, ◌-◌, leb, if◌then◌else◌}

pub data ℤ : Type 0 where
  pos negsuc : ℕ → ℤ

-- `m - n`.
unfoldable pub minus : ℕ → ℕ → ℤ
minus m n = if leb n m then pos (m - n) else negsuc (n - suc m)
