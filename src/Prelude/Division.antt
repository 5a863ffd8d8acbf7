-- ===== src/Prelude/Division.antt =====
-- Division of numbers by its two bounds.
use Prim.Native.Nat.{ℕ, ◌+◌, ◌*◌, ◌/◌, ◌≤◌, ◌<◌}
use mathlib.Core.Path.{◌≡◌}
use native.Mathlib.Omega.{arith}

pub div_bounds : (n d : ℕ) → 0 < d → (n / d * d ≤ n) × (n < n / d * d + d)
div_bounds n d h = grind arith

pub div_unique : (n d q : ℕ) → 0 < d → q * d ≤ n → n < q * d + d → n / d ≡ q
div_unique n d q h lo hi = grind arith

pub mul_lt_cancel : (a b d : ℕ) → a * d < b * d → a < b
mul_lt_cancel a b d h = grind arith

pub mul_le_cancel : (a b d : ℕ) → 0 < d → a * d ≤ b * d → a ≤ b
mul_le_cancel a b d p h = grind arith
