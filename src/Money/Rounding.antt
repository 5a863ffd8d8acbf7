-- ===== src/Money/Rounding.antt =====
-- What `quantize_to_paise` of app/domain/money.py computes, against the exact quotient.
use pos.Prelude.{
  ℕ, ◌+◌, ◌*◌, ◌≤◌, ◌<◌, ◌≡◌, ℤ, nonneg, negsuc, neg, pos_part, neg_part, arith, div_bounds,
  div_unique, mul_le_cancel, mul_lt_cancel,
}
use native.Mathlib.Nat.{mul-le-mul_right}
use pos.Money.{decimal_div, half_up, quantize_to_paise}

-- The rounded value is the nearest whole number, and a tie goes up.
pub half_up_nearest :
    (n d : ℕ) → 0 < d → (2 * (half_up n d * d) ≤ 2 * n + d) × (2 * n < 2 * (half_up n d * d) + d)
unfolding half_up
half_up_nearest n d h = grind (arith, div_bounds (2 * n + d) (2 * d) (omega arith))

pub half_up_unique :
    (n d q : ℕ) → 0 < d → 2 * (q * d) ≤ 2 * n + d → 2 * n < 2 * (q * d) + d → half_up n d ≡ q
unfolding half_up
half_up_unique n d q h lo hi =
    div_unique (2 * n + d) (2 * d) q (omega arith) (omega arith) (omega arith)

-- A quotient first rounded to a decimal grid of 2 * half parts, finer than its denominator, and to
-- whichever neighbour, rounds to the same whole number.
pub half_up_twice :
    (n d r half : ℕ)
    → 0 < d
    → d < 2 * half
    → 2 * (r * d) ≤ 2 * (n * (2 * half)) + d
    → 2 * (n * (2 * half)) ≤ 2 * (r * d) + d
    → half_up r (2 * half) ≡ half_up n d
half_up_twice n d r half pd fine above below =
    let q = half_up n d in
    let (lo, hi) = half_up_nearest n d pd in
    let lo' : 2 * (q * d) * (2 * half) ≤ (2 * n + d) * (2 * half) =
      mul-le-mul_right (2 * half) lo in
    let hi' : (2 * n + 1) * (2 * half) ≤ (2 * (q * d) + d) * (2 * half) =
      mul-le-mul_right (2 * half) (omega arith) in
    let at_least : 4 * (half * q) ≤ 2 * r + 1 + 2 * half =
      mul_le_cancel (4 * (half * q)) (2 * r + 1 + 2 * half) d pd (omega arith) in
    let below_next : 2 * r < 4 * (half * q) + 2 * half =
      mul_lt_cancel (2 * r) (4 * (half * q) + 2 * half) d (omega arith) in
    half_up_unique r (2 * half) q (omega arith) (omega arith) (omega arith)

half_up-zero : (d : ℕ) → half_up 0 d ≡ 0
unfolding half_up
half_up-zero d = grind arith

-- The two parts of an integer are rounded alike, so that rounding keeps the sign.
pub quantize_to_paise_parts :
    (n : ℤ) (d : ℕ)
    → (pos_part (quantize_to_paise (decimal_div n d)) ≡ half_up (pos_part n) d)
      × (neg_part (quantize_to_paise (decimal_div n d)) ≡ half_up (neg_part n) d)
unfolding quantize_to_paise neg
quantize_to_paise_parts (nonneg n) d = ground (arith, half_up-zero d)
quantize_to_paise_parts (negsuc n) d = ground (arith, half_up-zero d)
