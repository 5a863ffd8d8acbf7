-- ===== src/Money.antt =====
-- app/domain/money.py: exact amounts in paise, and the operations that round. `Money` wraps an
-- `int` and checks that it is one, so it is an integer here, as basis points and thousandths are.
-- A `Decimal` that the code makes is the exact quotient of two integers: Rounding has the theorem
-- that the context's 28 digits, which a quotient is first rounded to, change no result.
pub mod Rounding
pub mod Allocation
use pos.Prelude.{
  ℕ, zero, suc, ◌+◌, ◌*◌, ◌/◌, ℤ, nonneg, negsuc, ◌+ℤ◌, ◌-ℤ◌, ◌*ℤ◌, neg, magnitude, ltb_ℤ, eqb_ℤ,
  sum_ℤ, Bool, List,
}

abbrev pub Money : Type 0
Money = ℤ

-- Quantities are integer thousandths.
abbrev pub quantity_scale : ℕ
quantity_scale = 1000

-- One rupee, in paise.
abbrev pub rupee : ℕ
rupee = 100

abbrev pub zero_money : Money
zero_money = nonneg 0

abbrev pub is_zero : Money → Bool
is_zero m = eqb_ℤ m (nonneg 0)

abbrev pub is_negative : Money → Bool
is_negative m = ltb_ℤ m (nonneg 0)

abbrev pub is_positive : Money → Bool
is_positive m = ltb_ℤ (nonneg 0) m

-- `total`
abbrev pub total : List Money → Money
total = sum_ℤ

-- A decimal number as the quotient of an integer by a positive number.
pub record Decimal : Type 0 where
  pub num : ℤ
  pub den : ℕ

-- `Decimal(n) / d`
abbrev pub decimal_div : ℤ → ℕ → Decimal
decimal_div n d = record { num = n; den = d }

-- The whole number nearest to n / d, a half going up.
unfoldable pub half_up : ℕ → ℕ → ℕ
half_up n d = (2 * n + d) / (2 * d)

-- ROUND_HALF_UP looks at the size alone and keeps the sign: a half goes away from zero.
unfoldable pub half_up_signed : ℤ → ℕ → ℤ
half_up_signed (nonneg n) d = nonneg (half_up n d)
half_up_signed (negsuc n) d = neg (nonneg (half_up (suc n) d))

unfoldable pub quantize_to_paise : Decimal → ℤ
unfolding half_up_signed
quantize_to_paise v = half_up_signed v.num v.den

unfoldable pub multiply_by_quantity : Money → ℤ → Money
multiply_by_quantity unit_price qty_milli =
    quantize_to_paise (decimal_div (unit_price *ℤ qty_milli) quantity_scale)

unfoldable pub percentage_of : Money → ℤ → Money
percentage_of amount basis_points = quantize_to_paise (decimal_div (amount *ℤ basis_points) 10_000)
