-- ===== src/Tax/Extraction.antt =====
-- The tax inside an amount: nearest to the exact figure, and never more than the amount.
use pos.Prelude.{
  ℕ, ◌+◌, ◌*◌, ◌≤◌, ◌<◌, ◌≡◌, ℤ, nonneg, negsuc, ◌≤ℤ◌, ok, arith, +ℤ_nonneg, *ℤ_nonneg,
}
use pos.Money.{Money, half_up, quantize_to_paise}
use pos.Money.Rounding.{half_up_nearest, half_up_unique}
use pos.Tax.{extract_inclusive_tax}

pub extract_nonneg :
    (gross rate : ℕ)
    → extract_inclusive_tax (nonneg gross) (nonneg rate)
      ≡ ok (nonneg (half_up (gross * rate) (10_000 + rate)))
unfolding extract_inclusive_tax quantize_to_paise
extract_nonneg gross rate =
    rw (+ℤ_nonneg 10000 rate)
      (rw (*ℤ_nonneg gross rate) (ground (arith, half_up_unique (gross * rate) (10_000 + rate) 0)))

-- For an amount and a rate that are not negative the tax is the whole number of paise nearest to
-- gross * rate / (10000 + rate), a half going up, and it is at most the amount.
pub extract_inclusive_tax_nearest :
    (gross rate : ℕ)
    → (t : ℕ) × (extract_inclusive_tax (nonneg gross) (nonneg rate) ≡ ok (nonneg t))
      × (2 * (t * (10_000 + rate)) ≤ 2 * (gross * rate) + (10_000 + rate))
      × (2 * (gross * rate) < 2 * (t * (10_000 + rate)) + (10_000 + rate))
      × (t ≤ gross)
extract_inclusive_tax_nearest gross rate =
    let t = half_up (gross * rate) (10_000 + rate) in
    let (lo, hi) = half_up_nearest (gross * rate) (10_000 + rate) (omega arith) in
    (t, extract_nonneg gross rate, lo, hi, grind arith)

-- The same over integers, without the nearest figure.
pub extract_inclusive_tax_range :
    (gross rate : ℤ)
    → nonneg 0 ≤ℤ gross
    → nonneg 0 ≤ℤ rate
    → (tax : Money) × (extract_inclusive_tax gross rate ≡ ok tax)
      × (nonneg 0 ≤ℤ tax)
      × (tax ≤ℤ gross)
extract_inclusive_tax_range (nonneg gross) (nonneg rate) g r =
    let (t, got, lo, hi, fits) = extract_inclusive_tax_nearest gross rate in
    (nonneg t, got, omega arith, omega arith)
extract_inclusive_tax_range (nonneg gross) (negsuc rate) g r = absurd (omega arith)
extract_inclusive_tax_range (negsuc gross) rate g r = absurd (omega arith)
