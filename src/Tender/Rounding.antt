-- ===== src/Tender/Rounding.antt =====
-- Cash is collected in whole rupees, and the adjustment says exactly by how much it moved.
use pos.Prelude.{
  ℕ, ◌+◌, ◌*◌, ◌≤◌, ◌≡◌, refl, nonneg, negsuc, ◌+ℤ◌, ◌-ℤ◌, ok, err, arith, le→ltb_false, int_laws,
  *ℤ_nonneg, eqb_ℤ_refl,
}
use pos.Money.{Money, half_up, quantize_to_paise}
use pos.Money.Rounding.{half_up_nearest}
use pos.Tender.{cash, upi, negative_outstanding, new_rounding, round_to_rupee, rounding_for}

new_rounding-ok :
    (outstanding collected adjustment : Money)
    → outstanding +ℤ adjustment ≡ collected
    → new_rounding outstanding collected adjustment
      ≡ ok (record { outstanding = outstanding; collected = collected; adjustment = adjustment })
unfolding new_rounding
new_rounding-ok outstanding collected adjustment e = rw (e, eqb_ℤ_refl collected) refl

round_to_rupee_lem :
    (n : ℕ)
    → (k : ℕ) × (round_to_rupee (nonneg n) ≡ nonneg (k * 100))
      × (k * 100 ≤ n + 50)
      × (n ≤ k * 100 + 49)
unfolding round_to_rupee quantize_to_paise
round_to_rupee_lem n =
    let (lo, hi) = half_up_nearest n 100 (omega arith) in
    (half_up n 100, *ℤ_nonneg (half_up n 100) 100, omega arith, omega arith)

-- Cash for an amount that is not negative is collected in whole rupees, at most 50 paise above
-- the amount and less than 50 below it, and the adjustment is the difference.
pub round_cash_tender_lem :
    (n : ℕ)
    → (k : ℕ) × (rounding_for (nonneg n) cash
        ≡ ok (record {
          outstanding = nonneg n;
          collected = nonneg (k * 100);
          adjustment = nonneg (k * 100) -ℤ nonneg n;
        }))
      × (k * 100 ≤ n + 50)
      × (n ≤ k * 100 + 49)
unfolding rounding_for
round_cash_tender_lem n =
    let (k, e, lo, hi) = round_to_rupee_lem n in
    (
      k,
      rw (le→ltb_false (n + 0) 0 (omega arith)) (
          rw e (
            new_rounding-ok (nonneg n) (nonneg (k * 100)) (nonneg (k * 100) -ℤ nonneg n)
              (omega int_laws))),
      lo,
      hi,
    )

-- A negative balance cannot be collected in cash; UPI collects any amount exactly and adjusts nothing.
pub rounding_for_exact :
    (n : ℕ) (outstanding : Money)
    → (rounding_for (negsuc n) cash ≡ err negative_outstanding)
      × (rounding_for outstanding upi
          ≡ ok (record {
            outstanding = outstanding;
            collected = outstanding;
            adjustment = nonneg 0;
          }))
unfolding rounding_for
rounding_for_exact n outstanding =
    (ground arith, new_rounding-ok outstanding outstanding (nonneg 0) (omega int_laws))
