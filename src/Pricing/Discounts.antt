-- ===== src/Pricing/Discounts.antt =====
-- What the discount loop of `price_line` can take off.
use pos.Prelude.{
  ℕ, ◌*◌, ◌≤◌, ◌≡◌, refl, nonneg, negsuc, ◌+ℤ◌, ◌-ℤ◌, neg, ◌≤ℤ◌, ltb_ℤ, pos_part, neg_part, sum_by,
  Bool-cases, if◌then◌else◌, List, [], ◌∷◌, All, inl, inr, parts_of_eq, eq_of_parts, arith,
  int_laws, *ℤ_nonneg, *ℤ_negsuc, true, ok, ok-injective, err-ne-ok, nonneg-eq-pos_part, parts_zero,
  neg_part-neg, suc, ◌&&◌,
}
use pos.Money.{Money, is_zero, half_up, quantize_to_paise, percentage_of}
use pos.Money.Rounding.{half_up_nearest, quantize_to_paise_parts}
use pos.Pricing.{
  Discount, AppliedDiscount, is_percentage, check_discount, against, taken_off, apply_discounts,
}

-- A discount that its constructor accepts.
pub record IsDiscount (d : Discount) : Type 0 where
  pub nonneg_value : nonneg 0 ≤ℤ d.value
  pub at_most_all : is_percentage d.kind ≡ true → d.value ≤ℤ nonneg 10_000

pub check_discount-IsDiscount :
    (d : Discount) {e : Discount} → check_discount d ≡ ok e → IsDiscount e
unfolding check_discount
check_discount-IsDiscount d h = elim (Bool-cases (ltb_ℤ d.value (nonneg 0))) [
  | inl low ↦ err-ne-ok (rw low at h)
  | inr nonneg_value ↦ elim (Bool-cases (is_percentage d.kind && ltb_ℤ (nonneg 10_000) d.value)) [
    | inl high ↦ err-ne-ok (rw (nonneg_value, high) at h)
    | inr fits ↦
        rw (← ok-injective (rw (nonneg_value, fits) at h))
          (record { nonneg_value = ground arith; at_most_all = λ e. ground arith })
  ]
]

pub percentage_of_range :
    (r v : ℕ) → v ≤ 10_000 → (k : ℕ) × (percentage_of (nonneg r) (nonneg v) ≡ nonneg k) × (k ≤ r)
unfolding percentage_of quantize_to_paise
percentage_of_range r v h =
    let (lo, hi) = half_up_nearest (r * v) 10_000 (omega arith) in
    (half_up (r * v) 10_000, rw (*ℤ_nonneg r v) refl, grind arith)

against_nonneg : (d : Discount) (r : ℕ) → IsDiscount d → nonneg 0 ≤ℤ against d (nonneg r)
unfolding against
against_nonneg d r v = elim (Bool-cases (is_percentage d.kind)) [
  | inl e ↦
      let (k, same, fits) =
        percentage_of_range r (pos_part d.value)
          (omega (arith, v.at_most_all e, v.nonneg_value, parts_zero d.value)) in
      rw e (rw (nonneg-eq-pos_part d.value v.nonneg_value) (rw same (omega arith)))
  | inr e ↦ rw e v.nonneg_value
]

-- Of an amount that is not negative at most all is taken off, and nothing is put on.
pub taken_off_range :
    (d : Discount) (running : Money)
    → IsDiscount d
    → nonneg 0 ≤ℤ running
    → (nonneg 0 ≤ℤ taken_off d running) × (taken_off d running ≤ℤ running)
unfolding taken_off
taken_off_range d (nonneg r) v p = ground (arith, against_nonneg d r v)
taken_off_range d (negsuc r) v p = absurd (omega arith)

percentage_of_negative :
    (r v : ℕ) → v ≤ 10_000 → neg_part (percentage_of (negsuc r) (nonneg v)) ≤ suc r
unfolding percentage_of
percentage_of_negative r v h =
    let (lo, hi) = half_up_nearest (suc r * v) 10_000 (omega arith) in
    let fits : half_up (suc r * v) 10_000 ≤ suc r = grind arith in
    let parts = quantize_to_paise_parts (neg (nonneg (suc r * v))) 10_000 in
    rw (*ℤ_negsuc r v, parts.1, neg_part-neg (suc r * v)) fits

against_negsuc : (d : Discount) (r : ℕ) → IsDiscount d → negsuc r ≤ℤ against d (negsuc r)
unfolding against
against_negsuc d r v = elim (Bool-cases (is_percentage d.kind)) [
  | inl e ↦
      let fits =
        percentage_of_negative r (pos_part d.value)
          (omega (arith, v.at_most_all e, v.nonneg_value, parts_zero d.value)) in
      rw e (rw (nonneg-eq-pos_part d.value v.nonneg_value) (omega (arith, fits)))
  | inr e ↦ rw e (omega (arith, v.nonneg_value))
]

-- Of a negative amount every discount takes off the whole amount.
pub taken_off_negsuc : (d : Discount) (r : ℕ) → IsDiscount d → taken_off d (negsuc r) ≡ negsuc r
unfolding taken_off
taken_off_negsuc d r v = ground (arith, against_negsuc d r v)

-- The amounts that the loop applied are positive, and they are the difference that it made.
pub record Splits (running : Money) (out : List AppliedDiscount × Money) : Type 0 where
  pub accounted : sum_by (λ a. a.amount) out.0 +ℤ out.1 ≡ running
  pub positive : All (λ a. nonneg 1 ≤ℤ a.amount) out.0
  pub left_nonneg : nonneg 0 ≤ℤ out.1
  pub left_le : out.1 ≤ℤ running

pub apply_discounts-Splits :
    (discounts : List Discount) (running : Money)
    → All IsDiscount discounts
    → nonneg 0 ≤ℤ running
    → Splits running (apply_discounts discounts running)
unfolding apply_discounts
apply_discounts-Splits [] running v p = record {
  accounted = omega int_laws;
  positive = tt;
  left_nonneg = p;
  left_le = omega arith;
}
apply_discounts-Splits (d ∷ discounts) running (v, vs) p =
    let amount = taken_off d running in
    let (low, high) = taken_off_range d running v p in
    elim (Bool-cases (is_zero amount)) [
      | inl e ↦ rw e (apply_discounts-Splits discounts running vs p)
      | inr e ↦
          let rest = apply_discounts-Splits discounts (running -ℤ amount) vs (omega int_laws) in
          let nonzero : nonneg 1 ≤ℤ amount = ground arith in
          rw e (record {
            accounted = omega (int_laws, parts_of_eq rest.accounted);
            positive = (nonzero, rest.positive);
            left_nonneg = rest.left_nonneg;
            left_le = omega (int_laws, rest.left_le);
          })
    ]

apply_discounts_zero :
    (discounts : List Discount)
    → All IsDiscount discounts
    → (apply_discounts discounts (nonneg 0)).1 ≡ nonneg 0
apply_discounts_zero discounts vs =
    let rest = apply_discounts-Splits discounts (nonneg 0) vs (omega arith) in
    eq_of_parts _ _ (omega (arith, rest.left_nonneg, rest.left_le))

spent : (r : ℕ) → (if is_zero (negsuc r) then negsuc r else negsuc r -ℤ negsuc r) ≡ nonneg 0
unfolding ◌-ℤ◌
spent r = ground arith

-- The loop leaves nothing of a negative amount as soon as there is one discount.
pub apply_discounts_negative :
    (d : Discount) (discounts : List Discount) (r : ℕ)
    → IsDiscount d
    → All IsDiscount discounts
    → (apply_discounts (d ∷ discounts) (negsuc r)).1 ≡ nonneg 0
unfolding apply_discounts
apply_discounts_negative d discounts r v vs =
    rw (taken_off_negsuc d r v) (rw (spent r) (apply_discounts_zero discounts vs))
