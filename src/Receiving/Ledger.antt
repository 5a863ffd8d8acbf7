-- ===== src/Receiving/Ledger.antt =====
-- What a movement does to the level of its product: a receipt, a count and an adjustment of
-- app/domain/receiving.py against the sum of the ledger.
use pos.Prelude.{
  ℕ, suc, ◌*◌, ◌<◌, ℤ, nonneg, ◌-ℤ◌, ◌*ℤ◌, ◌≤ℤ◌, ◌<ℤ◌, ltb_ℤ, eqb_ℤ, eqb_ℤ→eq, ◌≡◌, ◌≢◌, inl, inr,
  refl, Bool-cases, true, false, List, [], ◌∷◌, ok, err, ok-injective, err-ne-ok, Text, sum_by,
  int_laws, arith, *ℤ_nonneg, parts_of_eq,
}
use pos.Receiving.{
  negative_count, nothing_to_correct, Movement, MovementReason, check_movement, units_to_milli,
  receive, count_stock,
}

-- The level that the ledger of one product adds up to.
abbrev pub level : List Movement → ℤ
level = sum_by (λ m. m.delta_milli)

check_movement-ok :
    (m : Movement) {n : Movement} → check_movement m ≡ ok n → (m ≡ n) × (m.delta_milli ≢ nonneg 0)
unfolding check_movement
check_movement-ok m h = elim (Bool-cases (eqb_ℤ m.delta_milli (nonneg 0))) [
  | inl e ↦ err-ne-ok (rw e at h)
  | inr e ↦ (ok-injective (rw e at h), λ z. ground arith)
]

no_difference : (a b : ℤ) → a -ℤ b ≡ nonneg 0 → a ≡ b
no_difference a b h = omega (int_laws, parts_of_eq h)

difference : (a b : ℤ) → a ≡ b → eqb_ℤ (a -ℤ b) (nonneg 0) ≡ true
difference a b h =
    let none_left : a -ℤ b ≡ nonneg 0 = omega (int_laws, parts_of_eq h) in rw none_left refl

correction :
    (product_id : Text) (counted expected : ℤ)
    → nonneg 0 ≤ℤ counted
    → counted ≢ expected
    → count_stock product_id counted expected
      ≡ ok (record {
        product_id = product_id;
        delta_milli = counted -ℤ expected;
        reason = MovementReason.count;
        note = [];
      })
unfolding count_stock check_movement
correction product_id counted expected p ne =
    let low : ltb_ℤ counted (nonneg 0) ≡ false = ground arith in
    elim (Bool-cases (eqb_ℤ (counted -ℤ expected) (nonneg 0))) [
      | inl e ↦
          absurd (ne (no_difference counted expected (eqb_ℤ→eq (counted -ℤ expected) (nonneg 0) e)))
      | inr e ↦ rw (low, e) refl
    ]

-- A count refuses a negative quantity and a quantity that matches, and only those. Otherwise the
-- movement it writes takes the level that was expected to the one that was counted.
pub count_stock_lem :
    (product_id : Text) (counted : ℤ) (ledger : List Movement)
    → (counted <ℤ nonneg 0 → count_stock product_id counted (level ledger) ≡ err negative_count)
      × (counted ≡ level ledger
          → nonneg 0 ≤ℤ counted
          → count_stock product_id counted (level ledger) ≡ err nothing_to_correct)
      × (nonneg 0 ≤ℤ counted
          → counted ≢ level ledger
          → (m : Movement) × (count_stock product_id counted (level ledger) ≡ ok m)
            × (m.product_id ≡ product_id)
            × (level (m ∷ ledger) ≡ counted))
unfolding count_stock
count_stock_lem product_id counted ledger = (
  λ neg. let low : ltb_ℤ counted (nonneg 0) ≡ true = ground arith in rw low refl,
  λ e p.
      let low : ltb_ℤ counted (nonneg 0) ≡ false = ground arith in
      let same : eqb_ℤ (counted -ℤ level ledger) (nonneg 0) ≡ true =
        difference counted (level ledger) e in
      rw (low, same) refl,
  λ p ne. (_, correction product_id counted (level ledger) p ne, refl, omega int_laws),
)

-- A delivery of at least one pack of at least one unit is written as the product of the two in
-- thousandths, and raises the level.
pub receive_lem :
    (product_id : Text) (packs pack_size : ℕ) (ledger : List Movement)
    → (m : Movement) × (receive product_id (nonneg (suc packs)) (nonneg (suc pack_size)) ≡ ok m)
      × (m.delta_milli ≡ nonneg (suc packs * suc pack_size * 1000))
      × (level ledger <ℤ level (m ∷ ledger))
unfolding receive check_movement units_to_milli
receive_lem product_id packs pack_size ledger =
    let n = suc packs * suc pack_size in
    let delta : nonneg (suc packs) *ℤ nonneg (suc pack_size) *ℤ nonneg 1000 ≡ nonneg (n * 1000) =
      rw (*ℤ_nonneg (suc packs) (suc pack_size)) (*ℤ_nonneg n 1000) in
    let some_units : 0 < n = grind arith in
    let m : Movement = record {
      product_id = product_id;
      delta_milli = nonneg (n * 1000);
      reason = MovementReason.receipt;
      note = [];
    } in
    let nonzero : eqb_ℤ (nonneg (n * 1000)) (nonneg 0) ≡ false = ground arith in
    let a : ltb_ℤ (nonneg (suc packs)) (nonneg 1) ≡ false = ground arith in
    let b : ltb_ℤ (nonneg (suc pack_size)) (nonneg 1) ≡ false = ground arith in
    (m, rw (a, b, delta, nonzero) refl, refl, omega int_laws)
