-- ===== src/Payments/Balance.antt =====
-- The balance loop closes exactly when enough was approved, and change is what was paid beyond it.
use pos.Prelude.{
  ℤ, nonneg, ◌+ℤ◌, ◌-ℤ◌, neg, ◌≤ℤ◌, ◌≡◌, ◌↔◌, inl, inr, refl, Bool-cases, true, false, not,
  if◌then◌else◌, List, [], ◌∷◌, sum_by, arith, neg_parts, -ℤ_parts, +ℤ_parts, eq_of_parts, ap, sym,
  ◌∙◌, zero-+ℤ,
}
use pos.Money.{Money, is_negative, is_positive, zero_money}
use pos.Payments.{
  PaymentAttempt, counts_toward_balance, approved_total, is_settled, balance_change, is_short,
  balance_of,
}

abbrev pub approved_amount : PaymentAttempt → Money
approved_amount a = if counts_toward_balance a.state then a.amount else nonneg 0

pub approved_total-eq-sum_by :
    (attempts : List PaymentAttempt) → approved_total attempts ≡ sum_by approved_amount attempts
unfolding approved_total
approved_total-eq-sum_by [] = refl
approved_total-eq-sum_by (a ∷ attempts) = elim (Bool-cases (counts_toward_balance a.state)) [
  | inl e ↦ rw e (ap (◌+ℤ◌ a.amount) (approved_total-eq-sum_by attempts))
  | inr e ↦
      rw e (approved_total-eq-sum_by attempts ∙ sym (zero-+ℤ (sum_by approved_amount attempts)))
]

-- The balance of two integers, whatever they stand for.
abbrev change_of : ℤ → ℤ
change_of left = if is_negative left then neg left else zero_money

settled_iff : (owed paid : ℤ) → (not (is_positive (owed -ℤ paid)) ≡ true) ↔ (owed ≤ℤ paid)
settled_iff owed paid = ground (arith, -ℤ_parts owed paid)

change-nonneg : (left : ℤ) → nonneg 0 ≤ℤ change_of left
change-nonneg left = ground (arith, neg_parts left)

change-settled :
    (owed paid : ℤ)
    → not (is_positive (owed -ℤ paid)) ≡ true
    → owed +ℤ change_of (owed -ℤ paid) ≡ paid
change-settled owed paid h =
    let left = owed -ℤ paid in
    eq_of_parts _ _ (
      ground (
        arith,
        -ℤ_parts owed paid,
        neg_parts left,
        +ℤ_parts owed (neg left),
        +ℤ_parts owed zero_money,
      ))

change-open : (left : ℤ) → not (is_positive left) ≡ false → change_of left ≡ nonneg 0
change-open left h = ground arith

-- A sale is settled exactly when the approved attempts reach the total with its rounding. Then what
-- was approved is that total and the change; before, the change is zero.
pub balance_of-settled :
    (grand_total : Money) (attempts : List PaymentAttempt) (rounding : Money)
    → let b = balance_of grand_total attempts rounding in
      let owed = grand_total +ℤ rounding in
      let paid = sum_by approved_amount attempts in
      ((is_settled b ≡ true) ↔ (owed ≤ℤ paid))
      × (nonneg 0 ≤ℤ balance_change b)
      × (is_settled b ≡ true → owed +ℤ balance_change b ≡ paid)
      × (is_settled b ≡ false → balance_change b ≡ nonneg 0)
      × (is_short b ≡ true → is_settled b ≡ false)
unfolding balance_of is_settled balance_change is_short
balance_of-settled grand_total attempts rounding =
    let owed = grand_total +ℤ rounding in
    let paid = sum_by approved_amount attempts in
    rw (approved_total-eq-sum_by attempts) (
      settled_iff owed paid,
      change-nonneg (owed -ℤ paid),
      change-settled owed paid,
      change-open (owed -ℤ paid),
      ground arith,
    )
