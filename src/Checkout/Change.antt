-- ===== src/Checkout/Change.antt =====
-- The change of `change_for` in app/services/sale_service.py: what goes into the drawer and the account
-- is what the sale costs and the change that is handed back.
use pos.Prelude.{
  nonneg, ◌+ℤ◌, ◌-ℤ◌, ◌≤ℤ◌, ltb_ℤ, -ℤ_parts, +ℤ_assoc, +ℤ-zero, zero-+ℤ, parts_of_eq, eq_of_parts,
  sum_by, ◌≡◌, inl, inr, refl, ap, ◌∙◌, Bool-cases, true, false, if◌then◌else◌, List, [], ◌∷◌, ok,
  int_laws, arith,
}
use pos.Money.{Money, zero_money}
use pos.Tender.{change_due}
use pos.Cart.{total_before_rounding}
use pos.Payments.{
  PaymentAttempt, approved, state_eq, counts_toward_balance, is_settled, balance_change,
}
use pos.Payments.Balance.{approved_amount, balance_of-settled}
use pos.CartService.{OpenCart, adjustment_of, balance}
use pos.Sales.{is_cash}
use pos.Checkout.Handlers.{is_cash_in, handed_over, cash_loop, surplus_of, add_change, change_of}

abbrev pub cash_owed : PaymentAttempt → Money
cash_owed a = if is_cash_in a then a.amount else nonneg 0

abbrev pub cash_given : PaymentAttempt → Money
cash_given a = if is_cash_in a then handed_over a else nonneg 0

-- What the shop holds of an approved attempt: the cash handed over, or the amount of a transfer.
abbrev pub money_in : PaymentAttempt → Money
money_in a =
    if counts_toward_balance a.state
    then (if is_cash a.method then handed_over a else a.amount)
    else nonneg 0

cash_loop-sums :
    (attempts : List PaymentAttempt) (owed given : Money)
    → cash_loop attempts owed given
      ≡ (owed +ℤ sum_by cash_owed attempts, given +ℤ sum_by cash_given attempts)
unfolding cash_loop
cash_loop-sums [] owed given = rw (+ℤ-zero owed, +ℤ-zero given) refl
cash_loop-sums (a ∷ attempts) owed given =
    let more = sum_by cash_owed attempts in
    let rest = sum_by cash_given attempts in
    elim (Bool-cases (is_cash_in a)) [
      | inl e ↦ rw e (
          cash_loop-sums attempts (owed +ℤ a.amount) (given +ℤ handed_over a)
          ∙ rw (+ℤ_assoc owed a.amount more, +ℤ_assoc given (handed_over a) rest) refl)
      | inr e ↦ rw (e, zero-+ℤ more, zero-+ℤ rest) (cash_loop-sums attempts owed given)
    ]

one_attempt : (a : PaymentAttempt) → money_in a +ℤ cash_owed a ≡ approved_amount a +ℤ cash_given a
one_attempt a = elim (Bool-cases (state_eq a.state approved)) [
  | inl e ↦ elim (Bool-cases (is_cash a.method)) [
    | inl c ↦ rw (e, c) (omega int_laws)
    | inr c ↦ rw (e, c) refl
  ]
  | inr e ↦ elim (Bool-cases (is_cash a.method)) [ inl c ↦ rw (e, c) refl | inr c ↦ rw (e, c) refl ]
]

money_in-sum :
    (attempts : List PaymentAttempt)
    → sum_by money_in attempts +ℤ sum_by cash_owed attempts
      ≡ sum_by approved_amount attempts +ℤ sum_by cash_given attempts
money_in-sum [] = refl
money_in-sum (a ∷ attempts) =
    omega (int_laws, parts_of_eq (one_attempt a), parts_of_eq (money_in-sum attempts))

surplus_of-ok : (owed given : Money) → owed ≤ℤ given → surplus_of (owed, given) ≡ ok (given -ℤ owed)
unfolding change_due
surplus_of-ok owed given h = elim (Bool-cases (ltb_ℤ owed given)) [
  | inl e ↦ let no : ltb_ℤ given owed ≡ false = ground arith in rw (e, no) refl
  | inr e ↦
      let zero_ : zero_money ≡ given -ℤ owed =
        eq_of_parts zero_money (given -ℤ owed) (ground (arith, -ℤ_parts given owed)) in
      rw e (ap ok zero_)
]

-- On a settled cart whose cash covers what was asked of it in cash, the change is made and is not
-- negative; what the shop took in is the total of the sale with its rounding, and the change.
pub change_of_lem :
    (o : OpenCart)
    → is_settled (balance o) ≡ true
    → sum_by cash_owed o.attempts ≤ℤ sum_by cash_given o.attempts
    → (change : Money) × (change_of o ≡ ok change)
      × (nonneg 0 ≤ℤ change)
      × (total_before_rounding o.cart +ℤ adjustment_of o.rounding +ℤ change
          ≡ sum_by money_in o.attempts)
unfolding change_of balance
change_of_lem o settled covers =
    let owed = sum_by cash_owed o.attempts in
    let given = sum_by cash_given o.attempts in
    let more = balance_change (balance o) in
    let (closes, not_negative, exact, open_, short) =
      balance_of-settled (total_before_rounding o.cart) o.attempts (adjustment_of o.rounding) in
    let loop : cash_loop o.attempts zero_money zero_money ≡ (owed, given) =
      cash_loop-sums o.attempts zero_money zero_money ∙ rw (zero-+ℤ owed, zero-+ℤ given) refl in
    (
      given -ℤ owed +ℤ more,
      ap (λ q. add_change more (surplus_of q)) loop
          ∙ ap (add_change more) (surplus_of-ok owed given covers),
      omega (int_laws, not_negative),
      omega (int_laws, parts_of_eq (exact settled), parts_of_eq (money_in-sum o.attempts)),
    )
