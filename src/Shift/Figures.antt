-- ===== src/Shift/Figures.antt =====
-- What the figures of app/domain/shift.py add up to.
use pos.Prelude.{
  ℤ, nonneg, ◌+ℤ◌, ◌-ℤ◌, ◌≡◌, refl, ◌∙◌, ap, subst, ◌&&◌, Bool, Bool-cases, true, false,
  if◌then◌else◌, List, [], ◌∷◌, map, keep, Option, Option-cases, inl, inr, none, some, ok,
  ok-injective, err-ne-ok, >>=-eq-ok, sum_by, int_laws,
}
use pos.Money.{Money, total}
use pos.Shift.{
  SaleRow, PaymentRow, PaymentMethod, cash, upi, other_method, CashMovementRow, Direction, into,
  out_of, other_direction, ShiftFigures, expected_cash, takings, variance, counts, by_id, find_sale,
  Taken, add_payment, take_payment, take_payments, Moved, move_cash, move_all, nothing_taken,
  nothing_moved, figures_of, figures, under_review,
}

abbrev pub found_counts : Option SaleRow → Bool
found_counts none = false
found_counts (some sale) = counts sale

-- Whether a payment's sale is among the rows and counts.
abbrev pub belongs : List SaleRow → PaymentRow → Bool
belongs rows p = found_counts (find_sale p.sale_id rows)

abbrev pub is_cash : PaymentMethod → Bool
is_cash cash = true
is_cash upi = false
is_cash other_method = false

-- What a payment adds to the drawer, and to the takings.
abbrev pub cash_amount : List SaleRow → PaymentRow → Money
cash_amount rows p = if belongs rows p && is_cash p.method then p.amount else nonneg 0

abbrev pub counted_amount : List SaleRow → PaymentRow → Money
counted_amount rows p = if belongs rows p then p.amount else nonneg 0

-- What a movement adds to the drawer.
abbrev pub signed : Direction → Money → Money
signed into amount = amount
signed out_of amount = nonneg 0 -ℤ amount
signed other_direction amount = nonneg 0

abbrev pub signed_amount : CashMovementRow → Money
signed_amount x = signed x.direction x.amount

abbrev sum_of : Taken → Money
sum_of t = t.cash_sales +ℤ t.upi_attested +ℤ t.upi_verified

add_payment-sums :
    (method : PaymentMethod) (amount : Money) (verified : Bool) (t : Taken) {u : Taken}
    → add_payment method amount verified t ≡ ok u
    → (u.cash_sales ≡ t.cash_sales +ℤ (if is_cash method then amount else nonneg 0))
      × (sum_of u ≡ sum_of t +ℤ amount)
unfolding add_payment
add_payment-sums cash amount verified t h = rw (← ok-injective h) (refl, omega int_laws)
add_payment-sums upi amount true t h = rw (← ok-injective h) (omega int_laws, omega int_laws)
add_payment-sums upi amount false t h = rw (← ok-injective h) (omega int_laws, omega int_laws)
add_payment-sums other_method amount verified t h = err-ne-ok h

take_payment-sums :
    (rows : List SaleRow) (p : PaymentRow) (t : Taken) {u : Taken}
    → take_payment rows p t ≡ ok u
    → (u.cash_sales ≡ t.cash_sales +ℤ cash_amount rows p)
      × (sum_of u ≡ sum_of t +ℤ counted_amount rows p)
unfolding take_payment
take_payment-sums rows p t {u} h = elim (Option-cases (find_sale p.sale_id rows)) [
  | inl e ↦ err-ne-ok (rw (take_payment, e) at h)
  | inr (sale, e) ↦ elim (Bool-cases (counts sale)) [
    | inl c ↦
        let b : belongs rows p ≡ true = rw e c in
        rw b (add_payment-sums p.method p.amount p.verified t (rw (take_payment, e, c) at h))
    | inr c ↦
        let b : belongs rows p ≡ false = rw e c in
        let same : t ≡ u = ok-injective (rw (take_payment, e, c) at h) in
        rw (b, ← same) (omega int_laws, omega int_laws)
  ]
]

take_payments-sums :
    (rows : List SaleRow) (payments : List PaymentRow) (t : Taken) {u : Taken}
    → take_payments rows payments t ≡ ok u
    → (u.cash_sales ≡ t.cash_sales +ℤ sum_by (cash_amount rows) payments)
      × (sum_of u ≡ sum_of t +ℤ sum_by (counted_amount rows) payments)
unfolding take_payments
take_payments-sums rows [] t h = rw (← ok-injective h) (omega int_laws, omega int_laws)
take_payments-sums rows (p ∷ payments) t {u} h =
    let (v, first, rest) = >>=-eq-ok (take_payment rows p t) _ h in
    let (c, s) = take_payment-sums rows p t first in
    let (cs, ss) = take_payments-sums rows payments v rest in
    (cs ∙ rw c (omega int_laws), ss ∙ rw s (omega int_laws))

move_cash-sum :
    (d : Direction) (amount : Money) (m : Moved) {n : Moved}
    → move_cash d amount m ≡ ok n
    → n.cash_in -ℤ n.cash_out ≡ m.cash_in -ℤ m.cash_out +ℤ signed d amount
unfolding move_cash
move_cash-sum into amount m h = rw (← ok-injective h) (omega int_laws)
move_cash-sum out_of amount m h = rw (← ok-injective h) (omega int_laws)
move_cash-sum other_direction amount m h = err-ne-ok h

move_all-sum :
    (movements : List CashMovementRow) (m : Moved) {n : Moved}
    → move_all movements m ≡ ok n
    → n.cash_in -ℤ n.cash_out ≡ m.cash_in -ℤ m.cash_out +ℤ sum_by signed_amount movements
unfolding move_all
move_all-sum [] m h = rw (← ok-injective h) (omega int_laws)
move_all-sum (x ∷ movements) m h =
    let (v, first, rest) = >>=-eq-ok (move_cash x.direction x.amount m) _ h in
    move_all-sum movements v rest ∙ rw (move_cash-sum x.direction x.amount m first) (omega int_laws)

total-eq-sum_by : {A : Type 0} (f : A → ℤ) (xs : List A) → total (map f xs) ≡ sum_by f xs
total-eq-sum_by f [] = refl
total-eq-sum_by f (x ∷ xs) = ap (f x +ℤ◌) (total-eq-sum_by f xs)

-- The expected cash and the variance of a record of figures.
expected_cash-eq :
    (f : ShiftFigures)
    → expected_cash f ≡ f.opening_float +ℤ f.cash_sales +ℤ (f.cash_in -ℤ f.cash_out)
unfolding expected_cash
expected_cash-eq f = omega int_laws

variance-sum :
    (f : ShiftFigures) (counted : Money) → expected_cash f +ℤ variance f counted ≡ counted
unfolding variance
variance-sum f counted = omega int_laws

takings-eq : (f : ShiftFigures) → takings f ≡ f.cash_sales +ℤ f.upi_attested +ℤ f.upi_verified
unfolding takings
takings-eq f = refl

abbrev pub Sums :
    Money → List SaleRow → List PaymentRow → List CashMovementRow → ShiftFigures → Type 0
Sums opening_float rows payments movements f =
    (takings f ≡ sum_by (counted_amount rows) payments)
    × (expected_cash f
        ≡ opening_float +ℤ sum_by (cash_amount rows) payments +ℤ sum_by signed_amount movements)
    × (f.rounding ≡ sum_by (λ s. s.rounding_adjustment) (keep counts rows))
    × (f.under_review_total ≡ sum_by (λ s. s.grand_total) (under_review rows))

figures_of-Sums :
    (opening_float : Money) (rows : List SaleRow) (payments : List PaymentRow)
    (movements : List CashMovementRow) (taken : Taken) (moved : Moved)
    → take_payments rows payments nothing_taken ≡ ok taken
    → move_all movements nothing_moved ≡ ok moved
    → Sums opening_float rows payments movements (figures_of opening_float rows taken moved)
unfolding figures_of
figures_of-Sums opening_float rows payments movements taken moved first second =
    let (c, s) = take_payments-sums rows payments nothing_taken first in
    let m = move_all-sum movements nothing_moved second in
    let f = figures_of opening_float rows taken moved in
    (
      takings-eq f ∙ s ∙ omega int_laws,
      expected_cash-eq f ∙ rw (c, m) (omega int_laws),
      total-eq-sum_by (λ s. s.rounding_adjustment) (keep counts rows),
      total-eq-sum_by (λ s. s.grand_total) (under_review rows),
    )

-- When the figures of a shift can be computed: the takings are the payments of the sales that
-- count; the expected cash is the opening float, the cash among those payments, and the movements
-- of the drawer with their signs; the rounding is that of the sales that count, and is in neither;
-- and the variance is what a count of the drawer has beyond the expected cash.
pub figures-Sums :
    (opening_float : Money) (sales : List SaleRow) (payments : List PaymentRow)
    (movements : List CashMovementRow) (counted_cash : Money) {f : ShiftFigures}
    → figures opening_float sales payments movements ≡ ok f
    → Sums opening_float (by_id [] sales) payments movements f
      × (expected_cash f +ℤ variance f counted_cash ≡ counted_cash)
unfolding figures
figures-Sums opening_float sales payments movements counted_cash {f} h =
    let rows = by_id [] sales in
    let (taken, first, after) = >>=-eq-ok (take_payments rows payments nothing_taken) _ h in
    let (moved, second, last) = >>=-eq-ok (move_all movements nothing_moved) _ after in
    (
      subst (Sums opening_float rows payments movements) (ok-injective last)
          (figures_of-Sums opening_float rows payments movements taken moved first second),
      variance-sum f counted_cash,
    )
