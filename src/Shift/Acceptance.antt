-- ===== src/Shift/Acceptance.antt =====
-- When `figures` of app/domain/shift.py returns, and when it raises.
use pos.Prelude.{
  ◌≡◌, refl, ◌↔◌, ◌||◌, not, Bool, Bool-cases, true, false, List, [], ◌∷◌, all, Option,
  Option-cases, inl, inr, none, some, ok, err-ne-ok, >>=-eq-ok, >>=-ok, arith,
}
use pos.Money.{Money}
use pos.Shift.{
  SaleRow, PaymentRow, PaymentMethod, cash, upi, other_method, CashMovementRow, Direction, into,
  out_of, other_direction, ShiftFigures, counts, by_id, find_sale, Taken, add_payment, take_payment,
  take_payments, Moved, move_cash, move_all, nothing_taken, nothing_moved, figures, figures_of,
}

abbrev pub has_line : PaymentMethod → Bool
has_line cash = true
has_line upi = true
has_line other_method = false

abbrev pub is_known : Direction → Bool
is_known into = true
is_known out_of = true
is_known other_direction = false

-- A payment of a known sale, with a line on the report if the sale counts.
abbrev pub accepted_for : Option SaleRow → PaymentMethod → Bool
accepted_for none method = false
accepted_for (some sale) method = not (counts sale) || has_line method

abbrev pub is_accepted : List SaleRow → PaymentRow → Bool
is_accepted rows p = accepted_for (find_sale p.sale_id rows) p.method

add_payment_iff :
    (method : PaymentMethod) (amount : Money) (verified : Bool) (t : Taken)
    → (has_line method ≡ true) ↔ ((u : Taken) × (add_payment method amount verified t ≡ ok u))
unfolding add_payment
add_payment_iff cash amount verified t = (λ e. (_, refl), λ r. refl)
add_payment_iff upi amount true t = (λ e. (_, refl), λ r. refl)
add_payment_iff upi amount false t = (λ e. (_, refl), λ r. refl)
add_payment_iff other_method amount verified t = (λ e. cc, λ r. err-ne-ok r.1)

take_payment_iff :
    (rows : List SaleRow) (p : PaymentRow) (t : Taken)
    → (is_accepted rows p ≡ true) ↔ ((u : Taken) × (take_payment rows p t ≡ ok u))
unfolding take_payment
take_payment_iff rows p t = elim (Option-cases (find_sale p.sale_id rows)) [
  | inl e ↦ rw (take_payment, e) (λ h. cc, λ r. err-ne-ok r.1)
  | inr (sale, e) ↦ elim (Bool-cases (counts sale)) [
    | inl c ↦ rw (take_payment, e, c) (add_payment_iff p.method p.amount p.verified t)
    | inr c ↦ rw (take_payment, e, c) (λ h. (t, refl), λ r. refl)
  ]
]

take_payments_iff :
    (rows : List SaleRow) (payments : List PaymentRow) (t : Taken)
    → (all (is_accepted rows) payments ≡ true)
      ↔ ((u : Taken) × (take_payments rows payments t ≡ ok u))
unfolding take_payments
take_payments_iff rows [] t = (λ h. (t, refl), λ r. refl)
take_payments_iff rows (p ∷ payments) t = (
  λ h.
      let (v, first) = (take_payment_iff rows p t).0 (ground arith) in
      let (u, rest) = (take_payments_iff rows payments v).0 (ground arith) in
      (u, >>=-ok _ {r = ok u} first rest),
  λ r.
      let (v, first, rest) = >>=-eq-ok (take_payment rows p t) _ r.1 in
      rw
        (
          (take_payment_iff rows p t).1 (v, first),
          (take_payments_iff rows payments v).1 (r.0, rest),
        )
        refl,
)

move_cash_iff :
    (d : Direction) (amount : Money) (m : Moved)
    → (is_known d ≡ true) ↔ ((n : Moved) × (move_cash d amount m ≡ ok n))
unfolding move_cash
move_cash_iff into amount m = (λ e. (_, refl), λ r. refl)
move_cash_iff out_of amount m = (λ e. (_, refl), λ r. refl)
move_cash_iff other_direction amount m = (λ e. cc, λ r. err-ne-ok r.1)

move_all_iff :
    (movements : List CashMovementRow) (m : Moved)
    → (all (λ x. is_known x.direction) movements ≡ true)
      ↔ ((n : Moved) × (move_all movements m ≡ ok n))
unfolding move_all
move_all_iff [] m = (λ h. (m, refl), λ r. refl)
move_all_iff (x ∷ movements) m = (
  λ h.
      let (v, first) = (move_cash_iff x.direction x.amount m).0 (ground arith) in
      let (u, rest) = (move_all_iff movements v).0 (ground arith) in
      (u, >>=-ok _ {r = ok u} first rest),
  λ r.
      let (v, first, rest) = >>=-eq-ok (move_cash x.direction x.amount m) _ r.1 in
      rw
        (
          (move_cash_iff x.direction x.amount m).1 (v, first),
          (move_all_iff movements v).1 (r.0, rest),
        )
        refl,
)

-- The figures are computed, and nothing is raised, exactly when every payment is of a sale among
-- the rows, every payment of a sale that counts is by cash or UPI, and every movement of cash is
-- in or out.
pub figures_iff :
    (opening_float : Money) (sales : List SaleRow) (payments : List PaymentRow)
    (movements : List CashMovementRow)
    → ((all (is_accepted (by_id [] sales)) payments ≡ true)
        × (all (λ x. is_known x.direction) movements ≡ true))
      ↔ ((f : ShiftFigures) × (figures opening_float sales payments movements ≡ ok f))
unfolding figures
figures_iff opening_float sales payments movements = (
  λ (hp, hm).
      let (taken, first) = (take_payments_iff (by_id [] sales) payments nothing_taken).0 hp in
      let (moved, second) = (move_all_iff movements nothing_moved).0 hm in
      (
        figures_of opening_float (by_id [] sales) taken moved,
        >>=-ok _ first (>>=-ok _ second refl),
      ),
  λ r.
      let (taken, first, after) =
        >>=-eq-ok (take_payments (by_id [] sales) payments nothing_taken) _ r.1 in
      let (moved, second, last) = >>=-eq-ok (move_all movements nothing_moved) _ after in
      (
        (take_payments_iff (by_id [] sales) payments nothing_taken).1 (taken, first),
        (move_all_iff movements nothing_moved).1 (moved, second),
      ),
)
