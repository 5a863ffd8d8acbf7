-- ===== src/Register/Reads.antt =====
-- What a shift reads: app/data/repositories/shifts.py.
use pos.Prelude.{
  leb, Bool, false, ◌&&◌, if◌then◌else◌, any, keep, map, sort_by, List, [], ◌∷◌, Option, none, some,
  Text, text_eq,
}
use pos.Tender.{TenderMethod}
use pos.Shift.{PaymentMethod, CashMovementRow, Direction}
use pos.Shift as Shift
use pos.Sales.{SaleRow, SaleStatus, ReviewOutcome, ReviewRow, PaymentRow, Database}
use pos.Register.{SessionRow, CloseRow, Register}

-- `current`
unfoldable pub current_in : Text → List SessionRow → Option SessionRow
current_in terminal_id [] = none
current_in terminal_id (s ∷ sessions) =
    let rest = current_in terminal_id sessions in
    if text_eq s.terminal_id terminal_id && s.is_open then some s else rest

abbrev pub is_of : Text → Option Text → Bool
is_of session_id none = false
is_of session_id (some s) = text_eq s session_id

-- `WHERE s.session_id = ?`
abbrev pub sales_in : Text → List SaleRow → List SaleRow
sales_in session_id sales = keep (λ s. is_of session_id s.session_id) sales

abbrev pub status_read : SaleStatus → Shift.SaleStatus
status_read SaleStatus.completed = Shift.SaleStatus.completed
status_read SaleStatus.requires_review = Shift.SaleStatus.requires_review

abbrev pub outcome_read : ReviewOutcome → Shift.ReviewOutcome
outcome_read ReviewOutcome.paid = Shift.ReviewOutcome.paid
outcome_read ReviewOutcome.not_paid = Shift.ReviewOutcome.not_paid

abbrev pub newest : List ReviewRow → Option Shift.ReviewOutcome
newest [] = none
newest (r ∷ reviews) = some (outcome_read r.outcome)

-- The subquery for the outcome.
abbrev pub outcome_of : List ReviewRow → Text → Option Shift.ReviewOutcome
outcome_of reviews sale_id = newest (
    sort_by (λ a b. leb b.resolved_at a.resolved_at)
      (keep (λ r. text_eq r.sale_id sale_id) reviews))

abbrev pub sale_read : List ReviewRow → SaleRow → Shift.SaleRow
sale_read reviews s = record {
  sale_id = s.id;
  status = status_read s.status;
  grand_total = s.grand_total;
  rounding_adjustment = s.rounding_adjustment;
  review_outcome = outcome_of reviews s.id;
}

unfoldable pub sales_for : Text → Database → List Shift.SaleRow
sales_for session_id db = map (sale_read db.reviews) (sales_in session_id db.sales)

abbrev pub method_read : TenderMethod → PaymentMethod
method_read TenderMethod.cash = PaymentMethod.cash
method_read TenderMethod.upi = PaymentMethod.upi

abbrev pub payment_read : PaymentRow → Shift.PaymentRow
payment_read p = record {
  sale_id = p.sale_id;
  method = method_read p.method;
  amount = p.amount;
  verified = p.verified;
}

-- `payments p JOIN sales s ON s.id = p.sale_id`; an id is the key of a sale
unfoldable pub payments_for : Text → Database → List Shift.PaymentRow
payments_for session_id db =
    map payment_read
      (keep (λ p. any (λ s. text_eq s.id p.sale_id) (sales_in session_id db.sales)) db.payments)

unfoldable pub movements_for : Text → Register → List CashMovementRow
movements_for session_id r =
    map (λ m. record { direction = m.direction; amount = m.amount })
      (keep (λ m. text_eq m.session_id session_id) r.movements)

-- The row that `close_for` reads.
unfoldable pub close_in : Text → List CloseRow → Option CloseRow
close_in session_id [] = none
close_in session_id (c ∷ closes) =
    let rest = close_in session_id closes in
    if text_eq c.session_id session_id then some c else rest
