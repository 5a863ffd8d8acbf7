-- ===== src/Register/Closing.antt =====
-- The close of a shift, `close` of app/services/shift_service.py.
use pos.Prelude.{
  ℕ, suc, ◌≡◌, true, false, ◌&&◌, any, Option, none, some, Result, ok, err, Text, text_eq,
}
use pos.Money.{Money, is_negative}
use pos.Shift.{ShiftFigures, figures}
use pos.Sync.Outbox.{backlog}
use pos.Register.{
  SessionRow, CloseRow, Register, RegisterError, negative_count, not_open, not_unique,
}
use pos.Register.Reads.{sales_for, payments_for, movements_for, close_in}
use pos.Register.Service.{current, close_row}

module _ (new_id : ℕ → Text) (terminal_code : Text) where
  -- How a close ends.
  pub data Closed (closed_by : Text) (counted_cash : Money) (said : Option Text) (now : ℕ)
      (r : Register) : Result RegisterError (Text × ShiftFigures) × Register → Type 0 where
    miscounted :
        is_negative counted_cash ≡ true
        → Closed closed_by counted_cash said now r (err negative_count, r)
    nothing_open :
        current new_id terminal_code r ≡ none
        → Closed closed_by counted_cash said now r (err not_open, r)
    closed_before :
        (s : SessionRow) (c : CloseRow)
        → current new_id terminal_code r ≡ some s
        → close_in s.id r.closes ≡ some c
        → Closed closed_by counted_cash said now r (err not_unique, r)
    closes :
        (s : SessionRow) (f : ShiftFigures) (r' : Register)
        → is_negative counted_cash ≡ false
        → current new_id terminal_code r ≡ some s
        → figures s.opening_float
            (sales_for s.id r.db)
            (payments_for s.id r.db)
            (movements_for s.id r)
          ≡ ok f
        → close_in s.id r'.closes
          ≡ some (close_row new_id terminal_code s closed_by counted_cash said now f r)
        → any (λ x. text_eq x.id s.id && x.is_open) r'.sessions ≡ false
        → backlog r'.db.outbox ≡ suc (backlog r.db.outbox)
        → Closed closed_by counted_cash said now r (ok (new_id r.db.drawn, f), r')
