-- ===== src/Register.antt =====
-- app/services/shift_service.py over app/data/repositories/shifts.py: the shifts of a till. `new_id n` is
-- the n-th identifier drawn, `now` the clock. A transaction that the tables refuse writes nothing.
pub mod Reads
pub mod Service
pub mod Accepted
pub mod Closing
use pos.Prelude.{ℕ, Bool, List, Option, Text}
use pos.Money.{Money}
use pos.Shift.{Direction, ShiftError, ShiftFigures}
use pos.Sales.{Database}

-- A row of `register_sessions`.
pub record SessionRow : Type 0 where
  pub id : Text
  pub terminal_id : Text
  pub user_id : Text
  pub opened_at : ℕ
  pub opening_float : Money
  pub is_open : Bool
  pub store_id : Text

-- A row of `cash_movements`.
pub record MovementRow : Type 0 where
  pub id : Text
  pub session_id : Text
  pub direction : Direction
  pub amount : Money
  pub reason : Text
  pub actor_id : Text
  pub approved_by : Option Text
  pub occurred_at : ℕ

-- A row of `shift_closes`, which holds the figures, what they expect and the variance.
pub record CloseRow : Type 0 where
  pub id : Text
  pub session_id : Text
  pub closed_at : ℕ
  pub closed_by : Text
  pub counted_cash : Money
  pub expected : Money
  pub difference : Money
  pub stored : ShiftFigures
  pub note : Option Text

-- A row that a shift writes to the audit log: its id, actor, approver, the record it is about, the
-- amounts in it, and the time.
pub record TrailRow : Type 0 where
  pub id : Text
  pub actor_id : Text
  pub approver_id : Option Text
  pub entity_id : Text
  pub amounts : List Money
  pub occurred_at : ℕ

-- The database of the till with the tables of its shifts.
pub record Register : Type 0 where
  pub db : Database
  pub sessions : List SessionRow
  pub movements : List MovementRow
  pub closes : List CloseRow
  pub trail : List TrailRow

pub data RegisterError : Type 0 where
  negative_float already_open not_open no_direction no_amount no_reason negative_count not_unique :
      RegisterError
  figures_error : ShiftError → RegisterError
