-- ===== src/Register/Service.antt =====
-- `open`, `move_cash` and `close` of app/services/shift_service.py.
use pos.Prelude.{
  ℕ, suc, ◌+◌, ◌==◌, Bool, true, false, not, if◌then◌else◌, map, length, [], ◌∷◌, ◌++◌, Option,
  none, some, Result, ok, err, map_err, raise_if, Text, text_eq, codes,
}
use pos.Money.{Money, is_negative, is_positive}
use pos.Barcode.Parser.{strip}
use pos.CartService.Monad.{Action, ◌>>=◌, ◌>>◌, call, done, raise}
use pos.Shift.{Direction, other_direction, ShiftFigures, figures, expected_cash, variance}
use pos.Sync.Outbox.{enqueue}
use pos.Sales.{Database}
use pos.Sales.Repository.{next_client_seq}
use pos.Register.{
  SessionRow, MovementRow, CloseRow, TrailRow, Register, RegisterError, negative_float,
  already_open, not_open, no_direction, no_amount, no_reason, negative_count, not_unique,
  figures_error,
}
use pos.Register.Reads.{current_in, sales_for, payments_for, movements_for, close_in}

abbrev pub Operation : Type 0 → Type 0
Operation = Action Register RegisterError

-- `_queue` with an empty payload, after `n` identifiers were drawn
abbrev pub queue : Text → Text → ℕ → ℕ → Database → Database
queue entity entity_id at n db =
    let db' = next_client_seq db in
    record db' {
      outbox = enqueue entity entity_id (codes "{}") db'.client_seq at db'.outbox;
      drawn = db'.drawn + n;
    }

abbrev pub is_movable : Direction → Bool
is_movable other_direction = false
is_movable _ = true

module _ (new_id : ℕ → Text) (terminal_code : Text) where
  abbrev pub current : Register → Option SessionRow
  current r = current_in terminal_code r.sessions

  abbrev pub opened_or_raise : Option SessionRow → Operation SessionRow
  opened_or_raise none = raise not_open
  opened_or_raise (some s) = done s

  -- `require_open`
  abbrev pub require_open : Operation SessionRow
  require_open r = opened_or_raise (current r) r

  abbrev pub closed_or_raise : Option SessionRow → Operation (Unit {0})
  closed_or_raise none = done tt
  closed_or_raise (some s) = raise already_open

  -- `ShiftRepository.open`
  unfoldable pub insert_session : Text → Text → Money → ℕ → Operation SessionRow
  insert_session user_id store_id opening_float now r =
      let s : SessionRow = record {
        id = new_id r.db.drawn;
        terminal_id = terminal_code;
        user_id = user_id;
        opened_at = now;
        opening_float = opening_float;
        is_open = true;
        store_id = store_id;
      } in
      (
        ok s,
        record r {
          sessions = r.sessions ++ s ∷ [];
          db = record (queue (codes "register_session") s.id now 1 r.db) {
            session_ids = r.db.session_ids ++ s.id ∷ [];
          };
        },
      )

  -- `open`
  unfoldable pub open_shift : Text → Text → Money → ℕ → Operation SessionRow
  open_shift user_id store_id opening_float now = do
    call (raise_if (is_negative opening_float) negative_float)
    λ r. closed_or_raise (current r) r
    insert_session user_id store_id opening_float now

  -- `ShiftRepository.record_cash_movement`
  unfoldable pub record_cash_movement :
      Direction → Money → Text → Text → Option Text → ℕ → SessionRow → Operation Text
  record_cash_movement direction amount reason actor_id approved_by now s r =
      let m : MovementRow = record {
        id = new_id r.db.drawn;
        session_id = s.id;
        direction = direction;
        amount = amount;
        reason = reason;
        actor_id = actor_id;
        approved_by = approved_by;
        occurred_at = now;
      } in
      let row : TrailRow = record {
        id = new_id (suc r.db.drawn);
        actor_id = actor_id;
        approver_id = approved_by;
        entity_id = m.id;
        amounts = amount ∷ [];
        occurred_at = now;
      } in
      (
        ok m.id,
        record r {
          movements = r.movements ++ m ∷ [];
          trail = r.trail ++ row ∷ [];
          db = queue (codes "cash_movement") m.id now 2 r.db;
        },
      )

  -- `move_cash`
  unfoldable pub move_cash : Direction → Money → Text → Text → Option Text → ℕ → Operation Text
  move_cash direction amount reason actor_id approved_by now = do
    call (raise_if (not (is_movable direction)) no_direction)
    call (raise_if (not (is_positive amount)) no_amount)
    call (raise_if (length (strip reason) == 0) no_reason)
    s ← require_open
    record_cash_movement direction amount (strip reason) actor_id approved_by now s

  -- `figures`
  unfoldable pub figures_for : SessionRow → Register → Result RegisterError ShiftFigures
  figures_for s r = map_err figures_error (
      figures s.opening_float (sales_for s.id r.db) (payments_for s.id r.db) (movements_for s.id r))

  -- `UPDATE register_sessions SET status = 'closed' WHERE id = ?`
  abbrev pub shut : Text → SessionRow → SessionRow
  shut session_id s = if text_eq s.id session_id then record s { is_open = false } else s

  abbrev pub close_row :
      SessionRow → Text → Money → Option Text → ℕ → ShiftFigures → Register → CloseRow
  close_row s closed_by counted_cash said now f r = record {
    id = new_id r.db.drawn;
    session_id = s.id;
    closed_at = now;
    closed_by = closed_by;
    counted_cash = counted_cash;
    expected = expected_cash f;
    difference = variance f counted_cash;
    stored = f;
    note = said;
  }

  abbrev pub close_trail : SessionRow → Text → Money → ℕ → ShiftFigures → Register → TrailRow
  close_trail s closed_by counted_cash now f r = record {
    id = new_id (suc r.db.drawn);
    actor_id = closed_by;
    approver_id = none;
    entity_id = s.id;
    amounts = counted_cash ∷ expected_cash f ∷ variance f counted_cash ∷ [];
    occurred_at = now;
  }

  abbrev pub close_with :
      SessionRow → Text → Money → Option Text → ℕ → ShiftFigures → Option CloseRow → Operation Text
  close_with s closed_by counted_cash said now f (some c) r = (err not_unique, r)
  close_with s closed_by counted_cash said now f none r =
      let c = close_row s closed_by counted_cash said now f r in
      (
        ok c.id,
        record r {
          closes = r.closes ++ c ∷ [];
          sessions = map (shut s.id) r.sessions;
          trail = r.trail ++ close_trail s closed_by counted_cash now f r ∷ [];
          db = queue (codes "shift_close") c.id now 2 r.db;
        },
      )

  -- `ShiftRepository.close`, which the index refuses for a session that has a close
  unfoldable pub write_close :
      SessionRow → Text → Money → Option Text → ℕ → ShiftFigures → Operation Text
  write_close s closed_by counted_cash said now f r =
      close_with s closed_by counted_cash said now f (close_in s.id r.closes) r

  -- `close`
  unfoldable pub close : Text → Money → Option Text → ℕ → Operation (Text × ShiftFigures)
  close closed_by counted_cash said now = do
    call (raise_if (is_negative counted_cash) negative_count)
    s ← require_open
    f ← λ r. (figures_for s r, r)
    close_id ← write_close s closed_by counted_cash said now f
    done (close_id, f)
