-- ===== src/Sync/Backoff.antt =====
-- app/sync/backoff.py: how long to wait after a failure. A number of seconds is a whole number, as
-- it is for every wait that the program makes of its defaults, 1 and 300.
pub mod Waits
use pos.Prelude.{ℕ, ◌*◌, ◌<◌, ◌==◌, min, ltb, Bool, if◌then◌else◌}

pub record Backoff : Type 0 where
  pub first_seconds : ℕ
  pub cap_seconds : ℕ
  pub current : ℕ

abbrev pub default_backoff : Backoff
default_backoff = record { first_seconds = 1; cap_seconds = 300; current = 0 }

-- The property `seconds`
abbrev pub seconds : Backoff → ℕ
seconds b = b.current

-- `Backoff.fail`; the wait that it returns is `seconds` of the result.
unfoldable pub fail : Backoff → Backoff
fail b = record b {
  current = if b.current == 0 then b.first_seconds else min (b.current * 2) b.cap_seconds;
}

unfoldable pub reset : Backoff → Backoff
reset b = record b { current = 0 }

abbrev pub is_backing_off : Backoff → Bool
is_backing_off b = ltb 0 b.current
