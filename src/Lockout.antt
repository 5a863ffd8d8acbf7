-- ===== src/Lockout.antt =====
-- app/domain/lockout.py: how long a PIN stays locked. Times are seconds since some start.
pub mod Window
use pos.Prelude.{
  ℕ, ◌+◌, ◌-◌, ◌*◌, ◌/◌, ◌%◌, ◌^◌, ◌≤◌, ◌<◌, ◌≡◌, ◌↔◌, ◌⊎◌, inl, inr, refl, min, ltb, Bool,
  Bool-cases, true, false, if◌then◌else◌, Option, none, some, arith,
}

-- `FAILURES_BEFORE_LOCK`, `FIRST_LOCKOUT`, `MAX_LOCKOUT` and `_MAX_DOUBLINGS`
abbrev pub failures_before_lock : ℕ
failures_before_lock = 5

abbrev pub first_lockout : ℕ
first_lockout = 15 * 60

abbrev pub max_lockout : ℕ
max_lockout = 60 * 60

abbrev pub max_doublings : ℕ
max_doublings = 8

unfoldable pub lockout_after : ℕ → Option ℕ
lockout_after consecutive_failures =
    if ltb consecutive_failures failures_before_lock
    then none
    else (let batch = consecutive_failures / failures_before_lock in
        let doublings = min (batch - 1) max_doublings in
        let grown = first_lockout * 2 ^ doublings in some (min grown max_lockout))

unfoldable pub locked_until : ℕ → ℕ → Option ℕ
unfolding lockout_after
locked_until consecutive_failures now = elim (lockout_after consecutive_failures) [
  | none ↦ none
  | some window ↦ some (now + window)
]

unfoldable pub is_locked : Option ℕ → ℕ → Bool
is_locked none now = false
is_locked (some until) now = ltb now until
