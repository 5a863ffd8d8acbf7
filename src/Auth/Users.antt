-- ===== src/Auth/Users.antt =====
-- The cached identities of app/data/repositories/users.py. A row that is written is sealed anew.
use pos.Prelude.{
  ℕ, suc, Bool, true, ◌&&◌, if◌then◌else◌, not, any, keep, List, [], ◌∷◌, ◌++◌, Option, none, some,
  Text, text_eq,
}
use pos.Lockout.{locked_until}
use pos.Identity.{CachedIdentity}
use pos.Auth.{CachedRow}

-- `SELECT ... WHERE employee_code = ?`, or the first row that satisfies another test
abbrev pub first_row : (CachedIdentity → Bool) → List CachedRow → Option CachedRow
first_row test [] = none
first_row test (row ∷ rows) =
    let rest = first_row test rows in if test row.identity then some row else rest

abbrev pub unsealed : Option CachedRow → Option CachedIdentity
unsealed none = none
unsealed (some row) = if row.is_sealed then some row.identity else none

unfoldable pub get_by_employee_code : Text → List CachedRow → Option CachedIdentity
get_by_employee_code code users = unsealed (first_row (λ i. text_eq i.employee_code code) users)

-- `UPDATE cached_users SET ... WHERE user_id = ?`, and `_reseal`
unfoldable pub update : Text → (CachedIdentity → CachedIdentity) → List CachedRow → List CachedRow
update user_id change [] = []
update user_id change (row ∷ rows) =
    (if text_eq row.identity.user_id user_id
      then record { identity = change row.identity; is_sealed = true }
      else row)
    ∷ update user_id change rows

-- `INSERT ... ON CONFLICT (user_id) DO UPDATE`, which leaves the failures as they are, and the seal
abbrev pub refreshed_by : CachedIdentity → CachedIdentity → CachedIdentity
refreshed_by new old = record new {
  consecutive_pin_failures = old.consecutive_pin_failures;
  pin_locked_until = old.pin_locked_until;
}

abbrev pub inserted : CachedIdentity → CachedRow
inserted new = record {
  identity = record new { consecutive_pin_failures = 0; pin_locked_until = none };
  is_sealed = true;
}

-- `employee_code TEXT NOT NULL UNIQUE`
abbrev pub is_code_taken : CachedIdentity → List CachedRow → Bool
is_code_taken new users =
    any
      (λ row.
        text_eq row.identity.employee_code new.employee_code
        && not (text_eq row.identity.user_id new.user_id))
      users

unfoldable pub upsert : CachedIdentity → List CachedRow → List CachedRow
unfolding update
upsert new users =
    if any (λ row. text_eq row.identity.user_id new.user_id) users
    then update new.user_id (refreshed_by new) users
    else users ++ inserted new ∷ []

-- The two columns that a failure writes.
abbrev pub failed_at : ℕ → CachedIdentity → CachedIdentity
failed_at now i = record i {
  consecutive_pin_failures = suc i.consecutive_pin_failures;
  pin_locked_until = locked_until (suc i.consecutive_pin_failures) now;
}

abbrev pub lock_after : ℕ → Option CachedRow → Option ℕ
lock_after now none = none
lock_after now (some row) = locked_until (suc row.identity.consecutive_pin_failures) now

-- `record_pin_failure`
unfoldable pub record_pin_failure : Text → ℕ → List CachedRow → Option ℕ × List CachedRow
unfolding update
record_pin_failure user_id now users = (
  lock_after now (first_row (λ i. text_eq i.user_id user_id) users),
  update user_id (failed_at now) users,
)

abbrev pub forgiven : CachedIdentity → CachedIdentity
forgiven i = record i { consecutive_pin_failures = 0; pin_locked_until = none }

unfoldable pub clear_pin_failures : Text → List CachedRow → List CachedRow
unfolding update
clear_pin_failures user_id users = update user_id forgiven users

unfoldable pub revoke : Text → List CachedRow → List CachedRow
revoke user_id users = keep (λ row. not (text_eq row.identity.user_id user_id)) users
