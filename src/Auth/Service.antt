-- ===== src/Auth/Service.antt =====
-- `login` of app/services/auth_service.py and what it shares with `authorize_override`.
use pos.Prelude.{
  ℕ, ◌+◌, ◌==◌, Bool, false, ◌||◌, not, if◌then◌else◌, Option, none, some, ok, err, map_err, Text,
  upper,
}
use pos.Barcode.Parser.{strip}
use pos.Cart.{is_none}
use pos.Identity.{Session, CachedIdentity, is_locked_out, session_of, to_session}
use pos.CartService.Monad.{◌>>=◌, ◌>>◌, call, done, raise}
use pos.Auth.{
  login_failed, no_offline_identity, pin_locked, not_unique, AuditEntry, locked, Terminal,
  Operation, set, clear, record_audit,
}
use pos.Auth.Users.{
  get_by_employee_code, is_code_taken, upsert, record_pin_failure, clear_pin_failures, revoke,
}

-- A `CloudSession`, less the refresh token, which goes to the keychain.
pub record CloudSession : Type 0 where
  pub identity : CachedIdentity
  pub access_token : Text

-- How `authenticate_pin` ends: it raises `InvalidCredentials`, `AccountDisabled` or
-- `AuthUnavailable`, or returns.
pub data CloudAnswer : Type 0 where
  invalid disabled unavailable : CloudAnswer
  accepted : CloudSession → CloudAnswer

-- `employee_code.strip().upper()`
abbrev pub as_code : Text → Text
as_code code = upper (strip code)

abbrev unlocked_or_raise : Option CachedIdentity → ℕ → Operation (Option CachedIdentity)
unlocked_or_raise none now = done none
unlocked_or_raise (some i) now = if is_locked_out i now then raise pin_locked else done (some i)

-- `_ensure_not_locked`
unfoldable pub ensure_not_locked : Text → ℕ → Operation (Option CachedIdentity)
ensure_not_locked code now t = unlocked_or_raise (get_by_employee_code code t.users) now t

abbrev pub locked_by : CachedIdentity → ℕ → ℕ → AuditEntry
locked_by i now until =
    locked i.store_id i.user_id i.employee_code (i.consecutive_pin_failures + 1) until now

abbrev counted : CachedIdentity → ℕ → Option ℕ → Operation (Unit {0})
counted i now none t = (ok tt, t)
counted i now (some until) t = (err pin_locked, record_audit (locked_by i now until) t)

-- `_count_failure`
unfoldable pub count_failure : CachedIdentity → ℕ → Operation (Unit {0})
count_failure i now t =
    let (until, users) = record_pin_failure i.user_id now t.users in
    counted i now until (record t { users = users })

abbrev pub count_known : Option CachedIdentity → ℕ → Operation (Unit {0})
count_known none now = done tt
count_known (some i) now = count_failure i now

-- `_count_cloud_failure`
abbrev pub count_cloud_failure : Text → ℕ → Operation (Unit {0})
count_cloud_failure code now t = count_known (get_by_employee_code code t.users) now t

abbrev pub revoke_known : Option CachedIdentity → Terminal → Terminal
revoke_known none t = t
revoke_known (some i) t = record t { users = revoke i.user_id t.users }

-- `_revoke_cached`
abbrev pub revoke_cached : Text → Operation (Unit {0})
revoke_cached code t = (ok tt, revoke_known (get_by_employee_code code t.users) t)

abbrev pub has_failed : CachedIdentity → Bool
has_failed i = not (i.consecutive_pin_failures == 0) || not (is_none i.pin_locked_until)

-- `_accept_cloud_session`, where the cache takes the row
unfoldable pub accept_cloud_session : CloudSession → ℕ → Operation Session
accept_cloud_session cloud now t =
    let session = session_of cloud.identity false now in
    let users = clear_pin_failures cloud.identity.user_id (upsert cloud.identity t.users) in
    if is_code_taken cloud.identity t.users
    then (err not_unique, t)
    else (ok session, set session (some cloud.access_token) (record t { users = users }))

module _ (verify_pin : Text → Text → Bool) where
  -- `_verify_cached_pin`
  unfoldable pub verify_cached_pin : CachedIdentity → Text → ℕ → Operation (Unit {0})
  verify_cached_pin i pin now t =
      if is_locked_out i now
      then (err pin_locked, t)
      else if verify_pin i.pin_hash pin
      then (
        ok tt,
        (if has_failed i then record t { users = clear_pin_failures i.user_id t.users } else t),
      )
      else (count_failure i now >> raise login_failed) t

  abbrev signed_in : CachedIdentity → Text → ℕ → Operation Session
  signed_in i pin now = do
    verify_cached_pin i pin now
    session ← call (map_err (λ _. login_failed) (to_session i now))
    λ t. (ok session, set session none t)

  abbrev login_known : Option CachedIdentity → Text → ℕ → Operation Session
  login_known none pin now = raise no_offline_identity
  login_known (some i) pin now = signed_in i pin now

  -- `_login_offline`
  unfoldable pub login_offline : Text → Text → ℕ → Operation Session
  login_offline code pin now t = login_known (get_by_employee_code code t.users) pin now t

  abbrev login_with : Option CloudAnswer → Text → Text → ℕ → Operation Session
  login_with (some invalid) code pin now = count_cloud_failure code now >> raise login_failed
  login_with (some disabled) code pin now = revoke_cached code >> raise login_failed
  login_with (some (accepted cloud)) code pin now = accept_cloud_session cloud now
  login_with _ code pin now = login_offline code pin now

  -- `login`
  unfoldable pub login : Option CloudAnswer → Text → Text → ℕ → Operation Session
  login cloud code pin now = do
    ensure_not_locked (as_code code) now
    login_with cloud (as_code code) pin now

abbrev pub logout : Terminal → Terminal
logout t = clear t
