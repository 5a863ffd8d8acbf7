-- ===== src/Auth.antt =====
-- app/services/auth_service.py: the session of the terminal, sign-in, and a supervisor who lends a
-- permission. The cached identities are those of app/data/repositories/users.py. `verify_pin` is the
-- check of a PIN against its hash; what the cloud answered is given, `none` where there is no cloud.
-- Every terminal has an audit log here, and what its rows put in the outbox is left out. `now` is the
-- clock.
pub mod Users
pub mod Service
pub mod Overrides
pub mod Throttle
use pos.Prelude.{
  ℕ, ◌+◌, leb, Bool, true, false, not, if◌then◌else◌, List, [], ◌∷◌, ◌++◌, Option, none, some,
  Result, ok, err, raise_if, Text,
}
use pos.Permissions.{is_overridable}
use pos.Identity.{Session, OverrideGrant, CachedIdentity}
use pos.Identity.Grants.{lend}
use pos.CartService.Monad.{Action, ◌>>=◌, ◌>>◌, call, done, raise}

pub data AuthError : Type 0 where
  login_failed no_offline_identity pin_locked nothing_to_authorise cannot_authorise_self
        approver_lacks_permission not_signed_in not_overridable window_closed not_unique :
      AuthError

-- A row of `cached_users` with its permissions, and whether its seal verifies.
pub record CachedRow : Type 0 where
  pub identity : CachedIdentity
  pub is_sealed : Bool

-- A row of the audit log: `record_override`, `record_override_refused` and `record_lockout`.
pub data AuditEntry : Type 0 where
  granted : OverrideGrant → AuditEntry
  -- permission, store, cashier with code, approver with code, time
  refused : Text → Text → Text → Text → Option Text → Text → ℕ → AuditEntry
  -- store, person with code, failures, end of the lock, time
  locked : Text → Text → Text → ℕ → ℕ → ℕ → AuditEntry

-- `SessionStore`, the cache and the audit log.
pub record Terminal : Type 0 where
  pub session : Option Session
  pub access_token : Option Text
  pub is_revoked : Bool
  pub users : List CachedRow
  pub audit_log : List AuditEntry

abbrev pub Operation : Type 0 → Type 0
Operation = Action Terminal AuthError

abbrev pub set : Session → Option Text → Terminal → Terminal
set session access_token t = record t { session = some session; access_token = access_token }

abbrev pub clear : Terminal → Terminal
clear t = record t { session = none; access_token = none; is_revoked = false }

abbrev pub mark_revoked : Terminal → Terminal
mark_revoked t = record t { is_revoked = true }

abbrev pub replace_token : Text → Terminal → Terminal
replace_token access_token t = elim t.session [
  | none ↦ t
  | some _ ↦ record t { access_token = some access_token }
]

abbrev pub record_audit : AuditEntry → Terminal → Terminal
record_audit entry t = record t { audit_log = t.audit_log ++ entry ∷ [] }

-- What `grant` does to the session that it finds.
abbrev pub grant_to : Option Session → Text → ℕ → ℕ → Option Text → Operation Session
grant_to none permission until now approver_id t = (err not_signed_in, t)
grant_to (some session) permission until now approver_id t =
    let session' = lend session permission until now approver_id in
    (ok session', record t { session = some session' })

-- `SessionStore.grant`
unfoldable pub grant : Text → ℕ → ℕ → Option Text → Operation Session
grant permission until now approver_id t =
    if not (is_overridable permission)
    then (err not_overridable, t)
    else if leb until now
    then (err window_closed, t)
    else grant_to t.session permission until now approver_id t
