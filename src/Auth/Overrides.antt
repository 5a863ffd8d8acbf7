-- ===== src/Auth/Overrides.antt =====
-- `authorize_override` of app/services/auth_service.py.
pub mod Approval
pub mod Safety
pub mod Lends
use pos.Prelude.{
  ℕ, ◌+◌, Bool, true, false, ◌||◌, not, if◌then◌else◌, Option, none, some, Result, ok, err, Text,
  text_eq,
}
use pos.Permissions.{has, is_overridable}
use pos.Identity.{Session, OverrideGrant, CachedIdentity, is_usable, override_grant_ttl}
use pos.CartService.Monad.{Action, continue, ◌>>=◌, ◌>>◌, call, done, raise}
use pos.Auth.{
  AuthError, login_failed, no_offline_identity, pin_locked, nothing_to_authorise,
  cannot_authorise_self, approver_lacks_permission, not_signed_in, not_overridable, AuditEntry,
  granted, refused, Terminal, Operation, record_audit, grant,
}
use pos.Auth.Users.{clear_pin_failures}
use pos.Auth.Service.{
  as_code, ensure_not_locked, verify_cached_pin, count_cloud_failure, revoke_cached,
}

-- How the cloud's `authorize_override` ends: it raises `InvalidCredentials`, `ApproverNotPermitted`,
-- `AccountDisabled` or `AuthUnavailable`, or names the approver.
pub data Verdict : Type 0 where
  invalid not_permitted disabled unavailable : Verdict
  approved : Text → Text → Verdict

-- `_Approver`
pub record Approver : Type 0 where
  pub user_id : Text
  pub employee_code : Text

abbrev pub approver_of : CachedIdentity → Approver
approver_of i = record { user_id = i.user_id; employee_code = i.employee_code }

abbrev pub id_of : Option CachedIdentity → Option Text
id_of none = none
id_of (some i) = some i.user_id

-- `identity is not None and identity.user_id == cashier.user_id`
abbrev pub is_same_person : Option CachedIdentity → Session → Bool
is_same_person none cashier = false
is_same_person (some i) cashier = text_eq i.user_id cashier.user_id

abbrev pub is_refusal : AuthError → Bool
is_refusal login_failed = true
is_refusal pin_locked = true
is_refusal approver_lacks_permission = true
is_refusal _ = false

abbrev pub refusal : Text → Session → Text → Option CachedIdentity → ℕ → AuditEntry
refusal permission cashier code identity now =
    refused permission cashier.store_id cashier.user_id cashier.employee_code (id_of identity) code
      now

-- `except (LoginFailed, PinLocked, ApproverLacksPermission)`, with `_record_refusal`
abbrev pub trailed :
    AuditEntry → Result AuthError Approver × Terminal → Result AuthError Approver × Terminal
trailed entry (ok approver, t) = (ok approver, t)
trailed entry (err e, t) = (err e, if is_refusal e then record_audit entry t else t)

abbrev pub forgive_known : Option CachedIdentity → Terminal → Terminal
forgive_known none t = t
forgive_known (some i) t = record t { users = clear_pin_failures i.user_id t.users }

module _ (verify_pin : Text → Text → Bool) where
  -- `_authorize_offline`
  unfoldable pub authorize_offline : Option CachedIdentity → Text → Text → ℕ → Operation Approver
  authorize_offline none pin permission now t = (err no_offline_identity, t)
  authorize_offline (some i) pin permission now t =
      continue
        (λ _ t'.
          if not (is_usable i now)
          then (err login_failed, t')
          else if not (has i.permissions permission)
          then (err approver_lacks_permission, t')
          else (ok (approver_of i), t'))
        (verify_cached_pin verify_pin i pin now t)

  -- `_authorize_online`
  unfoldable pub authorize_online :
      Verdict → Text → Text → Text → Option CachedIdentity → ℕ → Operation Approver
  authorize_online invalid code pin permission identity now t =
      (count_cloud_failure code now >> raise login_failed) t
  authorize_online not_permitted code pin permission identity now t =
      (err approver_lacks_permission, t)
  authorize_online disabled code pin permission identity now t =
      (revoke_cached code >> raise login_failed) t
  authorize_online unavailable code pin permission identity now t =
      authorize_offline identity pin permission now t
  authorize_online (approved user_id approver_code) code pin permission identity now t =
      (ok (record { user_id = user_id; employee_code = approver_code }), forgive_known identity t)

  abbrev pub authorize :
      Option Verdict → Text → Text → Text → Option CachedIdentity → ℕ → Operation Approver
  authorize none code pin permission identity now t =
      authorize_offline identity pin permission now t
  authorize (some verdict) code pin permission identity now t =
      authorize_online verdict code pin permission identity now t

  -- What follows the verification.
  abbrev pub grant_of : Text → Session → Approver → ℕ → OverrideGrant
  grant_of permission cashier approver now = record {
    permission = permission;
    granted_at = now;
    expires_at = now + override_grant_ttl;
    store_id = cashier.store_id;
    actor_id = cashier.user_id;
    actor_code = cashier.employee_code;
    approver_id = approver.user_id;
    approver_code = approver.employee_code;
  }

  unfoldable pub mint : Text → Session → ℕ → Approver → Operation OverrideGrant
  mint permission cashier now approver t =
      if text_eq approver.user_id cashier.user_id
      then (err cannot_authorise_self, t)
      else continue
          (λ _ t'.
            let g = grant_of permission cashier approver now in (ok g, record_audit (granted g) t'))
          (grant permission (now + override_grant_ttl) now (some approver.user_id) t)

  -- From the step that finds the approver on.
  unfoldable pub override_by :
      Option Verdict
      → Text
      → Text
      → Text
      → ℕ
      → Session
      → Option CachedIdentity
      → Operation OverrideGrant
  override_by cloud code pin permission now cashier identity t =
      if text_eq code cashier.employee_code || is_same_person identity cashier
      then (err cannot_authorise_self, t)
      else continue (mint permission cashier now) (
          trailed (refusal permission cashier code identity now)
            (authorize cloud code pin permission identity now t))

  abbrev pub override_for :
      Option Session → Option Verdict → Text → Text → Text → ℕ → Operation OverrideGrant
  override_for none cloud code pin permission now t = (err not_signed_in, t)
  override_for (some cashier) cloud code pin permission now t =
      if has cashier.permissions permission
      then (err nothing_to_authorise, t)
      else (ensure_not_locked code now >>= override_by cloud code pin permission now cashier) t

  -- `authorize_override`
  unfoldable pub authorize_override :
      Option Verdict → Text → Text → Text → ℕ → Operation OverrideGrant
  authorize_override cloud code pin permission now t =
      if not (is_overridable permission)
      then (err not_overridable, t)
      else override_for t.session cloud (as_code code) pin permission now t
