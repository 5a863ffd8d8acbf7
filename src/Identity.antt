-- ===== src/Identity.antt =====
-- app/domain/identity.py: who is signed in, what the session allows, and identities in the cache. A
-- moment is a number of seconds; a dict is a function to an Option.
pub mod Grants
use pos.Prelude.{
  ℕ, ◌+◌, ◌*◌, leb, ltb, max, Bool, true, false, ◌&&◌, not, if◌then◌else◌, List, Option, none, some,
  Result, ok, err, raise_if, ◌>>◌, Text, text_eq, codes,
}
use pos.Lockout.{is_locked}
use pos.Permissions.{has}

-- 14 days
abbrev pub snapshot_ttl : ℕ
snapshot_ttl = 14 * 86_400

abbrev pub override_grant_ttl : ℕ
override_grant_ttl = 90

pub data IdentityError : Type 0 where
  permission_denied snapshot_expired : IdentityError

pub record Session : Type 0 where
  pub user_id : Text
  pub employee_code : Text
  pub full_name : Text
  pub store_id : Text
  pub roles : List Text
  pub permissions : List Text
  pub authenticated_at : ℕ
  pub snapshot_expires_at : ℕ
  pub is_offline : Bool
  pub overrides : Text → Option ℕ
  pub approvers : Text → Option Text

abbrev pub snapshot_is_fresh : Session → ℕ → Bool
snapshot_is_fresh s now = ltb now s.snapshot_expires_at

-- `granted_until is not None and now < granted_until`
abbrev pub is_granted : Option ℕ → ℕ → Bool
is_granted none now = false
is_granted (some until) now = ltb now until

unfoldable pub allows : Session → Text → ℕ → Bool
allows s permission now =
    if not (snapshot_is_fresh s now)
    then false
    else if has s.permissions permission
    then true
    else is_granted (s.overrides permission) now

unfoldable pub approver_for : Session → Text → ℕ → Option Text
approver_for s permission now =
    if has s.permissions permission
    then none
    else if is_granted (s.overrides permission) now
    then s.approvers permission
    else none

unfoldable pub require : Session → Text → ℕ → Result IdentityError (Unit {0})
unfolding allows
require s permission now = raise_if (not (allows s permission now)) permission_denied

pub record OverrideGrant : Type 0 where
  pub permission : Text
  pub granted_at : ℕ
  pub expires_at : ℕ
  pub store_id : Text
  pub actor_id : Text
  pub actor_code : Text
  pub approver_id : Text
  pub approver_code : Text

abbrev pub is_live : OverrideGrant → ℕ → Bool
is_live g now = ltb now g.expires_at

pub record CachedIdentity : Type 0 where
  pub user_id : Text
  pub employee_code : Text
  pub full_name : Text
  pub store_id : Text
  pub pin_hash : Text
  pub status : Text
  pub roles : List Text
  pub permissions : List Text
  pub snapshot_signed_at : ℕ
  pub snapshot_expires_at : ℕ
  pub consecutive_pin_failures : ℕ
  pub pin_locked_until : Option ℕ

abbrev pub is_active : Text → Bool
is_active status = text_eq status (codes "active")

abbrev pub is_usable : CachedIdentity → ℕ → Bool
is_usable i now = is_active i.status && ltb now i.snapshot_expires_at

-- `CachedIdentity.is_locked`
abbrev pub is_locked_out : CachedIdentity → ℕ → Bool
is_locked_out i now = is_locked i.pin_locked_until now

-- `Session(...)` without grants
abbrev pub session_of : CachedIdentity → Bool → ℕ → Session
session_of i is_offline now = record {
  user_id = i.user_id;
  employee_code = i.employee_code;
  full_name = i.full_name;
  store_id = i.store_id;
  roles = i.roles;
  permissions = i.permissions;
  authenticated_at = now;
  snapshot_expires_at = i.snapshot_expires_at;
  is_offline = is_offline;
  overrides = λ permission. none;
  approvers = λ permission. none;
}

unfoldable pub to_session : CachedIdentity → ℕ → Result IdentityError Session
to_session i now = do
  raise_if (not (is_active i.status)) snapshot_expired
  raise_if (leb i.snapshot_expires_at now) snapshot_expired
  ok (session_of i true now)

abbrev pub snapshot_expiry : ℕ → ℕ
snapshot_expiry signed_at = signed_at + snapshot_ttl
