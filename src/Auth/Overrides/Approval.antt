-- ===== src/Auth/Overrides/Approval.antt =====
-- Whether an approver is believed: `_authorize_online` and `_authorize_offline` of
-- app/services/auth_service.py, and what they leave alone.
use pos.Prelude.{
  ℕ, ◌≡◌, ◌⊎◌, inl, inr, refl, Bool, Bool-cases, true, Option, Option-cases, none, some, Result, ok,
  err, Text,
}
use pos.Permissions.{has}
use pos.Identity.{CachedIdentity, is_usable, is_locked_out}
use pos.CartService.Monad.{continue, raise}
use pos.Auth.{
  AuthError, login_failed, no_offline_identity, pin_locked, approver_lacks_permission, Terminal,
}
use pos.Auth.Users.{clear_pin_failures, get_by_employee_code, record_pin_failure}
use pos.Auth.Service.{
  revoke_cached, verify_cached_pin, count_failure, has_failed, count_known, revoke_known,
}
use pos.Auth.Overrides.{
  Verdict, invalid, not_permitted, disabled, unavailable, approved, Approver, approver_of,
  forgive_known, authorize_offline, authorize_online, authorize,
}

count_failure-session :
    (i : CachedIdentity) (now : ℕ) (t : Terminal) → (count_failure i now t).1.session ≡ t.session
unfolding count_failure
count_failure-session i now t = elim (Option-cases (record_pin_failure i.user_id now t.users).0) [
  | inl e ↦ rw e refl
  | inr (until, e) ↦ rw e refl
]

-- An operation that ends without anybody's session changed, and that raises after some calls.
raised-session :
    {A : Type 0} (e : AuthError) (q : Result AuthError (Unit {0}) × Terminal) (t : Terminal)
    → q.1.session ≡ t.session
    → (x : AuthError) × (t' : Terminal) × (continue {A = Unit {0}} {B = A} (λ _. raise e) q
        ≡ (err x, t'))
      × (t'.session ≡ t.session)
raised-session e (err x, t') t h = (x, t', refl, h)
raised-session e (ok _, t') t h = (e, t', refl, h)

count_known-session :
    (o : Option CachedIdentity) (now : ℕ) (t : Terminal)
    → (count_known o now t).1.session ≡ t.session
count_known-session none now t = refl
count_known-session (some i) now t = count_failure-session i now t

revoke_known-session :
    (o : Option CachedIdentity) (t : Terminal) → (revoke_known o t).session ≡ t.session
revoke_known-session none t = refl
revoke_known-session (some i) t = refl

forgive_known-same :
    (o : Option CachedIdentity) (t : Terminal)
    → ((forgive_known o t).session ≡ t.session) × ((forgive_known o t).audit_log ≡ t.audit_log)
forgive_known-same none t = (refl, refl)
forgive_known-same (some i) t = (refl, refl)

module _ (verify_pin : Text → Text → Bool) (cloud : Option Verdict) (code pin permission : Text)
    (now : ℕ) where
  -- Why an approver may be believed: the cloud names them, or, where it cannot be asked, the cache of
  -- this terminal knows the PIN, the person is active and not out of date, and holds the permission.
  pub data Vouched (identity : Option CachedIdentity) (approver : Approver) : Type 0 where
    by_cloud :
        cloud ≡ some (approved approver.user_id approver.employee_code) → Vouched identity approver
    by_cache :
        (i : CachedIdentity)
        → identity ≡ some i
        → (cloud ≡ none) ⊎ (cloud ≡ some unavailable)
        → verify_pin i.pin_hash pin ≡ true
        → is_usable i now ≡ true
        → has i.permissions permission ≡ true
        → approver ≡ approver_of i
        → Vouched identity approver

  -- How the verification of the approver ends.
  pub data Verified (identity : Option CachedIdentity) (t : Terminal)
      : Result AuthError Approver × Terminal → Type 0 where
    fails :
        (e : AuthError) (t' : Terminal) → t'.session ≡ t.session → Verified identity t (err e, t')
    vouches :
        (approver : Approver) (t' : Terminal)
        → t'.session ≡ t.session
        → t'.audit_log ≡ t.audit_log
        → Vouched identity approver
        → Verified identity t (ok approver, t')

  checked :
      (i : CachedIdentity) (t : Terminal)
      → ((e : AuthError) × (t' : Terminal) × (verify_cached_pin verify_pin i pin now t
            ≡ (err e, t'))
          × (t'.session ≡ t.session))
        ⊎ ((t' : Terminal) × (verify_cached_pin verify_pin i pin now t ≡ (ok tt, t'))
            × (t'.session ≡ t.session)
            × (t'.audit_log ≡ t.audit_log)
            × (verify_pin i.pin_hash pin ≡ true))
  unfolding verify_cached_pin
  checked i t = elim (Bool-cases (is_locked_out i now)) [
    | inl e ↦ inl (pin_locked, t, rw e refl, refl)
    | inr e ↦ elim (Bool-cases (verify_pin i.pin_hash pin)) [
      | inl f ↦ elim (Bool-cases (has_failed i)) [
        | inl g ↦ inr (
          record t { users = clear_pin_failures i.user_id t.users },
          rw (e, f, g) refl,
          refl,
          refl,
          f,
        )
        | inr g ↦ inr (t, rw (e, f, g) refl, refl, refl, f)
      ]
      | inr f ↦
          let (x, t', same, kept) =
            raised-session {A = Unit {0}} login_failed (count_failure i now t) t
              (count_failure-session i now t) in
          inl (x, t', rw (e, f) same, kept)
    ]
  ]

  offline-Verified :
      (identity : Option CachedIdentity) (t : Terminal)
      → (cloud ≡ none) ⊎ (cloud ≡ some unavailable)
      → Verified identity t (authorize_offline verify_pin identity pin permission now t)
  unfolding authorize_offline
  offline-Verified none t alone = fails no_offline_identity t refl
  offline-Verified (some i) t alone = elim (checked i t) [
    | inl (e, t', h, same) ↦ rw h (fails e t' same)
    | inr (t', h, same, log, knows) ↦ elim (Bool-cases (is_usable i now)) [
      | inr f ↦ rw (h, f) (fails login_failed t' same)
      | inl f ↦ elim (Bool-cases (has i.permissions permission)) [
        | inr g ↦ rw (h, f, g) (fails approver_lacks_permission t' same)
        | inl g ↦
            rw (h, f, g)
              (vouches (approver_of i) t' same log (by_cache i refl alone knows f g refl))
      ]
    ]
  ]

  raised-Verified :
      (identity : Option CachedIdentity) (e : AuthError)
      (q : Result AuthError (Unit {0}) × Terminal) (t : Terminal)
      → q.1.session ≡ t.session
      → Verified identity t (continue (λ _. raise e) q)
  raised-Verified identity e q t h =
      let (x, t', same, kept) = raised-session {A = Approver} e q t h in rw same (fails x t' kept)

  pub authorize-Verified :
      (identity : Option CachedIdentity) (t : Terminal) (c : Option Verdict)
      → cloud ≡ c
      → Verified identity t (authorize verify_pin c code pin permission identity now t)
  unfolding authorize_online
  authorize-Verified identity t none h = offline-Verified identity t (inl h)
  authorize-Verified identity t (some unavailable) h = offline-Verified identity t (inr h)
  authorize-Verified identity t (some not_permitted) h = fails approver_lacks_permission t refl
  authorize-Verified identity t (some invalid) h =
      raised-Verified identity login_failed _ t
        (count_known-session (get_by_employee_code code t.users) now t)
  authorize-Verified identity t (some disabled) h =
      raised-Verified identity login_failed (revoke_cached code t) t
        (revoke_known-session (get_by_employee_code code t.users) t)
  authorize-Verified identity t (some (approved user_id approver_code)) h =
      let (same, log) = forgive_known-same identity t in vouches _ _ same log (by_cloud h)
