-- ===== src/Auth/Throttle.antt =====
-- Wrong PINs at a terminal of app/services/auth_service.py, whichever side judges them.
use mathlib.Core.Option.{some-injective}
use pos.Prelude.{
  ℕ, suc, ◌+◌, ◌≤◌, ◌<◌, ltb, lt→ltb, ◌≡◌, inl, inr, refl, sym, ap, ◌∙◌, Bool, Bool-cases, true,
  false, List, [], ◌∷◌, Option, Option-cases, none, some, Result, err, Text, text_eq, text_eq_refl,
  arith,
}
use pos.Lockout.{lockout_after, locked_until, is_locked}
use pos.Lockout.Window.{lockout_after_lem}
use pos.Identity.{Session, CachedIdentity, is_locked_out}
use pos.CartService.Monad.{continue, raise}
use pos.Auth.{AuthError, login_failed, pin_locked, CachedRow, Terminal}
use pos.Auth.Users.{
  first_row, unsealed, update, failed_at, lock_after, record_pin_failure, get_by_employee_code,
}
use pos.Auth.Service.{
  CloudAnswer, invalid, unavailable, as_code, ensure_not_locked, count_failure, count_cloud_failure,
  verify_cached_pin, login_offline, login,
}

first_row-update :
    (test : CachedIdentity → Bool) (change : CachedIdentity → CachedIdentity)
    (users : List CachedRow) (row : CachedRow)
    → ((i : CachedIdentity) → test (change i) ≡ test i)
    → first_row test users ≡ some row
    → first_row test (update row.identity.user_id change users)
      ≡ some (record { identity = change row.identity; is_sealed = true })
unfolding update
first_row-update test change [] row same h = cc
first_row-update test change (r ∷ users) row same h = elim (Bool-cases (test r.identity)) [
  | inl e ↦
      let it : r ≡ row = some-injective r row (rw e at h) in
      rw
        (
          it,
          text_eq_refl row.identity.user_id,
          same row.identity,
          sym (ap (λ x. test x.identity) it) ∙ e,
        )
        refl
  | inr e ↦ elim (Bool-cases (text_eq r.identity.user_id row.identity.user_id)) [
    | inl f ↦ rw (f, same r.identity, e) (first_row-update test change users row same (rw e at h))
    | inr f ↦ rw (f, e) (first_row-update test change users row same (rw e at h))
  ]
]

unsealed-some :
    (o : Option CachedRow) (i : CachedIdentity)
    → unsealed o ≡ some i
    → (row : CachedRow) × (o ≡ some row) × (row.identity ≡ i)
unsealed-some none i h = cc
unsealed-some (some row) i h = elim (Bool-cases row.is_sealed) [
  | inl e ↦ (row, refl, some-injective row.identity i (rw e at h))
  | inr e ↦ cc (let h' = rw e at h in h')
]

-- The failure stands in the cache, sealed, where the next attempt finds it.
get_by_employee_code-failed :
    (code : Text) (now : ℕ) (i : CachedIdentity) (users : List CachedRow)
    → get_by_employee_code code users ≡ some i
    → get_by_employee_code code (update i.user_id (failed_at now) users) ≡ some (failed_at now i)
unfolding get_by_employee_code
get_by_employee_code-failed code now i users h =
    let (row, found, same) =
      unsealed-some (first_row (λ j. text_eq j.employee_code code) users) i h in
    let next =
      first_row-update (λ j. text_eq j.employee_code code) (failed_at now) users row (λ j. refl)
        found in
    rw (sym same, next) refl

locks : (n : ℕ) → 5 ≤ n → (window : ℕ) × (lockout_after n ≡ some window) × (900 ≤ window)
locks n h =
    let (a, b, c, d) = lockout_after_lem n in
    elim (Bool-cases (ltb n 10)) [
      | inl f ↦ (900, b h (ground arith), omega arith)
      | inr f ↦ elim (Bool-cases (ltb n 15)) [
        | inl g ↦ (1800, c (ground arith) (ground arith), omega arith)
        | inr g ↦ (3600, d (ground arith), omega arith)
      ]
    ]

failed_at-locked :
    (i : CachedIdentity) (now at : ℕ)
    → 4 ≤ i.consecutive_pin_failures
    → at < now + 900
    → is_locked_out (failed_at now i) at ≡ true
unfolding locked_until is_locked
failed_at-locked i now at many early =
    let (window, e, low) = locks (suc i.consecutive_pin_failures) (omega arith) in
    rw (locked_until, e) (lt→ltb at (now + window) (omega arith))

module _ (verify_pin : Text → Text → Bool) where
  -- An account that is locked is refused, whatever the PIN and whatever the cloud would answer.
  login-locked :
      (cloud : Option CloudAnswer) (code pin : Text) (now : ℕ) (t : Terminal) (i : CachedIdentity)
      → get_by_employee_code (as_code code) t.users ≡ some i
      → is_locked_out i now ≡ true
      → login verify_pin cloud code pin now t ≡ (err pin_locked, t)
  unfolding login ensure_not_locked
  login-locked cloud code pin now t i known shut = rw (known, shut) refl

  -- A wrong PIN: the cloud refuses it, or there is no cloud, or none to be reached, and it is not the one
  -- of the cache.
  pub data IsWrong (i : CachedIdentity) (pin : Text) : Option CloudAnswer → Type 0 where
    by_cloud : IsWrong i pin (some invalid)
    by_cache : verify_pin i.pin_hash pin ≡ false → IsWrong i pin none
    cut_off : verify_pin i.pin_hash pin ≡ false → IsWrong i pin (some unavailable)

  -- A wrong PIN that was counted.
  abbrev Counted : CachedIdentity → ℕ → Terminal → Result AuthError Session × Terminal → Type 0
  Counted i now t q =
      ((e : AuthError) × (q.0 ≡ err e))
      × (q.1.users ≡ update i.user_id (failed_at now) t.users)
      × (q.1.session ≡ t.session)

  count_failure-Counted :
      (i : CachedIdentity) (now : ℕ) (t : Terminal)
      → Counted i now t
          (continue {A = Unit {0}} {B = Session} (λ _. raise login_failed) (count_failure i now t))
  unfolding count_failure record_pin_failure
  count_failure-Counted i now t =
      elim (Option-cases (lock_after now (first_row (λ j. text_eq j.user_id i.user_id) t.users))) [
        | inl e ↦ rw e ((login_failed, refl), refl, refl)
        | inr (until, e) ↦ rw e ((pin_locked, refl), refl, refl)
      ]

  cache-Counted :
      (i : CachedIdentity) (now : ℕ) (t : Terminal)
      (next : Unit {0} → Terminal → Result AuthError Session × Terminal)
      → Counted i now t (
          continue next (
            continue {A = Unit {0}} {B = Unit {0}}
              (λ _. raise login_failed)
              (count_failure i now t)))
  unfolding count_failure record_pin_failure
  cache-Counted i now t next =
      elim (Option-cases (lock_after now (first_row (λ j. text_eq j.user_id i.user_id) t.users))) [
        | inl e ↦ rw e ((login_failed, refl), refl, refl)
        | inr (until, e) ↦ rw e ((pin_locked, refl), refl, refl)
      ]

  login-Counted :
      (cloud : Option CloudAnswer) (code pin : Text) (now : ℕ) (t : Terminal) (i : CachedIdentity)
      → get_by_employee_code (as_code code) t.users ≡ some i
      → is_locked_out i now ≡ false
      → IsWrong i pin cloud
      → Counted i now t (login verify_pin cloud code pin now t)
  unfolding login ensure_not_locked login_offline verify_cached_pin
  login-Counted cloud code pin now t i known free by_cloud =
      rw (known, free, count_cloud_failure, known) (count_failure-Counted i now t)
  login-Counted cloud code pin now t i known free (by_cache wrong) =
      rw (known, free, login_offline, known, verify_cached_pin, free, wrong)
        (cache-Counted i now t _)
  login-Counted cloud code pin now t i known free (cut_off wrong) =
      rw (known, free, login_offline, known, verify_cached_pin, free, wrong)
        (cache-Counted i now t _)

  -- After four failures or more in a row, one more wrong PIN, refused by the cloud or, where there is no
  -- cloud or it cannot be reached, by the cache, raises and signs nobody in; and for the 15 minutes after it every attempt for that code is refused as locked,
  -- whatever the PIN and whatever the cloud would answer, and changes nothing.
  pub login-throttles :
      (cloud later : Option CloudAnswer) (code pin pin' : Text) (now at : ℕ) (t : Terminal)
      (i : CachedIdentity)
      → get_by_employee_code (as_code code) t.users ≡ some i
      → is_locked_out i now ≡ false
      → IsWrong i pin cloud
      → 4 ≤ i.consecutive_pin_failures
      → at < now + 900
      → let (r, t') = login verify_pin cloud code pin now t in
        ((e : AuthError) × (r ≡ err e))
        × (t'.session ≡ t.session)
        × (login verify_pin later code pin' at t' ≡ (err pin_locked, t'))
  login-throttles cloud later code pin pin' now at t i known free wrong many early =
      let (raised, counted, same) = login-Counted cloud code pin now t i known free wrong in
      let there = get_by_employee_code-failed (as_code code) now i t.users known in
      (
        raised,
        same,
        login-locked later code pin' at _ (failed_at now i)
            (ap (get_by_employee_code (as_code code)) counted ∙ there)
            (failed_at-locked i now at many early),
      )
