-- ===== src/Auth/Overrides/Safety.antt =====
-- Who may lend what to whom through `authorize_override` of app/services/auth_service.py.
use mathlib.Core.Option.{some-injective}
use pos.Prelude.{
  ℕ, ◌+◌, leb, ◌≡◌, inl, inr, refl, sym, subst, ap, ◌∙◌, Bool, Bool-cases, true, false, ◌||◌, [],
  ◌∷◌, ◌++◌, Option, Option-cases, none, some, Result, ok, err, Text, text_eq, arith,
}
use pos.Permissions.{has, is_overridable}
use pos.Identity.{Session, OverrideGrant, CachedIdentity, is_locked_out, override_grant_ttl}
use pos.Identity.Grants.{lend}
use pos.CartService.Monad.{continue}
use pos.Auth.{
  AuthError, pin_locked, nothing_to_authorise, cannot_authorise_self, not_signed_in,
  not_overridable, AuditEntry, granted, Terminal, record_audit, grant, grant_to,
}
use pos.Auth.Users.{get_by_employee_code}
use pos.Auth.Service.{as_code, ensure_not_locked}
use pos.Auth.Overrides.{
  Verdict, Approver, is_same_person, is_refusal, trailed, grant_of, mint, override_by, override_for,
  authorize_override,
}
use pos.Auth.Overrides.Approval.{Vouched, Verified, fails, vouches, authorize-Verified}

module _ (verify_pin : Text → Text → Bool) (cloud : Option Verdict) (code pin permission : Text)
    (now : ℕ) where
  -- How `authorize_override` ends.
  pub data Ending (t : Terminal) : Result AuthError OverrideGrant × Terminal → Type 0 where
    refuses : (e : AuthError) (t' : Terminal) → t'.session ≡ t.session → Ending t (err e, t')
    lends :
        (cashier : Session) (identity : Option CachedIdentity) (approver : Approver) (t' : Terminal)
        → t.session ≡ some cashier
        → is_overridable permission ≡ true
        → has cashier.permissions permission ≡ false
        → get_by_employee_code code t.users ≡ identity
        → ((i : CachedIdentity) → identity ≡ some i → is_locked_out i now ≡ false)
        → text_eq approver.user_id cashier.user_id ≡ false
        → Vouched verify_pin cloud code pin permission now identity approver
        → t'.session
          ≡ some (lend cashier permission (now + override_grant_ttl) now (some approver.user_id))
        → t'.audit_log
          ≡ t.audit_log ++ granted (grant_of verify_pin permission cashier approver now) ∷ []
        → Ending t (ok (grant_of verify_pin permission cashier approver now), t')

  module _ (t : Terminal) (cashier : Session) (here : t.session ≡ some cashier)
      (lendable : is_overridable permission ≡ true)
      (lacks : has cashier.permissions permission ≡ false) (identity : Option CachedIdentity)
      (known : get_by_employee_code code t.users ≡ identity)
      (free : (i : CachedIdentity) → identity ≡ some i → is_locked_out i now ≡ false) where
    mint-Ending :
        (approver : Approver) (t' : Terminal)
        → t'.session ≡ t.session
        → t'.audit_log ≡ t.audit_log
        → Vouched verify_pin cloud code pin permission now identity approver
        → Ending t (mint verify_pin permission cashier now approver t')
    unfolding mint grant
    mint-Ending approver t' same log vouched =
        let open_ : leb (now + override_grant_ttl) now ≡ false = ground arith in
        elim (Bool-cases (text_eq approver.user_id cashier.user_id)) [
          | inl e ↦ rw e (refuses cannot_authorise_self t' same)
          | inr e ↦
              rw (e, lendable, open_)
                (subst
                  (λ o. Ending t (
                    continue
                      (λ _ t''. (
                        ok (grant_of verify_pin permission cashier approver now),
                        record_audit (granted (grant_of verify_pin permission cashier approver now))
                            t'',
                      ))
                      (grant_to o permission (now + override_grant_ttl) now (some approver.user_id)
                        t')))
                  (sym (same ∙ here))
                  (lends cashier identity approver _ here lendable lacks known free e vouched refl (
                    ap (◌++ granted (grant_of verify_pin permission cashier approver now) ∷ [])
                      log)))
        ]

    verified-Ending :
        (entry : AuditEntry) (q : Result AuthError Approver × Terminal)
        → Verified verify_pin cloud code pin permission now identity t q
        → Ending t (continue (mint verify_pin permission cashier now) (trailed entry q))
    verified-Ending entry _ (fails e t' same) = elim (Bool-cases (is_refusal e)) [
      | inl f ↦ rw f (refuses e (record_audit entry t') same)
      | inr f ↦ rw f (refuses e t' same)
    ]
    verified-Ending entry _ (vouches approver t' same log vouched) =
        mint-Ending approver t' same log vouched

    override_by-Ending :
        Ending t (override_by verify_pin cloud code pin permission now cashier identity t)
    unfolding override_by
    override_by-Ending =
        elim (Bool-cases (text_eq code cashier.employee_code || is_same_person identity cashier)) [
          | inl e ↦ rw e (refuses cannot_authorise_self t refl)
          | inr e ↦ rw e (
              verified-Ending _ _
                (authorize-Verified verify_pin cloud code pin permission now identity t cloud refl))
        ]

  found-Ending :
      (t : Terminal) (cashier : Session)
      → t.session ≡ some cashier
      → is_overridable permission ≡ true
      → has cashier.permissions permission ≡ false
      → Ending t (
          continue
            (override_by verify_pin cloud code pin permission now cashier)
            (ensure_not_locked code now t))
  unfolding ensure_not_locked
  found-Ending t cashier here lendable lacks =
      elim (Option-cases (get_by_employee_code code t.users)) [
        | inl e ↦ rw e (override_by-Ending t cashier here lendable lacks none e (λ i f. cc f))
        | inr (i, e) ↦ elim (Bool-cases (is_locked_out i now)) [
          | inl f ↦ rw (e, f) (refuses pin_locked t refl)
          | inr f ↦
              rw (e, f)
                (override_by-Ending t cashier here lendable lacks (some i) e
                  (λ j g. let same = some-injective i j g in rw (sym same) f))
        ]
      ]

  signed_in-Ending :
      (t : Terminal) (o : Option Session)
      → t.session ≡ o
      → is_overridable permission ≡ true
      → Ending t (override_for verify_pin o cloud code pin permission now t)
  signed_in-Ending t none h lendable = refuses not_signed_in t refl
  signed_in-Ending t (some cashier) h lendable =
      elim (Bool-cases (has cashier.permissions permission)) [
        | inl e ↦ rw e (refuses nothing_to_authorise t refl)
        | inr e ↦ rw e (found-Ending t cashier h lendable e)
      ]

-- Whatever the cloud answers and whoever types, `authorize_override` either raises and leaves the session
-- of the till as it was, or a permission that may be lent is lent for 90 seconds to a cashier who lacked
-- it, on the word of another person who is not locked out and whom the cloud names or the cache vouches
-- for; the session changes by that grant alone, and the last row of the audit log names both.
pub authorize_override-Ending :
    (verify_pin : Text → Text → Bool) (cloud : Option Verdict) (code pin permission : Text)
    (now : ℕ) (t : Terminal)
    → Ending verify_pin cloud
        (as_code code)
        pin
        permission
        now
        t
        (authorize_override verify_pin cloud code pin permission now t)
unfolding authorize_override
authorize_override-Ending verify_pin cloud code pin permission now t =
    elim (Bool-cases (is_overridable permission)) [
      | inr e ↦ rw e (Ending.refuses not_overridable t refl)
      | inl e ↦
          rw e
            (signed_in-Ending verify_pin cloud (as_code code) pin permission now t t.session refl e)
    ]
