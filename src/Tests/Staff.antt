-- ===== src/Tests/Staff.antt =====
-- A cashier at the till, and a supervisor whose PIN the till knows.
use pos.Prelude.{
  ◌≡◌, ◌||◌, ◌&&◌, refl, Bool, true, false, ltb, [], ◌∷◌, none, some, err, Text, text_eq, codes,
  arith,
}
use pos.Permissions.{
  is_overridable, cashier, supervisor, cashier_permissions, supervisor_permissions, sale_void,
}
use pos.Identity.{Session, CachedIdentity, allows, snapshot_is_fresh}
use pos.Identity.Grants.{lend, allows-lend}
use pos.Auth.{AuthError, pin_locked, Terminal}
use pos.Auth.Users.{get_by_employee_code}
use pos.Auth.Service.{CloudAnswer, as_code, login}
use pos.Auth.Overrides.{authorize_override}
use pos.Auth.Overrides.Safety.{Ending, authorize_override-Ending}
use pos.Auth.Throttle.{IsWrong, login-throttles}

-- The hash of a PIN is the PIN.
abbrev same_pin : Text → Text → Bool
same_pin hash pin = text_eq hash pin

abbrev asha : Session
asha = record {
  user_id = codes "u1";
  employee_code = codes "C01";
  full_name = codes "Asha";
  store_id = codes "s1";
  roles = cashier ∷ [];
  permissions = cashier_permissions;
  authenticated_at = 100;
  snapshot_expires_at = 9000;
  is_offline = false;
  overrides = λ key. none;
  approvers = λ key. none;
}

abbrev ravi : CachedIdentity
ravi = record {
  user_id = codes "u2";
  employee_code = codes "S01";
  full_name = codes "Ravi";
  store_id = codes "s1";
  pin_hash = codes "4711";
  status = codes "active";
  roles = supervisor ∷ [];
  permissions = supervisor_permissions;
  snapshot_signed_at = 0;
  snapshot_expires_at = 9000;
  consecutive_pin_failures = 4;
  pin_locked_until = none;
}

abbrev counter : Terminal
counter = record {
  session = some asha;
  access_token = none;
  is_revoked = false;
  users = record { identity = ravi; is_sealed = true } ∷ [];
  audit_log = [];
}

allows-lend_example : allows (lend asha sale_void 590 500 (some (codes "u2"))) sale_void 560 ≡ (
    allows asha sale_void 560
    || snapshot_is_fresh asha 560 && text_eq sale_void sale_void && ltb 560 590)
allows-lend_example =
    allows-lend asha sale_void 590 500 560 (some (codes "u2")) sale_void (omega arith)

authorize_override-Ending_example :
    Ending same_pin none
      (as_code (codes " s01"))
      (codes "4711")
      sale_void
      500
      counter
      (authorize_override same_pin none (codes " s01") (codes "4711") sale_void 500 counter)
authorize_override-Ending_example =
    authorize_override-Ending same_pin none (codes " s01") (codes "4711") sale_void 500 counter

-- The void is lent.
lent_void :
    (authorize_override same_pin none (codes " s01") (codes "4711") sale_void 500 counter).1.session
    ≡ some (lend asha sale_void 590 500 (some (codes "u2")))
unfolding authorize_override is_overridable text_eq pos.Auth.Service.ensure_not_locked
    get_by_employee_code pos.Barcode.Parser.strip pos.Barcode.Parser.is_space pos.Lockout.is_locked
    pos.Auth.Overrides.override_by pos.Auth.Overrides.authorize_offline
    pos.Auth.Service.verify_cached_pin pos.Auth.Overrides.mint pos.Auth.grant
lent_void = refl

login-throttles_example :
    let (r, t) = login same_pin none (codes "S01") (codes "0000") 500 counter in
    ((e : AuthError) × (r ≡ err e))
    × (t.session ≡ some asha)
    × (login same_pin (some CloudAnswer.unavailable) (codes "S01") (codes "4711") 1399 t
        ≡ (err pin_locked, t))
unfolding get_by_employee_code text_eq pos.Barcode.Parser.strip pos.Barcode.Parser.is_space
    pos.Lockout.is_locked
login-throttles_example =
    login-throttles same_pin none (some CloudAnswer.unavailable) (codes "S01") (codes "0000")
      (codes "4711") 500 1399 counter ravi refl refl (IsWrong.by_cache refl) (omega arith)
      (omega arith)
