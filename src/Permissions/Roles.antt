-- ===== src/Permissions/Roles.antt =====
-- What the matrix of app/domain/permissions.py comes to.
use pos.Prelude.{
  ◌≡◌, refl, ap, ◌∙◌, Bool-cases, inl, inr, true, ◌||◌, List, [], ◌∷◌, ◌++◌, any, all, Text,
  text_eq, text_eq→eq,
}
use pos.Permissions.{
  has, permissions_for, role_permissions, is_overridable, overridable, cashier, supervisor,
  inventory, manager, admin,
}

has-append : (ps qs : List Text) (p : Text) → has (ps ++ qs) p ≡ (has ps p || has qs p)
unfolding has
has-append [] qs p = refl
has-append (x ∷ ps) qs p = elim (Bool-cases (text_eq p x)) [
  | inl e ↦ rw e refl
  | inr e ↦ rw e (has-append ps qs p)
]

-- The permissions of several roles are those that one of them grants.
pub permissions_for_lem :
    (roles : List Text) (p : Text)
    → has (permissions_for roles) p ≡ any (λ role. has (role_permissions role) p) roles
unfolding permissions_for has
permissions_for_lem [] p = refl
permissions_for_lem (role ∷ roles) p =
    has-append (role_permissions role) (permissions_for roles) p
    ∙ ap (has (role_permissions role) p ||◌) (permissions_for_lem roles p)

-- What the first list has, the second has.
abbrev Within : List Text → List Text → Type 0
Within ps qs = (p : Text) → has ps p ≡ true → has qs p ≡ true

all-Within : (ps qs : List Text) → all (has qs) ps ≡ true → Within ps qs
unfolding has
all-Within [] qs h p e = cc
all-Within (x ∷ ps) qs h p e = elim (Bool-cases (has qs x)) [
  | inl f ↦ elim (Bool-cases (text_eq p x)) [
    | inl g ↦ ap (has qs) (text_eq→eq p x g) ∙ f
    | inr g ↦ all-Within ps qs (rw f at h) p (rw g at e)
  ]
  | inr f ↦ cc (let h' = rw f at h in h')
]

-- A supervisor may do what a cashier may, a manager what a supervisor or the inventory clerk may, an
-- admin what a manager may; and whatever can be lent, a manager holds.
pub role_permissions-grow :
    (p : Text)
    → (has (role_permissions cashier) p ≡ true → has (role_permissions supervisor) p ≡ true)
      × (has (role_permissions supervisor) p ≡ true → has (role_permissions manager) p ≡ true)
      × (has (role_permissions inventory) p ≡ true → has (role_permissions manager) p ≡ true)
      × (has (role_permissions manager) p ≡ true → has (role_permissions admin) p ≡ true)
      × (is_overridable p ≡ true → has (role_permissions manager) p ≡ true)
unfolding role_permissions is_overridable has text_eq
role_permissions-grow p = (
  all-Within (role_permissions cashier) (role_permissions supervisor) refl p,
  all-Within (role_permissions supervisor) (role_permissions manager) refl p,
  all-Within (role_permissions inventory) (role_permissions manager) refl p,
  all-Within (role_permissions manager) (role_permissions admin) refl p,
  all-Within overridable (role_permissions manager) refl p,
)
