-- ===== src/Identity/Grants.antt =====
-- What a session of app/domain/identity.py allows, and what a grant of SessionStore in
-- app/services/auth_service.py changes of it.
use pos.Prelude.{
  ℕ, ◌≤◌, ltb, max, ◌≡◌, inl, inr, refl, sym, ◌∙◌, Bool, Bool-cases, true, false, ◌&&◌, ◌||◌,
  if◌then◌else◌, Option, Option-cases, none, some, Text, text_eq, text_eq→eq, arith,
}
use pos.Permissions.{has}
use pos.Identity.{Session, allows, is_granted, snapshot_is_fresh}

-- The grants that are not over, and one more.
unfoldable pub live : (Text → Option ℕ) → ℕ → Text → Option ℕ
live overrides now key = elim (overrides key) [
  | none ↦ none
  | some expiry ↦ if ltb now expiry then some expiry else none
]

-- `max(until, held) if held else until`
abbrev pub longer : ℕ → Option ℕ → ℕ
longer until none = until
longer until (some held) = max until held

-- `live` with the window of one permission set.
unfoldable pub widened : Session → Text → ℕ → ℕ → Text → Option ℕ
unfolding live
widened s permission until now key =
    if text_eq permission key
    then some (longer until (live s.overrides now permission))
    else live s.overrides now key

-- `approvers` of those grants, with the one who granted last.
unfoldable pub named : Session → Text → ℕ → ℕ → Option Text → Text → Option Text
unfolding widened
named s permission until now approver_id key =
    let kept : Option Text = elim (widened s permission until now key) [
      | none ↦ none
      | some _ ↦ s.approvers key
    ] in
    elim approver_id [
      | none ↦ kept
      | some approver ↦ if text_eq permission key then some approver else kept
    ]

unfoldable pub lend : Session → Text → ℕ → ℕ → Option Text → Session
unfolding widened named
lend s permission until now approver_id = record s {
  overrides = widened s permission until now;
  approvers = named s permission until now approver_id;
}

or_false : (b : Bool) → b ≡ (b || false)
or_false true = refl
or_false false = refl

is_granted-live :
    (overrides : Text → Option ℕ) (now at : ℕ) (key : Text)
    → now ≤ at
    → is_granted (live overrides now key) at ≡ is_granted (overrides key) at
unfolding live
is_granted-live overrides now at key h = elim (Option-cases (overrides key)) [
  | inl e ↦ rw (live, e) refl
  | inr (expiry, e) ↦ elim (Bool-cases (ltb now expiry)) [
    | inl f ↦ rw (live, e, f) refl
    | inr f ↦ let over : ltb at expiry ≡ false = ground arith in rw (live, e, f, over) refl
  ]
]

is_granted-longer :
    (until at : ℕ) (o : Option ℕ) → ltb at (longer until o) ≡ (is_granted o at || ltb at until)
is_granted-longer until at none = refl
is_granted-longer until at (some held) = ground arith

is_granted-widened :
    (s : Session) (permission : Text) (until now at : ℕ) (key : Text)
    → now ≤ at
    → is_granted (widened s permission until now key) at
      ≡ (is_granted (s.overrides key) at || text_eq permission key && ltb at until)
unfolding widened
is_granted-widened s permission until now at key h = elim (Bool-cases (text_eq permission key)) [
  | inl e ↦
      rw (widened, e, sym (text_eq→eq permission key e))
        (is_granted-longer until at (live s.overrides now permission)
          ∙ rw (is_granted-live s.overrides now at permission h) refl)
  | inr e ↦ rw (widened, e, is_granted-live s.overrides now at key h) (or_false _)
]

-- From the moment of the grant on, the session allows what it allowed before and, while its snapshot is
-- fresh, the permission that was lent until the window closes; nothing is taken away.
pub allows-lend :
    (s : Session) (permission : Text) (until now at : ℕ) (approver_id : Option Text) (key : Text)
    → now ≤ at
    → allows (lend s permission until now approver_id) key at
      ≡ (allows s key at || snapshot_is_fresh s at && text_eq permission key && ltb at until)
unfolding allows lend
allows-lend s permission until now at approver_id key h =
    let wide = is_granted-widened s permission until now at key h in
    elim (Bool-cases (snapshot_is_fresh s at)) [
      | inl e ↦ elim (Bool-cases (has s.permissions key)) [
        | inl f ↦ rw (e, f) refl
        | inr f ↦ rw (e, f, wide) refl
      ]
      | inr e ↦ rw e refl
    ]
