-- ===== src/Lockout/Window.antt =====
-- How long app/domain/lockout.py locks, and for whom.
use native.Mathlib.Nat.{pow-suc}
use pos.Prelude.{
  ℕ, zero, suc, ◌+◌, ◌-◌, ◌*◌, ◌/◌, ◌^◌, ◌≤◌, ◌<◌, ◌≡◌, ◌↔◌, ◌⊎◌, inl, inr, refl, min, ltb,
  Bool-cases, true, false, if◌then◌else◌, Option, none, some, arith, ltb→lt, lt→ltb,
}
use pos.Lockout.{lockout_after, locked_until, is_locked, first_lockout, max_lockout}

pow_pos : (k : ℕ) → 1 ≤ 2 ^ k
pow_pos zero = omega arith
pow_pos (suc k) = rw (pow-suc 2 k) (omega (arith, pow_pos k))

pow_four : (k : ℕ) → 4 ≤ 2 ^ (suc (suc k))
pow_four k = rw (pow-suc 2 (suc k), pow-suc 2 k) (omega (arith, pow_pos k))

-- After two doublings or more the cap decides.
grown_capped : (k : ℕ) → 2 ≤ k → min (900 * 2 ^ k) 3600 ≡ 3600
grown_capped zero h = omega arith
grown_capped (suc zero) h = omega arith
grown_capped (suc (suc k)) h = omega (arith, pow_four k)

-- The doublings of the source are capped before they are used; the cap on the wait makes that
-- the same as doubling without a cap.
pub lockout_after-uncapped :
    (n : ℕ)
    → lockout_after n
      ≡ (if ltb n 5 then none else some (min (first_lockout * 2 ^ (n / 5 - 1)) max_lockout))
unfolding lockout_after
lockout_after-uncapped n = elim (Bool-cases (ltb n 5)) [
  | inl e ↦ rw e refl
  | inr e ↦ elim (Bool-cases (ltb (n / 5 - 1) 8)) [
    | inl f ↦ let same : min (n / 5 - 1) 8 ≡ n / 5 - 1 = ground arith in rw (e, same) refl
    | inr f ↦
        let capped : min (n / 5 - 1) 8 ≡ 8 = ground arith in
        rw (e, capped, grown_capped (n / 5 - 1) (ground arith)) refl
  ]
]

-- Four failures lock nothing, five to nine lock for 15 minutes, ten to fourteen for 30, and any
-- more for 60.
pub lockout_after_lem :
    (n : ℕ)
    → (n < 5 → lockout_after n ≡ none)
      × (5 ≤ n → n < 10 → lockout_after n ≡ some 900)
      × (10 ≤ n → n < 15 → lockout_after n ≡ some 1800)
      × (15 ≤ n → lockout_after n ≡ some 3600)
lockout_after_lem n = rw (lockout_after-uncapped n) (
  λ h. let e : ltb n 5 ≡ true = ground arith in rw e refl,
  λ h k.
      let e : ltb n 5 ≡ false = ground arith in
      let d : n / 5 - 1 ≡ 0 = omega arith in rw (e, d) refl,
  λ h k.
      let e : ltb n 5 ≡ false = ground arith in
      let d : n / 5 - 1 ≡ 1 = omega arith in rw (e, d) refl,
  λ h.
      let e : ltb n 5 ≡ false = ground arith in rw (e, grown_capped (n / 5 - 1) (omega arith)) refl,
)

-- The wait that five failures or more earn, in seconds.
abbrev wait_for : ℕ → ℕ
wait_for n = if ltb n 10 then 900 else if ltb n 15 then 1800 else 3600

window_cases :
    (n : ℕ)
    → ((n < 5) × (lockout_after n ≡ none)) ⊎ ((5 ≤ n) × (lockout_after n ≡ some (wait_for n)))
window_cases n =
    let (a, b, c, d) = lockout_after_lem n in
    elim (Bool-cases (ltb n 5)) [
      | inl e ↦ inl (ground arith, a (ground arith))
      | inr e ↦ elim (Bool-cases (ltb n 10)) [
        | inl f ↦ inr (ground arith, rw f (b (ground arith) (ground arith)))
        | inr f ↦ elim (Bool-cases (ltb n 15)) [
          | inl g ↦ inr (ground arith, rw (f, g) (c (ground arith) (ground arith)))
          | inr g ↦ inr (ground arith, rw (f, g) (d (ground arith)))
        ]
      ]
    ]

locked_until-eq :
    (n at : ℕ) {o : Option ℕ}
    → lockout_after n ≡ o
    → locked_until n at ≡ (elim o [ none ↦ none | some window ↦ some (at + window) ])
unfolding locked_until
locked_until-eq n at h = rw (locked_until, h) refl

-- A person with `n` failures, the last of them at `at`, is locked at `now` exactly when there were
-- five or more and the wait they earn is not over: 15 minutes for five to nine, 30 for ten to fourteen,
-- 60 for any more.
pub is_locked_iff :
    (n at now : ℕ)
    → (is_locked (locked_until n at) now ≡ true)
      ↔ ((5 ≤ n) × (now < at + (if ltb n 10 then 900 else if ltb n 15 then 1800 else 3600)))
unfolding is_locked
is_locked_iff n at now = elim (window_cases n) [
  | inl (few, e) ↦ rw (locked_until-eq n at e) (λ h. cc, λ (many, early). ground arith)
  | inr (many, e) ↦ rw (locked_until-eq n at e) (
    λ h. (many, ltb→lt now (at + wait_for n) h),
    λ (_, early). lt→ltb now (at + wait_for n) early,
  )
]
