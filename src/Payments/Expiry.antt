-- ===== src/Payments/Expiry.antt =====
-- What `expire_stale` of app/domain/payments.py makes of the attempts of a cart.
use pos.Prelude.{
  ℕ, nonneg, ◌≤ℤ◌, ◌≤◌, ◌<◌, leb, ◌≡◌, ◌≢◌, refl, Bool-cases, Option-cases, ◌&&◌, none, true, false,
  List, [], ◌∷◌, All, some, ok, arith, Text, map, sum_by, inl, inr, if◌then◌else◌, ◌+ℤ◌,
}
use pos.Payments.{
  pending, expired, PaymentAttempt, or_else, state_eq, is_expired_at, expire_one, expire_stale,
}
use mathlib.Core.List.{Forall₂}
use mathlib.Core.Path.{ap₂}
use pos.Payments.Lifecycle.{moved, to-total}
use pos.Payments.Balance.{approved_amount}

-- The attempt after one pass.
abbrev pub expire_now : Text → ℕ → PaymentAttempt → PaymentAttempt
expire_now reason now a = if is_expired_at now a then moved expired now (some reason) a else a

is_expired_at-pending :
    (now : ℕ) (a : PaymentAttempt) → is_expired_at now a ≡ true → a.state ≡ pending
unfolding is_expired_at
is_expired_at-pending now a h = ground arith

-- An attempt that is not pending does not expire.
not_pending-not_expired :
    (now : ℕ) (a : PaymentAttempt) → state_eq a.state pending ≡ false → is_expired_at now a ≡ false
unfolding is_expired_at
not_pending-not_expired now a h = ground arith

expire_one-eq :
    (reason : Text) (now : ℕ) (a : PaymentAttempt)
    → nonneg 0 ≤ℤ a.amount
    → expire_one reason now a ≡ ok (expire_now reason now a)
unfolding expire_one
expire_one-eq reason now a h = elim (Bool-cases (is_expired_at now a)) [
  | inl e ↦
      rw e ((to-total expired now (some reason) a h).0 (is_expired_at-pending now a e) (λ same. cc))
  | inr e ↦ rw e refl
]

expire_now-approved :
    (reason : Text) (now : ℕ) (a : PaymentAttempt)
    → approved_amount (expire_now reason now a) ≡ approved_amount a
expire_now-approved reason now a = elim (Bool-cases (is_expired_at now a)) [
  | inl e ↦ rw e (rw (is_expired_at-pending now a e) refl)
  | inr e ↦ rw e refl
]

expire_now-settled :
    (reason : Text) (now : ℕ) (a : PaymentAttempt)
    → is_expired_at now (expire_now reason now a) ≡ false
expire_now-settled reason now a = elim (Bool-cases (is_expired_at now a)) [
  | inl e ↦ rw e (not_pending-not_expired now (moved expired now (some reason) a) refl)
  | inr e ↦ rw e e
]

-- Every attempt whose time is over, and no other, becomes an expired one.
pub expire_stale-eq :
    (reason : Text) (now : ℕ) (attempts : List PaymentAttempt)
    → All (λ a. nonneg 0 ≤ℤ a.amount) attempts
    → expire_stale reason now attempts ≡ ok (map (expire_now reason now) attempts)
unfolding expire_stale
expire_stale-eq reason now [] h = refl
expire_stale-eq reason now (a ∷ attempts) (h, hs) =
    rw (expire_one-eq reason now a h) (rw (expire_stale-eq reason now attempts hs) refl)

-- What a pass at `now` makes of an attempt: one that is pending and whose limit is reached is expired,
-- for the reason given; one that is resolved, has no limit or has time left stays as it is.
pub data Passes (reason : Text) (now : ℕ) (a : PaymentAttempt) : PaymentAttempt → Type 0 where
  over :
      (limit : ℕ)
      → a.state ≡ pending
      → a.expires_at ≡ some limit
      → limit ≤ now
      → Passes reason now a (record a {
        state = expired;
        resolved_at = some now;
        failure_reason = or_else (some reason) a.failure_reason;
      })
  resolved : a.state ≢ pending → Passes reason now a a
  unlimited : a.expires_at ≡ none → Passes reason now a a
  in_time : (limit : ℕ) → a.expires_at ≡ some limit → now < limit → Passes reason now a a

over-Passes :
    (reason : Text) (now : ℕ) (a : PaymentAttempt)
    → is_expired_at now a ≡ true
    → Passes reason now a (moved expired now (some reason) a)
unfolding is_expired_at
over-Passes reason now a h = elim (Option-cases a.expires_at) [
  | inl e ↦ cc (rw (is_expired_at, e) at h)
  | inr (limit, e) ↦
      let h' : (state_eq a.state pending && leb limit now) ≡ true = rw (is_expired_at, e) at h in
      over limit (ground arith) e (ground arith)
]

kept-Passes :
    (reason : Text) (now : ℕ) (a : PaymentAttempt)
    → is_expired_at now a ≡ false
    → Passes reason now a a
unfolding is_expired_at
kept-Passes reason now a h = elim (Option-cases a.expires_at) [
  | inl e ↦ unlimited e
  | inr (limit, e) ↦
      let h' : (state_eq a.state pending && leb limit now) ≡ false = rw (is_expired_at, e) at h in
      elim (Bool-cases (state_eq a.state pending)) [
        | inl p ↦ in_time limit e (ground arith)
        | inr p ↦ resolved (λ same. cc (rw same at p))
      ]
]

expire_now-Passes :
    (reason : Text) (now : ℕ) (a : PaymentAttempt) → Passes reason now a (expire_now reason now a)
expire_now-Passes reason now a = elim (Bool-cases (is_expired_at now a)) [
  | inl e ↦ rw e (over-Passes reason now a e)
  | inr e ↦ rw e (kept-Passes reason now a e)
]

-- With amounts that are not negative the pass always returns. It expires the attempts that are pending
-- and whose limit is reached, with the time and the reason, and leaves every other one as it was, in its
-- place; then no attempt is over its time, and what was approved is as before.
pub expire_stale_lem :
    (reason : Text) (now : ℕ) (attempts : List PaymentAttempt)
    → All (λ a. nonneg 0 ≤ℤ a.amount) attempts
    → (left : List PaymentAttempt) × (expire_stale reason now attempts ≡ ok left)
      × Forall₂ (Passes reason now) attempts left
      × All (λ a. is_expired_at now a ≡ false) left
      × (sum_by approved_amount left ≡ sum_by approved_amount attempts)
expire_stale_lem reason now attempts h = (
  map (expire_now reason now) attempts,
  expire_stale-eq reason now attempts h,
  passed attempts,
  settled attempts,
  same attempts,
)
  where
    passed :
        (xs : List PaymentAttempt) → Forall₂ (Passes reason now) xs (map (expire_now reason now) xs)
    passed [] = Forall₂.nil
    passed (a ∷ xs) = Forall₂.cons (expire_now-Passes reason now a) (passed xs)

    settled :
        (xs : List PaymentAttempt)
        → All (λ a. is_expired_at now a ≡ false) (map (expire_now reason now) xs)
    settled [] = tt
    settled (a ∷ xs) = (expire_now-settled reason now a, settled xs)

    same :
        (xs : List PaymentAttempt)
        → sum_by approved_amount (map (expire_now reason now) xs) ≡ sum_by approved_amount xs
    same [] = refl
    same (a ∷ xs) = ap₂ ◌+ℤ◌ (expire_now-approved reason now a) (same xs)
