-- ===== src/Payments/Lifecycle.antt =====
-- The states of an attempt: a state that is not pending is final.
use pos.Prelude.{
  ℕ, nonneg, ◌≤ℤ◌, ◌≡◌, ◌≢◌, ◌↔◌, ◌⊎◌, inl, inr, refl, Bool-cases, true, Option, none, some, ok,
  err, arith, Text, err-ne-ok, >>=-eq-ok, ap, sym, subst, ◌∙◌,
}
use pos.Money.{Money, is_positive}
use pos.Payments.{
  AttemptState, pending, approved, illegal_transition, PaymentAttempt, check_attempt,
  can_transition, to, attest, amount_or, or_else,
}

-- The table allows exactly the moves from pending to some other state.
pub can_transition_iff :
    (current target : AttemptState)
    → (can_transition current target ≡ true) ↔ ((current ≡ pending) × (target ≢ pending))
unfolding can_transition
can_transition_iff current target = ground arith

check_attempt-eq : (a : PaymentAttempt) {b : PaymentAttempt} → check_attempt a ≡ ok b → b ≡ a
unfolding check_attempt
check_attempt-eq a h = ground arith

-- The attempt that `to` makes of `a`.
abbrev pub moved : AttemptState → ℕ → Option Text → PaymentAttempt → PaymentAttempt
moved target at reason a = record a {
  state = target;
  resolved_at = some at;
  failure_reason = or_else reason a.failure_reason;
}

to-eq :
    (target : AttemptState) (at : ℕ) (reason : Option Text) (a : PaymentAttempt)
    {b : PaymentAttempt}
    → to target at reason a ≡ ok b
    → (can_transition a.state target ≡ true) × (b ≡ moved target at reason a)
unfolding to
to-eq target at reason a h = elim (Bool-cases (can_transition a.state target)) [
  | inl e ↦ (e, check_attempt-eq (moved target at reason a) (rw e at h))
  | inr e ↦ err-ne-ok (rw e at h)
]

attest-eq :
    (at : ℕ) (amount : Option Money) (reference : Option Text) (a : PaymentAttempt)
    {b : PaymentAttempt}
    → attest at amount reference a ≡ ok b
    → (is_positive (amount_or amount a.amount) ≡ true)
      × (can_transition a.state approved ≡ true)
      × (b ≡ record (moved approved at none a) {
        amount = amount_or amount a.amount;
        txn_ref = or_else reference a.txn_ref;
      })
unfolding attest
attest-eq at amount reference a {b} h =
    elim (Bool-cases (is_positive (amount_or amount a.amount))) [
      | inl e ↦
          let (m, got, last) = >>=-eq-ok (to approved at none a) _ (rw e at h) in
          let (allowed, same) = to-eq approved at none a got in
          let made : b ≡ record m {
            amount = amount_or amount a.amount;
            txn_ref = or_else reference a.txn_ref;
          } =
            check_attempt-eq _ last in
          (
            e,
            allowed,
            made
                ∙ ap {A = PaymentAttempt}
                    (λ x. record x {
                      amount = amount_or amount a.amount;
                      txn_ref = or_else reference a.txn_ref;
                    })
                    same,
          )
      | inr e ↦ err-ne-ok (rw e at h)
    ]

-- One call that moves an attempt and returns.
pub data Move : PaymentAttempt → PaymentAttempt → Type 0 where
  moving :
      {a b : PaymentAttempt} (target : AttemptState) (at : ℕ) (reason : Option Text)
      → to target at reason a ≡ ok b
      → Move a b
  attesting :
      {a b : PaymentAttempt} (at : ℕ) (amount : Option Money) (reference : Option Text)
      → attest at amount reference a ≡ ok b
      → Move a b

-- A move is made from the pending state only, ends in another one, and keeps the id and the method.
pub Move-final :
    {a b : PaymentAttempt}
    → Move a b
    → (a.state ≡ pending) × (b.state ≢ pending) × (b.id ≡ a.id) × (b.method ≡ a.method)
Move-final {a} {b} (moving target at reason h) =
    let (allowed, same) = to-eq target at reason a h in
    let (was, ends) = (can_transition_iff a.state target).0 allowed in
    (was, rw same ends, rw same refl, rw same refl)
Move-final {a} {b} (attesting at amount reference h) =
    let (positive, allowed, same) = attest-eq at amount reference a h in
    let (was, ends) = (can_transition_iff a.state approved).0 allowed in
    (was, rw same ends, rw same refl, rw same refl)

pub data Moves (a : PaymentAttempt) : PaymentAttempt → Type 0 where
  here : Moves a a
  next : {b c : PaymentAttempt} → Moves a b → Move b c → Moves a c

-- Whatever moves are made, at most one is: an attempt is as it was, or it was pending and a single
-- move made it what it is, which is then final. So an approved payment is not un-approved.
pub Moves-final :
    {a b : PaymentAttempt}
    → Moves a b
    → (b ≡ a) ⊎ ((a.state ≡ pending) × (b.state ≢ pending) × Move a b)
Moves-final here = inl refl
Moves-final {a} {b = c} (next moves move) =
    let (was, ends, _, _) = Move-final move in
    elim (Moves-final moves) [
      | inl same ↦ inr (ap (λ x. x.state) (sym same) ∙ was, ends, subst (λ x. Move x c) same move)
      | inr (_, final, _) ↦ absurd (final was)
    ]

-- A pending attempt whose amount is not negative can be moved to every other state, and to its own
-- state never.
pub to-total :
    (target : AttemptState) (at : ℕ) (reason : Option Text) (a : PaymentAttempt)
    → nonneg 0 ≤ℤ a.amount
    → (a.state ≡ pending → target ≢ pending → to target at reason a ≡ ok (moved target at reason a))
      × (a.state ≢ pending → to target at reason a ≡ err illegal_transition)
      × (target ≡ pending → to target at reason a ≡ err illegal_transition)
unfolding to check_attempt can_transition
to-total target at reason a h = (ground arith, ground arith, ground arith)
