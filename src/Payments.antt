-- ===== src/Payments.antt =====
-- app/domain/payments.py: payment attempts, their states, and the balance that they close. A
-- `datetime` is a number of microseconds.
pub mod Lifecycle
pub mod Balance
pub mod Expiry
use pos.Prelude.{
  ℕ, ◌+◌, ℤ, nonneg, ◌+ℤ◌, ◌-ℤ◌, neg, Bool, true, false, ◌&&◌, not, leb, if◌then◌else◌, List, [],
  ◌∷◌, map, any, keep, Option, none, some, Result, ok, err, ◌>>=◌, ◌>>◌, raise_if, traverse, Text,
}
use pos.Money.{Money, zero_money, is_negative, is_positive, total}
use pos.Tender.{TenderMethod}

pub data AttemptState : Type 0 where
  pending approved declined cancelled expired unknown : AttemptState

abbrev pub state_eq : AttemptState → AttemptState → Bool
state_eq pending pending = true
state_eq approved approved = true
state_eq declined declined = true
state_eq cancelled cancelled = true
state_eq expired expired = true
state_eq unknown unknown = true
state_eq _ _ = false

abbrev pub is_terminal : AttemptState → Bool
is_terminal state = not (state_eq state pending)

abbrev pub counts_toward_balance : AttemptState → Bool
counts_toward_balance state = state_eq state approved

abbrev pub leaves_cart_open : AttemptState → Bool
leaves_cart_open state = any (state_eq state) (declined ∷ cancelled ∷ expired ∷ [])

-- `_TRANSITIONS`
abbrev pub transitions : AttemptState → List AttemptState
transitions pending = approved ∷ declined ∷ cancelled ∷ expired ∷ unknown ∷ []
transitions _ = []

unfoldable pub can_transition : AttemptState → AttemptState → Bool
can_transition current target = any (state_eq target) (transitions current)

pub data PaymentError : Type 0 where
  negative_amount illegal_transition not_positive : PaymentError

pub record PaymentAttempt : Type 0 where
  pub id : Text
  pub method : TenderMethod
  pub amount : Money
  pub state : AttemptState
  pub started_at : Option ℕ
  pub expires_at : Option ℕ
  pub resolved_at : Option ℕ
  pub txn_ref : Option Text
  pub qr_payload : Option Text
  pub failure_reason : Option Text
  pub tendered : Option Money

-- `PaymentAttempt.__post_init__`, which `replace` runs again
unfoldable pub check_attempt : PaymentAttempt → Result PaymentError PaymentAttempt
check_attempt a = raise_if (is_negative a.amount) negative_amount >> ok a

-- `text or other`, where an empty text counts as none
abbrev pub or_else : Option Text → Option Text → Option Text
or_else none other = other
or_else (some []) other = other
or_else (some (c ∷ s)) other = some (c ∷ s)

-- `PaymentAttempt.to`
unfoldable pub to :
    AttemptState → ℕ → Option Text → PaymentAttempt → Result PaymentError PaymentAttempt
unfolding can_transition check_attempt
to target at reason a = do
  raise_if (not (can_transition a.state target)) illegal_transition
  check_attempt (record a {
    state = target;
    resolved_at = some at;
    failure_reason = or_else reason a.failure_reason;
  })

abbrev pub amount_or : Option Money → Money → Money
amount_or none asked = asked
amount_or (some amount) _ = amount

-- `PaymentAttempt.attest`
unfoldable pub attest :
    ℕ → Option Money → Option Text → PaymentAttempt → Result PaymentError PaymentAttempt
unfolding to check_attempt
attest at amount reference a = do
  let paid = amount_or amount a.amount
  raise_if (not (is_positive paid)) not_positive
  moved ← to approved at none a
  check_attempt (record moved { amount = paid; txn_ref = or_else reference a.txn_ref })

-- `PaymentAttempt.is_expired_at`
unfoldable pub is_expired_at : ℕ → PaymentAttempt → Bool
is_expired_at now a = elim a.expires_at [
  | none ↦ false
  | some limit ↦ state_eq a.state pending && leb limit now
]

unfoldable pub approved_total : List PaymentAttempt → Money
approved_total attempts =
    total (map (λ a. a.amount) (keep (λ a. counts_toward_balance a.state) attempts))

-- The function `pending` of the source.
unfoldable pub pending_of : List PaymentAttempt → List PaymentAttempt
pending_of attempts = keep (λ a. state_eq a.state pending) attempts

unfoldable pub needs_review : List PaymentAttempt → Bool
needs_review attempts = any (λ a. state_eq a.state unknown) attempts

pub record BalanceState : Type 0 where
  pub grand_total : Money
  pub paid : Money
  pub rounding_adjustment : Money

abbrev pub outstanding : BalanceState → Money
outstanding b = b.grand_total +ℤ b.rounding_adjustment -ℤ b.paid

unfoldable pub is_settled : BalanceState → Bool
is_settled b = not (is_positive (outstanding b))

-- `BalanceState.change_due`
unfoldable pub balance_change : BalanceState → Money
balance_change b = if is_negative (outstanding b) then neg (outstanding b) else zero_money

unfoldable pub is_short : BalanceState → Bool
is_short b = is_positive b.paid && is_positive (outstanding b)

unfoldable pub balance_of : Money → List PaymentAttempt → Money → BalanceState
balance_of grand_total attempts rounding_adjustment = record {
  grand_total = grand_total;
  paid = approved_total attempts;
  rounding_adjustment = rounding_adjustment;
}

-- One round of the comprehension in `expire_stale`.
unfoldable pub expire_one : Text → ℕ → PaymentAttempt → Result PaymentError PaymentAttempt
expire_one reason now a = if is_expired_at now a then to expired now (some reason) a else ok a

-- `reason` is the text "attempt expired".
unfoldable pub expire_stale :
    Text → ℕ → List PaymentAttempt → Result PaymentError (List PaymentAttempt)
expire_stale reason now = traverse (expire_one reason now)
