-- ===== src/Checkout.antt =====
-- app/services/sale_service.py over app/services/payment_providers.py: payments are taken for an open
-- cart until it is settled, and then it is posted. A handler awaits nothing that another handler could
-- change, and runs to its end here. `now` is the clock, `new_id n` the n-th identifier drawn.
pub mod Handlers
pub mod Posting
pub mod Receipts
pub mod Reconciles
pub mod Change
pub mod Outcomes
pub mod Posts
use pos.Prelude.{
  ℕ, suc, ◌+◌, ◌*◌, ℤ, nonneg, ◌+ℤ◌, ◌-ℤ◌, ltb_ℤ, Bool, true, false, ◌&&◌, not, if◌then◌else◌, List,
  [], ◌∷◌, ◌++◌, Option, none, some, Result, ok, err, ◌>>=◌, ◌>>◌, raise_if, map_err, Text, text_eq,
  codes,
}
use pos.Money.{Money, zero_money, is_positive}
use pos.Tax.{TaxError}
use pos.Tender.{TenderMethod, cash, upi, TenderError}
use pos.Payments.{
  AttemptState, pending, approved, cancelled, state_eq, PaymentAttempt, PaymentError, check_attempt,
  to,
}
use pos.CartService.{CartServiceError, Till}
use pos.Sales.{Database, SalesError, is_cash}

pub data CheckoutError : Type 0 where
  empty_basket nothing_left not_expiring already_taken wrong_provider sale_not_settled no_open_shift
        receipt_error attempt_missing :
      CheckoutError
  -- what the services below raised
  cart_service_error : CartServiceError → CheckoutError
  payment_error : PaymentError → CheckoutError
  tender_error : TenderError → CheckoutError
  tax_error : TaxError → CheckoutError
  sales_error : SalesError → CheckoutError

-- The open carts and the database of the terminal.
pub record Shop : Type 0 where
  pub till : Till
  pub db : Database

-- `DEFAULT_ATTEMPT_TTL`, in microseconds
abbrev pub default_attempt_ttl : ℕ
default_attempt_ttl = 300 * 1_000_000

-- `new_attempt`
unfoldable pub new_attempt :
    Text → TenderMethod → Money → Option ℕ → Option Money → ℕ → Result PaymentError PaymentAttempt
new_attempt id method amount expires_at tendered now = check_attempt (record {
  id = id;
  method = method;
  amount = amount;
  state = pending;
  started_at = some now;
  expires_at = expires_at;
  resolved_at = none;
  txn_ref = none;
  qr_payload = none;
  failure_reason = none;
  tendered = tendered;
})

-- `CashProvider.begin` and `UpiProvider.begin`, each with its check of the method.
unfoldable pub begin_cash : ℕ → PaymentAttempt → Result CheckoutError PaymentAttempt
begin_cash now a = do
  raise_if (not (is_cash a.method)) wrong_provider
  map_err payment_error (to approved now none a)

abbrev expires : Option ℕ → Bool
expires none = false
expires (some _) = true

unfoldable pub begin_upi : PaymentAttempt → Result CheckoutError PaymentAttempt
begin_upi a = do
  raise_if (is_cash a.method) wrong_provider
  raise_if (not (expires a.expires_at)) not_expiring
  ok a

-- `ProviderRegistry.for_method` of `default_registry`, and `begin` of what it finds
unfoldable pub begin : TenderMethod → ℕ → PaymentAttempt → Result CheckoutError PaymentAttempt
begin cash now a = begin_cash now a
begin upi now a = begin_upi a

-- `cancel`, which is the same for both providers
unfoldable pub cancel : ℕ → PaymentAttempt → Result CheckoutError PaymentAttempt
cancel now a = do
  raise_if (state_eq a.state approved) already_taken
  map_err payment_error (to cancelled now (some (codes "cancelled")) a)
