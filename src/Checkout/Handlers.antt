-- ===== src/Checkout/Handlers.antt =====
-- The operations of app/services/sale_service.py on the carts and the database of a terminal.
use pos.Prelude.{
  ℕ, suc, ◌+◌, ◌+ℤ◌, ltb_ℤ, Bool, ◌&&◌, not, if◌then◌else◌, List, [], ◌∷◌, ◌++◌, Option, none, some,
  Result, ok, err, raise_if, map_err, Text, text_eq, codes,
}
use pos.Money.{Money, zero_money, is_positive}
use pos.Tender.{TenderMethod, cash, upi, TenderError, change_due}
use pos.Cart.{is_empty, is_none}
use pos.Payments.{
  approved, unknown, state_eq, PaymentAttempt, BalanceState, outstanding, is_settled,
  balance_change, to, attest, or_else,
}
use pos.CartService.{OpenCart, Handler, save, balance, get, cart_for_attempt, replace_attempt}
use pos.CartService.Monad.{Action, ◌>>=◌, ◌>>◌, call, done}
use pos.CartService.Handlers.{quote_tender}
use pos.Sales.{is_cash}
use pos.Checkout.{
  CheckoutError, empty_basket, nothing_left, attempt_missing, cart_service_error, payment_error,
  tender_error, Shop, default_attempt_ttl, new_attempt, begin, cancel,
}

abbrev pub Operation : Type 0 → Type 0
Operation = Action Shop CheckoutError

-- A handler of the cart service.
abbrev pub on_carts : {A : Type 0} → Handler A → Operation A
on_carts handler shop =
    let (result, till) = handler shop.till in
    (map_err cart_service_error result, record shop { till = till })

abbrev pub checked : {A E : Type 0} → (E → CheckoutError) → Result E A → Operation A
checked wrap result = call (map_err wrap result)

-- `new_id()`
abbrev pub draw : (ℕ → Text) → Operation Text
draw new_id shop =
    (ok (new_id shop.db.drawn), record shop { db = record shop.db { drawn = suc shop.db.drawn } })

pub record TenderResult : Type 0 where
  pub attempt : PaymentAttempt
  pub balance : BalanceState
  pub settled : Bool

-- `TenderResult(...)` with the balance of the cart.
abbrev pub tender_result : PaymentAttempt → OpenCart → TenderResult
tender_result attempt o = record {
  attempt = attempt;
  balance = balance o;
  settled = is_settled (balance o);
}

-- The rounding is settled when cash is chosen and was not settled before. `quote_tender` gets the cart
-- once more at the same time, when nothing more can expire: it is the one in hand.
abbrev pub settle_rounding : ℕ → Text → TenderMethod → OpenCart → Operation OpenCart
settle_rounding now cart_id method o =
    if is_cash method && is_none o.rounding
    then (do
      r ← on_carts (quote_tender now cart_id method)
      on_carts (save (record o { rounding = some r })))
    else done o

abbrev pub expiry : TenderMethod → ℕ → Option ℕ
expiry cash now = none
expiry upi now = some (now + default_attempt_ttl)

unfoldable pub take_payment :
    (ℕ → Text) → ℕ → Text → TenderMethod → Option Money → Operation TenderResult
take_payment new_id now cart_id method tendered = do
  o ← on_carts (get cart_id now)
  call (raise_if (is_empty o.cart) empty_basket)
  o' ← settle_rounding now cart_id method o
  call (raise_if (not (is_positive (outstanding (balance o')))) nothing_left)
  id ← draw new_id
  attempt ←
      checked payment_error
        (new_attempt id method (outstanding (balance o')) (expiry method now) tendered now)
  resolved ← call (begin method now attempt)
  o'' ← on_carts (save (record o' { attempts = o'.attempts ++ resolved ∷ [] }))
  done (tender_result resolved o'')

abbrev pub attempt_in : Text → List PaymentAttempt → Result CheckoutError PaymentAttempt
attempt_in attempt_id [] = err attempt_missing
attempt_in attempt_id (a ∷ attempts) =
    if text_eq a.id attempt_id then ok a else attempt_in attempt_id attempts

-- The three operations that resolve an attempt: `_attempt`, a change of it, `replace_attempt`.
unfoldable pub resolve :
    (PaymentAttempt → Result CheckoutError PaymentAttempt) → ℕ → Text → Operation TenderResult
resolve change now attempt_id = do
  o ← on_carts (cart_for_attempt attempt_id now)
  attempt ← call (attempt_in attempt_id o.attempts)
  resolved ← call (change attempt)
  o' ← on_carts (replace_attempt o resolved)
  done (tender_result resolved o')

-- `SaleService.attest`
abbrev pub attest_payment : ℕ → Text → Option Money → Option Text → Operation TenderResult
attest_payment now attempt_id amount reference =
    resolve (λ a. map_err payment_error (attest now amount reference a)) now attempt_id

abbrev pub mark_unknown : ℕ → Text → Option Text → Operation TenderResult
mark_unknown now attempt_id reason =
    let said = or_else reason (some (codes "cashier could not confirm receipt")) in
    resolve (λ a. map_err payment_error (to unknown now said a)) now attempt_id

abbrev pub cancel_attempt : ℕ → Text → Operation TenderResult
cancel_attempt now attempt_id = resolve (cancel now) now attempt_id

abbrev pub is_cash_in : PaymentAttempt → Bool
is_cash_in a = is_cash a.method && state_eq a.state approved

-- `attempt.tendered or attempt.amount`: a `Money` is true as an object, also that of zero.
abbrev pub handed_over : PaymentAttempt → Money
handed_over a = elim a.tendered [ none ↦ a.amount | some m ↦ m ]

-- The loop of `change_for`: what cash was owed, and what was handed over.
unfoldable pub cash_loop : List PaymentAttempt → Money → Money → Money × Money
cash_loop [] owed tendered = (owed, tendered)
cash_loop (a ∷ attempts) owed tendered =
    let taken = is_cash_in a in
    cash_loop attempts (if taken then owed +ℤ a.amount else owed)
      (if taken then tendered +ℤ handed_over a else tendered)

abbrev pub surplus_of : Money × Money → Result TenderError Money
surplus_of (owed, tendered) =
    if ltb_ℤ owed tendered then change_due tendered owed else ok zero_money

abbrev pub add_change : Money → Result TenderError Money → Result TenderError Money
add_change more (ok surplus) = ok (surplus +ℤ more)
add_change more (err e) = err e

-- `change_for`, of the cart that it gets
unfoldable pub change_of : OpenCart → Result TenderError Money
change_of o =
    add_change (balance_change (balance o))
      (surplus_of (cash_loop o.attempts zero_money zero_money))

unfoldable pub change_for : ℕ → Text → Operation Money
change_for now cart_id = do o ← on_carts (get cart_id now); checked tender_error (change_of o)
