-- ===== src/CartService.antt =====
-- app/services/cart_service.py: the open carts of a till. The store is the dict of carts and the
-- log of unknown scans; a cart that a handler holds is the one in the store, so that every
-- assignment to it is written back at once. The lock of the threads is left out: a handler here
-- runs to its end. The catalogue is a table of answers, `now` the clock.
pub mod Monad
pub mod Handlers
pub mod Store
pub mod Refinement
pub mod Requests
pub mod Discounts
use pos.Prelude.{
  ℕ, ◌+◌, ◌==◌, ℤ, nonneg, ◌*ℤ◌, ltb_ℤ, leb_ℤ, Bool, true, false, ◌&&◌, not, if◌then◌else◌, List,
  [], ◌∷◌, ◌++◌, length, any, map, Option, none, some, Result, ok, err, raise_if, map_err, Text,
  text_eq, codes,
}
use pos.Money.{Money, zero_money, is_positive, quantity_scale}
use pos.Tax.{TaxCode}
use pos.Pricing.{Discount, DiscountKind, fixed, LineInput, PricingError, check_line}
use pos.Tender.{TenderMethod, TenderError, CashRounding, rounding_for}
use pos.Cart.{Cart, CartError, empty_cart, line_at, total_before_rounding, is_none, is_nil}
use pos.Cart as Cart
use pos.Payments.{
  PaymentAttempt, PaymentError, BalanceState, approved_total, pending_of, balance_of, expire_stale,
}
use pos.Barcode.{BarcodeError, Reason, ScanResult}
use pos.Barcode.Parser.{default_rules, strip, parse}
use pos.CartService.Monad.{Action, ◌>>=◌, ◌>>◌, call, done, raise}

-- `CatalogProduct`, and the answers of `CatalogRepository`
pub record CatalogProduct : Type 0 where
  pub product_id : Text
  pub display_name : Text
  pub unit_price : Money
  pub tax_code : TaxCode
  pub pack_size : ℤ

pub record Catalog : Type 0 where
  pub by_lookup_key : Text → Option CatalogProduct
  pub by_id : Text → Option CatalogProduct
  pub tax_code : Text → Option TaxCode

pub data CartServiceError : Type 0 where
  cart_not_found attempt_not_found cart_locked payment_in_progress no_such_product :
      CartServiceError
  unreadable : Text → Option Reason → CartServiceError
  unknown_barcode : Text → CartServiceError
  needs_description needs_price no_such_tax_code : CartServiceError
  discount_exceeds_line : ℕ → Money → ℤ → CartServiceError
  -- what the domain raised
  barcode_error : BarcodeError → CartServiceError
  payment_error : PaymentError → CartServiceError
  pricing_error : PricingError → CartServiceError
  cart_error : CartError → CartServiceError
  tender_error : TenderError → CartServiceError

pub record OpenCart : Type 0 where
  pub id : Text
  pub cart : Cart
  pub cashier_id : Text
  pub store_id : Text
  pub opened_at : ℕ
  pub attempts : List PaymentAttempt
  pub rounding : Option CashRounding

-- `OpenCart.rounding_adjustment`
abbrev pub adjustment_of : Option CashRounding → Money
adjustment_of none = zero_money
adjustment_of (some r) = r.adjustment

-- `OpenCart.balance`
unfoldable pub balance : OpenCart → BalanceState
balance o = balance_of (total_before_rounding o.cart) o.attempts (adjustment_of o.rounding)

-- One call of `UnknownScanRepository.record`.
pub record UnknownScan : Type 0 where
  pub barcode : Text
  pub store_id : Text
  pub terminal_id : Text
  pub at : ℕ

-- `unknown_scans` is none for a service without that repository.
pub record Till : Type 0 where
  pub carts : List OpenCart
  pub unknown_scans : Option (List UnknownScan)
  pub terminal_code : Text

abbrev pub Handler : Type 0 → Type 0
Handler = Action Till CartServiceError

-- `self._carts.get(cart_id)`, `self._carts[cart.id] = cart` and `self._carts.pop(cart_id, None)`
unfoldable pub find_cart : Text → List OpenCart → Option OpenCart
find_cart key [] = none
find_cart key (o ∷ carts) =
    let rest = find_cart key carts in if text_eq o.id key then some o else rest

unfoldable pub save_cart : OpenCart → List OpenCart → List OpenCart
save_cart new [] = new ∷ []
save_cart new (o ∷ carts) =
    let rest = save_cart new carts in if text_eq o.id new.id then new ∷ carts else o ∷ rest

unfoldable pub drop_cart : Text → List OpenCart → List OpenCart
drop_cart key [] = []
drop_cart key (o ∷ carts) =
    let rest = drop_cart key carts in if text_eq o.id key then rest else o ∷ rest

-- An assignment to an attribute of a stored cart.
abbrev pub save : OpenCart → Handler OpenCart
save o till = (ok o, record till { carts = save_cart o till.carts })

-- `CartService.open`
unfoldable pub open_cart : Text → Text → Text → ℕ → Handler OpenCart
open_cart new_id cashier_id store_id now = save (record {
  id = new_id;
  cart = empty_cart;
  cashier_id = cashier_id;
  store_id = store_id;
  opened_at = now;
  attempts = [];
  rounding = none;
})

unfoldable pub discard : Text → Handler (Unit {0})
discard cart_id till = (ok tt, record till { carts = drop_cart cart_id till.carts })

-- `_expire_attempts`
unfoldable pub expire_attempts : ℕ → OpenCart → Handler OpenCart
expire_attempts now o = do
  attempts ← call (map_err payment_error (expire_stale (codes "attempt expired") now o.attempts))
  save (record o { attempts = attempts })

abbrev pub found : Option OpenCart → CartServiceError → Handler OpenCart
found none error = raise error
found (some o) error = done o

-- `CartService.get`
unfoldable pub get : Text → ℕ → Handler OpenCart
unfolding expire_attempts
get cart_id now till =
    (found (find_cart cart_id till.carts) cart_not_found >>= expire_attempts now) till

unfoldable pub cart_with_attempt : Text → List OpenCart → Option OpenCart
cart_with_attempt attempt_id [] = none
cart_with_attempt attempt_id (o ∷ carts) =
    let rest = cart_with_attempt attempt_id carts in
    if any (λ a. text_eq a.id attempt_id) o.attempts then some o else rest

unfoldable pub cart_for_attempt : Text → ℕ → Handler OpenCart
unfolding expire_attempts
cart_for_attempt attempt_id now till =
    (found (cart_with_attempt attempt_id till.carts) attempt_not_found >>= expire_attempts now) till

unfoldable pub replace_attempt : OpenCart → PaymentAttempt → Handler OpenCart
replace_attempt o attempt =
    save
      (record o { attempts = map (λ a. if text_eq a.id attempt.id then attempt else a) o.attempts })
