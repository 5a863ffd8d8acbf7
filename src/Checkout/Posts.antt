-- ===== src/Checkout/Posts.antt =====
-- `post` of app/services/sale_service.py: a whole sale, or nothing.
use pos.Prelude.{Result}
use pos.Money.{Money}
use pos.CartService.{Till}
use pos.CartService.Store.{SameBaskets}
use pos.Checkout.{CheckoutError, Shop}

-- An operation that leaves the database and every basket alone.
data Spares {A : Type 0} (shop : Shop) : Result CheckoutError A × Shop → Type 0 where
  spares :
      (r : Result CheckoutError A) (till : Till)
      → SameBaskets shop.till till
      → Spares shop (r, record shop { till = till })
