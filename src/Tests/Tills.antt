-- ===== src/Tests/Tills.antt =====
-- Requests to a till with one open cart.
use mathlib.Core.Option.{some-injective}
use pos.Prelude.{
  if◌then◌else◌, ◌≡◌, refl, subst, Bool-cases, inl, inr, [], ◌∷◌, none, some, true, nonneg, codes,
  text_eq,
}
use pos.Cart.Invariant.{IsValid}
use pos.CartService.{Catalog, CatalogProduct, OpenCart, Till, find_cart}
use pos.CartService.Refinement.{Effect, is_frozen}
use pos.CartService.Requests.{
  Request, handle, handle-Effect, HasValidBaskets, handle-HasValidBaskets,
}
use pos.Tests.{gst5}
use pos.Tests.Baskets.{one_half, one_half-IsValid, waiting}

abbrev sack : CatalogProduct
sack = record {
  product_id = codes "rice";
  display_name = codes "Rice";
  unit_price = nonneg 12_345;
  tax_code = gst5;
  pack_size = nonneg 1;
}

-- A catalogue with one product, found by its code and by its identifier.
abbrev one_product : Catalog
one_product = record {
  by_lookup_key = λ key. if text_eq key (codes "8901030865275") then some sack else none;
  by_id = λ id. if text_eq id (codes "rice") then some sack else none;
  tax_code = λ code. if text_eq code (codes "GST5") then some gst5 else none;
}

abbrev open_one : OpenCart
open_one = record {
  id = codes "c1";
  cart = one_half;
  cashier_id = codes "u1";
  store_id = codes "s1";
  opened_at = 50;
  attempts = [];
  rounding = none;
}

abbrev till_one : Till
till_one = record { carts = open_one ∷ []; unknown_scans = some []; terminal_code = codes "T1" }

-- The same with a payment that waits for the customer until 200.
abbrev till_waiting : Till
till_waiting = record till_one { carts = (record open_one { attempts = waiting ∷ [] }) ∷ [] }

handle-Effect_example :
    Effect
      (codes "c1")
      150
      till_one
      (handle one_product 150 (codes "c1") (Request.scanned (codes "8901030865275")) till_one)
handle-Effect_example =
    handle-Effect one_product 150 (codes "c1") (Request.scanned (codes "8901030865275")) till_one

waiting_frozen : is_frozen (codes "c1") 150 till_waiting ≡ true
unfolding find_cart text_eq pos.Payments.expire_stale pos.Payments.expire_one
    pos.Payments.is_expired_at pos.Payments.approved_total pos.Payments.pending_of
waiting_frozen = refl

till_one-HasValidBaskets : HasValidBaskets till_one
unfolding find_cart
till_one-HasValidBaskets key c h = elim (Bool-cases (text_eq (codes "c1") key)) [
  | inl e ↦ subst IsValid (some-injective one_half c (rw (find_cart, e) at h)) one_half-IsValid
  | inr e ↦ cc (rw (find_cart, e) at h)
]

handle-HasValidBaskets_example :
    HasValidBaskets (handle one_product 150 (codes "c1") (Request.void 1) till_one).1
handle-HasValidBaskets_example =
    handle-HasValidBaskets one_product 150 (codes "c1") (Request.void 1) till_one
      till_one-HasValidBaskets
