-- ===== src/CartService/Handlers.antt =====
-- The handlers of app/services/cart_service.py that build a basket, and the quote for a tender.
use pos.Prelude.{
  ℕ, ◌==◌, ℤ, nonneg, ◌*ℤ◌, ltb_ℤ, leb_ℤ, Bool, true, false, if◌then◌else◌, List, [], ◌∷◌, ◌++◌,
  length, Option, none, some, Result, ok, err, raise_if, map_err, Text, codes,
}
use pos.Money.{Money, is_positive, quantity_scale}
use pos.Tax.{TaxCode}
use pos.Pricing.{Discount, DiscountKind, fixed, LineInput, check_line}
use pos.Tender.{TenderMethod, CashRounding, rounding_for}
use pos.Cart.{Cart, line_at, is_none, is_nil}
use pos.Cart as Cart
use pos.Payments.{PaymentAttempt, approved_total, pending_of}
use pos.Barcode.{ScanResult}
use pos.Barcode.Parser.{default_rules, strip, parse}
use pos.CartService.Monad.{◌>>=◌, ◌>>◌, call, done, raise}
use pos.CartService.{
  CatalogProduct, Catalog, CartServiceError, cart_locked, payment_in_progress, no_such_product,
  unreadable, unknown_barcode, needs_description, needs_price, no_such_tax_code,
  discount_exceeds_line, barcode_error, pricing_error, cart_error, tender_error, OpenCart,
  UnknownScan, Handler, save, get,
}

-- `self.unknown_scans.record(...)`, if there is that repository
unfoldable pub report_unknown : Text → Text → ℕ → Handler (Unit {0})
report_unknown barcode store_id now till =
    let scan : UnknownScan = record {
      barcode = barcode;
      store_id = store_id;
      terminal_id = till.terminal_code;
      at = now;
    } in
    (
      ok tt,
      record till {
        unknown_scans = elim till.unknown_scans [
          | none ↦ none
          | some scans ↦ some (scans ++ scan ∷ [])
        ];
      },
    )

-- `if not scan.is_usable or scan.lookup_key is None: raise`
abbrev pub key_of : Text → ScanResult → Result CartServiceError Text
key_of raw scan = elim scan.lookup_key [
  | none ↦ err (unreadable raw scan.error)
  | some key ↦ ok key
]

abbrev pub known : Text → Text → ℕ → Option CatalogProduct → Handler CatalogProduct
known raw store_id now (some product) = done product
known raw store_id now none = report_unknown raw store_id now >> raise (unknown_barcode raw)

unfoldable pub resolve : Catalog → Text → Text → ℕ → Handler (CatalogProduct × ScanResult)
unfolding report_unknown
resolve catalog raw store_id now = do
  scan ← call (map_err barcode_error (parse raw default_rules))
  key ← call (key_of raw scan)
  product ← known raw store_id now (catalog.by_lookup_key key)
  done (product, scan)

-- The attempts that freeze a basket, and `_require_open_basket`.
unfoldable pub check_unlocked : List PaymentAttempt → Result CartServiceError (Unit {0})
check_unlocked attempts =
    if is_positive (approved_total attempts)
    then err cart_locked
    else (if is_nil (pending_of attempts) then ok tt else err payment_in_progress)

abbrev pub require_open_basket : OpenCart → Handler (Unit {0})
require_open_basket o = call (check_unlocked o.attempts)

-- `open_cart.cart = ...`
abbrev pub assign_cart : OpenCart → Result CartServiceError Cart → Handler OpenCart
assign_cart o result = call result >>= λ c. save (record o { cart = c })

-- `LineInput(...)` without discounts or an override, then `Cart.add`
unfoldable pub add_line :
    Text → Text → Money → ℤ → TaxCode → Option Text → Bool → Cart → Result CartServiceError Cart
add_line product_id description unit_price qty_milli tax_code barcode merge cart =
    let line : LineInput = record {
      product_id = product_id;
      description = description;
      unit_price = unit_price;
      qty_milli = qty_milli;
      tax_code = tax_code;
      discounts = [];
      barcode_scanned = barcode;
      overridden_by = none;
      override_reason = none;
    } in
    elim (check_line line) [
      | err e ↦ err (pricing_error e)
      | ok checked ↦ map_err cart_error (Cart.add checked merge cart)
    ]

-- `_append`
unfoldable pub append : OpenCart → CatalogProduct → ℤ → Option Text → Bool → Handler OpenCart
unfolding check_unlocked
append o product qty_milli barcode merge =
    require_open_basket o
    >> assign_cart o (
        add_line product.product_id product.display_name product.unit_price qty_milli
          product.tax_code barcode merge o.cart)

abbrev pub scanned_quantity : CatalogProduct → Option ℤ → ℤ
scanned_quantity product (some qty_milli) = qty_milli
scanned_quantity product none = product.pack_size *ℤ nonneg quantity_scale

-- `scan.qty_milli`, as a signed integer
abbrev pub carried : ScanResult → Option ℤ
carried scan = elim scan.qty_milli [ none ↦ none | some q ↦ some (nonneg q) ]

unfoldable pub add_scanned : Catalog → ℕ → Text → Text → Handler OpenCart
add_scanned catalog now cart_id raw = do
  o ← get cart_id now
  (product, scan) ← resolve catalog raw o.store_id now
  append o product (scanned_quantity product (carried scan)) (some raw) (is_none scan.qty_milli)

-- `UNLISTED_PRODUCT_ID` of app/domain/unlisted.py
abbrev pub unlisted_product_id : Text
unlisted_product_id = codes "018f0000-0000-7000-8000-0000000000ff"

abbrev pub rate_of : Option TaxCode → Result CartServiceError TaxCode
rate_of none = err no_such_tax_code
rate_of (some rate) = ok rate

-- `if barcode and self.unknown_scans is not None`
abbrev pub report_barcode : Option Text → Text → ℕ → Handler (Unit {0})
report_barcode none store_id now = done tt
report_barcode (some []) store_id now = done tt
report_barcode (some (c ∷ s)) store_id now = report_unknown (c ∷ s) store_id now

unfoldable pub add_unlisted :
    Catalog → ℕ → Text → Text → Money → Text → Option Text → ℤ → Handler OpenCart
add_unlisted catalog now cart_id description unit_price tax_code barcode qty_milli = do
  o ← get cart_id now
  require_open_basket o
  call (raise_if (length (strip description) == 0) needs_description)
  call (raise_if (leb_ℤ unit_price (nonneg 0)) needs_price)
  rate ← call (rate_of (catalog.tax_code tax_code))
  report_barcode barcode o.store_id now
  assign_cart o (
      add_line unlisted_product_id (strip description) unit_price qty_milli rate barcode false
        o.cart)

abbrev pub product_of : Option CatalogProduct → Result CartServiceError CatalogProduct
product_of none = err no_such_product
product_of (some product) = ok product

unfoldable pub add_product : Catalog → ℕ → Text → Text → ℤ → Handler OpenCart
add_product catalog now cart_id product_id qty_milli = do
  o ← get cart_id now
  product ← call (product_of (catalog.by_id product_id))
  append o product qty_milli none true

unfoldable pub change_quantity : ℕ → Text → ℕ → ℤ → Handler OpenCart
change_quantity now cart_id line_no qty_milli = do
  o ← get cart_id now
  require_open_basket o
  assign_cart o (map_err cart_error (Cart.change_quantity line_no qty_milli o.cart))

unfoldable pub void_line : ℕ → Text → ℕ → Handler OpenCart
void_line now cart_id line_no = do
  o ← get cart_id now
  require_open_basket o
  assign_cart o (map_err cart_error (Cart.void_line line_no o.cart))

-- `discount.kind == "fixed"`
abbrev pub is_fixed : DiscountKind → Bool
is_fixed fixed = true
is_fixed _ = false

-- The guard of `apply_discount`, then the discount.
unfoldable pub discount_line : ℕ → Discount → Cart → Result CartServiceError Cart
discount_line line_no discount cart =
    let discounted = map_err cart_error (Cart.apply_discount line_no discount cart) in
    if is_fixed discount.kind
    then (elim (line_at line_no cart) [
      | err e ↦ err (cart_error e)
      | ok line ↦
          if ltb_ℤ line.line_total discount.value
          then err (discount_exceeds_line line_no line.line_total discount.value)
          else discounted
    ])
    else discounted

unfoldable pub apply_discount : ℕ → Text → ℕ → Discount → Handler OpenCart
apply_discount now cart_id line_no discount = do
  o ← get cart_id now
  require_open_basket o
  assign_cart o (discount_line line_no discount o.cart)

unfoldable pub quote_tender : ℕ → Text → TenderMethod → Handler CashRounding
quote_tender now cart_id method = do
  o ← get cart_id now
  call
      (map_err tender_error (rounding_for (Cart.balance o.cart (approved_total o.attempts)) method))
