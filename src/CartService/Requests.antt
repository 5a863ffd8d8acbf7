-- ===== src/CartService/Requests.antt =====
-- Every request to build a basket, of app/services/cart_service.py, and what it does.
use pos.Prelude.{
  ℕ, ◌≡◌, refl, sym, ap, subst, ◌∙◌, ℤ, Bool, Bool-cases, true, false, [], ◌∷◌, length, Option,
  Option-cases, none, some, inl, inr, Result, Result-cases, ok, err, err-ne-ok, raise_if, map_err,
  Text, text_eq, text_eq_refl, text_eq→eq, ltb_ℤ, leb_ℤ, nonneg, ◌==◌,
}
use mathlib.Core.Option.{some-injective}
use pos.Money.{Money}
use pos.Tax.{TaxCode}
use pos.Pricing.{Discount, LineInput, check_line}
use pos.Cart.{Cart, CartError, line_at}
use pos.Cart as Cart
use pos.Cart.Invariant.{IsValid}
use pos.Cart.History.{Step, adding, voiding, requantifying, discounting, Step-Keeps}
use pos.Barcode.{ScanResult}
use pos.Barcode.Parser.{strip, parse, default_rules}
use pos.CartService.Monad.{continue, call, ◌>>=◌, ◌>>◌}
use pos.CartService.{
  CatalogProduct, Catalog, CartServiceError, barcode_error, cart_error, unknown_barcode,
  needs_description, needs_price, OpenCart, Till, Handler, save,
}
use pos.CartService.Store.{basket, SameBaskets, basket-save, save-SameOthers}
use pos.CartService.Handlers.{
  check_unlocked, require_open_basket, assign_cart, add_line, append, add_product, change_quantity,
  void_line, is_fixed, discount_line, apply_discount, product_of, key_of, resolve, add_scanned,
  add_unlisted, rate_of, report_barcode, report_unknown, unlisted_product_id,
}
use pos.CartService.Refinement.{Effect, Body, get-Effect}

abbrev Edits : Cart → Result CartServiceError Cart → Type 0
Edits c result = (c' : Cart) → result ≡ ok c' → Step c c'

map_err-eq-ok : (r : Result CartError Cart) {c : Cart} → map_err cart_error r ≡ ok c → r ≡ ok c
map_err-eq-ok (ok c) h = cc
map_err-eq-ok (err e) h = err-ne-ok h

assign_cart-Body :
    (o : OpenCart) (result : Result CartServiceError Cart) (t : Till)
    → Edits o.cart result
    → check_unlocked o.attempts ≡ ok tt
    → Body o t (assign_cart o result t)
assign_cart-Body o (err e) t s u = Body.refuses e t (λ key. refl)
assign_cart-Body o (ok c) t s u =
    let new : OpenCart = record o { cart = c } in
    Body.edits new (save new t).1 u (s c refl)
      (basket-save new o.id t ∙ rw (text_eq_refl o.id) refl) (save-SameOthers new t)

require-Body :
    (o : OpenCart) (next : Handler OpenCart) (t : Till)
    → (check_unlocked o.attempts ≡ ok tt → Body o t (next t))
    → Body o t ((require_open_basket o >> next) t)
require-Body o next t b = elim (Result-cases (check_unlocked o.attempts)) [
  | inl (e, h) ↦ rw h (Body.refuses e t (λ key. refl))
  | inr (u, h) ↦ rw h (b h)
]

call-Body :
    {A : Type 0} (o : OpenCart) (result : Result CartServiceError A) (next : A → Handler OpenCart)
    (t : Till)
    → ((a : A) → Body o t (next a t))
    → Body o t ((call result >>= next) t)
call-Body o (err e) next t b = Body.refuses e t (λ key. refl)
call-Body o (ok a) next t b = b a

add_line-Edits :
    (product_id description : Text) (unit_price : Money) (qty_milli : ℤ) (tax_code : TaxCode)
    (barcode : Option Text) (merge : Bool) (c : Cart)
    → Edits c (add_line product_id description unit_price qty_milli tax_code barcode merge c)
unfolding add_line
add_line-Edits product_id description unit_price qty_milli tax_code barcode merge c new h =
    let line : LineInput = record {
      product_id = product_id;
      description = description;
      unit_price = unit_price;
      qty_milli = qty_milli;
      tax_code = tax_code;
      discounts = [];
      barcode_scanned = barcode;
      overridden_by = none;
      override_reason = none;
    } in
    elim (Result-cases (check_line line)) [
      | inl (e, k) ↦ err-ne-ok (rw (add_line, k) at h)
      | inr (checked, k) ↦
          adding checked merge (map_err-eq-ok (Cart.add checked merge c) (rw (add_line, k) at h))
    ]

discount_line-Edits : (n : ℕ) (d : Discount) (c : Cart) → Edits c (discount_line n d c)
unfolding discount_line
discount_line-Edits n d c new h = elim (Bool-cases (is_fixed d.kind)) [
  | inr e ↦ discounting n d (map_err-eq-ok (Cart.apply_discount n d c) (rw (discount_line, e) at h))
  | inl e ↦ elim (Result-cases (line_at n c)) [
    | inl (x, l) ↦ err-ne-ok (rw (discount_line, e, l) at h)
    | inr (line, l) ↦ elim (Bool-cases (ltb_ℤ line.line_total d.value)) [
      | inl g ↦ err-ne-ok (rw (discount_line, e, l, g) at h)
      | inr g ↦
          discounting n d
            (map_err-eq-ok (Cart.apply_discount n d c) (rw (discount_line, e, l, g) at h))
    ]
  ]
]

append-Body :
    (o : OpenCart) (product : CatalogProduct) (qty : ℤ) (barcode : Option Text) (merge : Bool)
    (t : Till)
    → Body o t (append o product qty barcode merge t)
unfolding append
append-Body o product qty barcode merge t =
    require-Body o _ t (assign_cart-Body o _ t (add_line-Edits _ _ _ _ _ barcode merge o.cart))

-- What `resolve` does: it raises, perhaps with a line in the log, or changes nothing.
data Resolved (t : Till)
    : Result CartServiceError (CatalogProduct × ScanResult) × Till → Type 0 where
  unresolved :
      (e : CartServiceError) (after : Till) → SameBaskets t after → Resolved t (err e, after)
  resolved : (product : CatalogProduct) (scan : ScanResult) → Resolved t (ok (product, scan), t)

resolve-Resolved :
    (catalog : Catalog) (raw store_id : Text) (now : ℕ) (t : Till)
    → Resolved t (resolve catalog raw store_id now t)
unfolding resolve
resolve-Resolved catalog raw store_id now t = elim (Result-cases (parse raw default_rules)) [
  | inl (e, h) ↦ rw (resolve, h) (unresolved (barcode_error e) t (λ key. refl))
  | inr (scan, h) ↦ elim (Result-cases (key_of raw scan)) [
    | inl (e, k) ↦ rw (resolve, h, k) (unresolved e t (λ key. refl))
    | inr (key, k) ↦ elim (Option-cases (catalog.by_lookup_key key)) [
      | inl l ↦ rw (resolve, h, k, l) (unresolved (unknown_barcode raw) _ (λ key. refl))
      | inr (product, l) ↦ rw (resolve, h, k, l) (resolved product scan)
    ]
  ]
]

known-Body :
    (o : OpenCart) (t : Till) (next : CatalogProduct × ScanResult → Handler OpenCart)
    → ((product : CatalogProduct) (scan : ScanResult) → Body o t (next (product, scan) t))
    → {p : Result CartServiceError (CatalogProduct × ScanResult) × Till} → Resolved t p
    → Body o t (continue next p)
known-Body o t next b (unresolved e after k) = Body.refuses e after k
known-Body o t next b (resolved product scan) = b product scan

Body-before :
    (o : OpenCart) (t u : Till) {p : Result CartServiceError OpenCart × Till}
    → SameBaskets t u
    → Body o u p
    → Body o t p
Body-before o t u same (Body.refuses e after k) = Body.refuses e after (λ key. k key ∙ same key)
Body-before o t u same (Body.edits new after unlocked step made k) =
    Body.edits new after unlocked step made (λ key other. k key other ∙ same key)

report_barcode-Body :
    (barcode : Option Text) (store_id : Text) (now : ℕ) (o : OpenCart) (next : Handler OpenCart)
    (t : Till)
    → ((u : Till) → Body o u (next u))
    → Body o t ((report_barcode barcode store_id now >> next) t)
unfolding report_unknown
report_barcode-Body none store_id now o next t b = b t
report_barcode-Body (some []) store_id now o next t b = b t
report_barcode-Body (some (c ∷ s)) store_id now o next t b =
    Body-before o t (report_unknown (c ∷ s) store_id now t).1 (λ key. refl) (b _)

-- A request to build a basket.
pub data Request : Type 0 where
  scanned : Text → Request
  unlisted : Text → Money → Text → Option Text → ℤ → Request
  product : Text → ℤ → Request
  quantity : ℕ → ℤ → Request
  void : ℕ → Request
  discount : ℕ → Discount → Request

abbrev pub handle : Catalog → ℕ → Text → Request → Handler OpenCart
handle catalog now id (scanned raw) = add_scanned catalog now id raw
handle catalog now id (unlisted description unit_price tax_code barcode qty) =
    add_unlisted catalog now id description unit_price tax_code barcode qty
handle catalog now id (product product_id qty) = add_product catalog now id product_id qty
handle catalog now id (quantity line_no qty) = change_quantity now id line_no qty
handle catalog now id (void line_no) = void_line now id line_no
handle catalog now id (discount line_no d) = apply_discount now id line_no d

-- Whatever the request, the till and the catalogue: either it is refused and no basket changes, or
-- the basket of the request exists, no payment was approved or is pending for it, one operation of
-- Cart changes it, and no other basket changes.
pub handle-Effect :
    (catalog : Catalog) (now : ℕ) (id : Text) (request : Request) (till : Till)
    → Effect id now till (handle catalog now id request till)
unfolding add_scanned add_unlisted add_product change_quantity void_line apply_discount
handle-Effect catalog now id (scanned raw) till = get-Effect id now till _ λ o t.
    known-Body o t _ (λ product scan. append-Body o product _ (some raw) _ t)
      (resolve-Resolved catalog raw o.store_id now t)
handle-Effect catalog now id (unlisted description unit_price tax_code barcode qty) till =
    get-Effect id now till _ λ o t. require-Body o _ t (λ unlocked.
      call-Body o (raise_if (length (strip description) == 0) needs_description) _ t λ _.
        call-Body o (raise_if (leb_ℤ unit_price (nonneg 0)) needs_price) _ t λ _.
          call-Body o (rate_of (catalog.tax_code tax_code)) _ t λ rate.
            report_barcode-Body barcode o.store_id now o _ t λ u.
              assign_cart-Body o _ u
                (add_line-Edits unlisted_product_id (strip description) unit_price qty rate barcode
                  false o.cart)
                unlocked)
handle-Effect catalog now id (product product_id qty) till = get-Effect id now till _ λ o t.
    call-Body o (product_of (catalog.by_id product_id)) _ t
      λ found. append-Body o found qty none true t
handle-Effect catalog now id (quantity line_no qty) till = get-Effect id now till _ λ o t.
    require-Body o _ t (
      assign_cart-Body o _ t λ c h.
        requantifying line_no qty (map_err-eq-ok (Cart.change_quantity line_no qty o.cart) h))
handle-Effect catalog now id (void line_no) till = get-Effect id now till _ λ o t.
    require-Body o _ t (
      assign_cart-Body o _ t
        λ c h. voiding line_no (map_err-eq-ok (Cart.void_line line_no o.cart) h))
handle-Effect catalog now id (discount line_no d) till =
    get-Effect id now till _
      λ o t. require-Body o _ t (assign_cart-Body o _ t (discount_line-Edits line_no d o.cart))

-- Every basket in the store is well formed.
abbrev pub HasValidBaskets : Till → Type 0
HasValidBaskets till = (key : Text) (c : Cart) → basket key till ≡ some c → IsValid c

Effect-HasValidBaskets :
    (id : Text) (now : ℕ) (till : Till) {p : Result CartServiceError OpenCart × Till}
    → HasValidBaskets till
    → Effect id now till p
    → HasValidBaskets p.1
Effect-HasValidBaskets id now till v (Effect.refuses e after same) key c h =
    v key c (sym (same key) ∙ h)
Effect-HasValidBaskets id now till v (Effect.edits b o after not_frozen was step made same) key c
      h =
    elim (Bool-cases (text_eq id key)) [
      | inr other ↦ v key c (sym (same key other) ∙ h)
      | inl e ↦
          let at_id : basket id after ≡ some c =
            ap (λ k. basket k after) (text_eq→eq id key e) ∙ h in
          let same_cart : o.cart ≡ c = some-injective o.cart c (sym made ∙ at_id) in
          subst IsValid same_cart (Step-Keeps (v id b was) step).valid
    ]

-- Whatever the request, the catalogue and the time, well-formed baskets stay well formed, one that
-- is refused included.
pub handle-HasValidBaskets :
    (catalog : Catalog) (now : ℕ) (id : Text) (request : Request) (till : Till)
    → HasValidBaskets till
    → HasValidBaskets (handle catalog now id request till).1
handle-HasValidBaskets catalog now id request till v =
    Effect-HasValidBaskets id now till v (handle-Effect catalog now id request till)
