-- ===== src/Checkout/Reconciles.antt =====
-- No receipt of a sale that was posted is refused for its figures, neither the first one nor a reprint:
-- `_build_receipt` and `receipt_for_sale` of app/services/sale_service.py.
use pos.Prelude.{
  ℕ, leb, ℤ, ◌+ℤ◌, ◌-ℤ◌, eqb_ℤ, eqb_ℤ_refl, ◌≡◌, ◌⊎◌, inl, inr, refl, sym, ap, ◌∙◌, Bool, true,
  ◌&&◌, List, [], ◌∷◌, traverse, sum_by, sum_by-sort_by, Option, some, Result, Result-cases, ok,
  err, >>=-eq-ok, ok-injective, Text, int_laws, arith,
}
use pos.Money.{Money, zero_money}
use pos.Tax.{TaxCode, TaxComponent, TaxError, breakdown, total_base, total_tax}
use pos.Tax.Breakdown.{breakdown-Accounts}
use pos.Tax.Groups.{item_gross}
use pos.Pricing.Lines.{sum_lines-agree}
use pos.Cart.{totals, tax_breakdown, total_before_rounding}
use pos.Cart.Invariant.{IsValid}
use pos.Cart.Totals.{totals-Agrees, rows-gross, priced-tax_accounted}
use pos.Receipt.{Receipt, reconciles}
use pos.Sales.{Database, SaleLineRow, PaymentRow, Posting, adjustment, grand_total_of}
use pos.Sales.Repository.{sale_row, posted_sale, lines_for, payments_for}
use pos.Sales.Balanced.{IsPosted}
use pos.Checkout.{CheckoutError, tax_error}
use pos.Checkout.Posting.{Settings}
use pos.Checkout.Receipts.{
  receipt_with, receipt_for_cart, stored_code, stored_item, reprint_with, lines_in_order, reprint,
  receipt_for_sale, name_or,
}

eqb_of_eq : {a b : ℤ} → a ≡ b → eqb_ℤ a b ≡ true
eqb_of_eq {a} {b} h = rw h (eqb_ℤ_refl b)

three : {a b c : Bool} → a ≡ true → b ≡ true → c ≡ true → (a && b && c) ≡ true
three p q r = ground arith

receipt_with-agrees :
    (settings : Settings) (new_id : ℕ → Text) (tracks_stock : Text → Bool) (p : Posting)
    (cashier_name : Text) (rows : List TaxComponent)
    → IsValid p.cart
    → tax_breakdown p.cart ≡ ok rows
    → reconciles (
        receipt_with settings p.cart rows
          (posted_sale new_id tracks_stock p)
          p.attempts
          cashier_name)
      ≡ true
unfolding reconciles
receipt_with-agrees settings new_id tracks_stock p cashier_name rows valid h =
    let a = totals-Agrees p.cart valid h in
    three (eqb_of_eq a.discounts) (eqb_ℤ_refl (grand_total_of p)) (eqb_of_eq a.block)

-- The receipt of a basket that was posted is made unless the tax block cannot be, and its figures
-- agree.
pub receipt_for_cart-reconciles :
    (settings : Settings) (new_id : ℕ → Text) (tracks_stock : Text → Bool) (p : Posting)
    (cashier_name : Text)
    → IsValid p.cart
    → let made =
        receipt_for_cart settings p.cart
          (posted_sale new_id tracks_stock p)
          p.attempts
          cashier_name in
      ((e : TaxError) × (tax_breakdown p.cart ≡ err e) × (made ≡ err (tax_error e)))
      ⊎ ((receipt : Receipt) × (made ≡ ok receipt) × (reconciles receipt ≡ true))
unfolding receipt_for_cart
receipt_for_cart-reconciles settings new_id tracks_stock p cashier_name valid =
    elim (Result-cases (tax_breakdown p.cart)) [
      | inl (e, h) ↦ inl (e, h, rw h refl)
      | inr (rows, h) ↦
          let receipt =
            receipt_with settings p.cart rows (posted_sale new_id tracks_stock p) p.attempts
              cashier_name in
          let agrees =
            receipt_with-agrees settings new_id tracks_stock p cashier_name rows valid h in
          inr (receipt, rw (h, agrees) refl, agrees)
    ]

-- The items of a reprint come to what the stored lines come to.
items-total :
    (settings : Settings) (rows : List SaleLineRow) {items : List (TaxCode × Money)}
    → traverse (stored_item settings) rows ≡ ok items
    → sum_by (item_gross (λ _. true)) items ≡ sum_by (λ l. l.line_total) rows
items-total settings [] h = rw (← ok-injective h) refl
items-total settings (row ∷ rows) {items} h =
    let (item, one, h₁) = >>=-eq-ok (stored_item settings row) _ h in
    let (rest, others, h₂) = >>=-eq-ok (traverse (stored_item settings) rows) _ h₁ in
    let (code, made, h₃) = >>=-eq-ok (stored_code settings row) (λ c. ok (c, row.line_total)) one in
    let same : item.1 ≡ row.line_total =
      ap (λ (q : TaxCode × Money). q.1) (sym (ok-injective h₃)) in
    rw (← ok-injective h₂) (
      ap (λ t. t +ℤ sum_by (item_gross (λ _. true)) rest) same
      ∙ ap (row.line_total +ℤ◌) (items-total settings rows others))

reprint_with-agrees :
    (settings : Settings) (p : Posting) (rows : List SaleLineRow) (components : List TaxComponent)
    (payments : List PaymentRow) (name : Text)
    → IsValid p.cart
    → total_base components +ℤ total_tax components ≡ total_before_rounding p.cart
    → reconciles (reprint_with settings (sale_row p) rows components payments name) ≡ true
unfolding reconciles
reprint_with-agrees settings p rows components payments name valid block =
    let (discounts, tax) =
      sum_lines-agree p.cart.lines (priced-tax_accounted p.cart.lines valid.priced) in
    let net = total_before_rounding p.cart in
    let back : net +ℤ adjustment p -ℤ adjustment p ≡ net = omega int_laws in
    let forth : net +ℤ adjustment p -ℤ adjustment p +ℤ adjustment p ≡ net +ℤ adjustment p =
      omega int_laws in
    three (eqb_of_eq (discounts ∙ sym back)) (eqb_of_eq forth) (eqb_of_eq (block ∙ sym back))

-- A receipt of the sale was made, reconciles, carries the totals that were posted and states no change,
-- or the tax block could not be built.
abbrev pub IsReprint : Posting → Result CheckoutError (Option Receipt) → Type 0
IsReprint p made =
    ((e : TaxError) × (made ≡ err (tax_error e)))
    ⊎ ((receipt : Receipt) × (made ≡ ok (some receipt))
        × (reconciles receipt ≡ true)
        × (receipt.receipt_no ≡ p.receipt_no)
        × (receipt.subtotal ≡ (totals p.cart).gross)
        × (receipt.discount_total ≡ (totals p.cart).discount_total)
        × (receipt.total_before_rounding ≡ total_before_rounding p.cart)
        × (receipt.rounding_adjustment ≡ adjustment p)
        × (receipt.grand_total ≡ grand_total_of p)
        × (receipt.change_due ≡ zero_money))

unrounded : (p : Posting) → grand_total_of p -ℤ adjustment p ≡ total_before_rounding p.cart
unrounded p =
    let net = total_before_rounding p.cart in
    let back : net +ℤ adjustment p -ℤ adjustment p ≡ net = omega int_laws in back

reprint-reconciles :
    (settings : Settings) (full_name : Text → Option Text) (fallback_name : Text) (p : Posting)
    (db db' : Database)
    → IsValid p.cart
    → IsPosted p db db'
    → IsReprint p (reprint settings full_name (sale_row p) fallback_name db')
unfolding reprint
reprint-reconciles settings full_name fallback_name p db db' valid posted =
    let rows = lines_in_order settings p.cart_id db' in
    let name = name_or settings (full_name p.cashier_id) fallback_name in
    elim (Result-cases (traverse (stored_item settings) rows)) [
      | inl (e, h) ↦ inl (e, rw h refl)
      | inr (items, h) ↦ (elim (Result-cases (breakdown items)) [
        | inl (e, k) ↦ inl (e, rw (h, k) refl)
        | inr (components, k) ↦
            let block : total_base components +ℤ total_tax components
                ≡ total_before_rounding p.cart =
              sym (rows-gross components)
              ∙ (breakdown-Accounts items k).same_gross (λ _. true)
              ∙ items-total settings rows h
              ∙ sum_by-sort_by (λ a b. leb a.line_no b.line_no) (λ l. l.line_total)
                  (lines_for p.cart_id db')
              ∙ posted.lines in
            let agrees =
              reprint_with-agrees settings p rows components (payments_for p.cart_id db') name valid
                block in
            inr (
              reprint_with settings (sale_row p) rows components (payments_for p.cart_id db') name,
              rw (h, k, agrees) refl,
              agrees,
              refl,
              refl,
              refl,
              unrounded p,
              refl,
              refl,
              refl,
            )
      ])
    ]

-- From the database right after `post_sale` stored a sale, its reprint is made unless the tax block of
-- the stored lines cannot be built. It passes its own check of figures and states the receipt number,
-- the subtotal, the discounts, the total before rounding, the rounding and the grand total of the
-- posting, but no change, whatever was given.
pub receipt_for_sale-reconciles :
    (settings : Settings) (full_name : Text → Option Text) (fallback_name : Text) (p : Posting)
    (db db' : Database)
    → IsValid p.cart
    → IsPosted p db db'
    → IsReprint p (receipt_for_sale settings full_name p.cart_id fallback_name db')
unfolding receipt_for_sale
receipt_for_sale-reconciles settings full_name fallback_name p db db' valid posted =
    rw (posted.sale, receipt_for_sale)
      (reprint-reconciles settings full_name fallback_name p db db' valid posted)
