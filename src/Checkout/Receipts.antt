-- ===== src/Checkout/Receipts.antt =====
-- The receipts of app/services/sale_service.py: of a sale that was just posted, and of one that is
-- stored.
use pos.Prelude.{
  ℕ, leb, ◌-ℤ◌, Bool, true, false, not, List, [], ◌∷◌, map, keep, sort_by, traverse, Option, none,
  some, Result, ok, ◌>>=◌, ◌>>◌, raise_if, map_err, Text, codes,
}
use pos.Money.{Money, zero_money}
use pos.Tax.{TaxCode, TaxComponent, TaxError, new_tax_code, breakdown}
use pos.Cart.{Cart, tax_breakdown, totals, total_before_rounding}
use pos.Pricing.{PricedLine, line_discount}
use pos.Payments.{approved, state_eq, PaymentAttempt}
use pos.Receipt.{Receipt, ReceiptLine, ReceiptPayment, reconciles}
use pos.Sales.{
  Database, SaleStatus, completed, requires_review, PostedSale, SaleRow, SaleLineRow, PaymentRow,
  numbered, is_cash,
}
use pos.Sales.Repository.{find_sale, lines_for, payments_for}
use pos.Checkout.{CheckoutError, receipt_error, tax_error}
use pos.Checkout.Posting.{Settings}

module _ (settings : Settings) where
  abbrev pub gstin_of : Text → Option Text
  gstin_of [] = none
  gstin_of (c ∷ text) = some (c ∷ text)

  abbrev pub line_of : ℕ × PricedLine → ReceiptLine
  line_of (line_no, line) = record {
    line_no = line_no;
    description = line.line.description;
    qty_milli = line.line.qty_milli;
    unit_price = line.line.unit_price;
    discount = line_discount line;
    line_total = line.line_total;
  }

  abbrev pub payment_of : PaymentAttempt → ReceiptPayment
  payment_of a = record {
    method = a.method;
    amount = a.amount;
    verified = is_cash a.method;
    reference = a.txn_ref;
  }

  abbrev pub in_review : SaleStatus → Bool
  in_review requires_review = true
  in_review completed = false

  abbrev pub receipt_with :
      Cart → List TaxComponent → PostedSale → List PaymentAttempt → Text → Receipt
  receipt_with cart rows sale attempts cashier_name = record {
    receipt_no = sale.receipt_no;
    sale_id = sale.sale_id;
    issued_at = sale.posted_at;
    store_name = settings.store_name;
    store_gstin = gstin_of settings.store_gstin;
    terminal_code = settings.terminal_code;
    cashier_name = cashier_name;
    lines = map line_of (numbered cart);
    tax_components = rows;
    subtotal = (totals cart).gross;
    discount_total = (totals cart).discount_total;
    total_before_rounding = total_before_rounding cart;
    rounding_adjustment = sale.rounding_adjustment;
    grand_total = sale.grand_total;
    payments = map payment_of (keep (λ a. state_eq a.state approved) attempts);
    change_due = sale.change_due;
    is_reprint = false;
    requires_review = in_review sale.status;
  }

  -- `_build_receipt`, as `receipt_for_cart` calls it
  unfoldable pub receipt_for_cart :
      Cart → PostedSale → List PaymentAttempt → Text → Result CheckoutError Receipt
  receipt_for_cart cart sale attempts cashier_name = do
    rows ← map_err tax_error (tax_breakdown cart)
    raise_if (not (reconciles (receipt_with cart rows sale attempts cashier_name))) receipt_error
    ok (receipt_with cart rows sale attempts cashier_name)

  abbrev pub stored_line : SaleLineRow → ReceiptLine
  stored_line row = record {
    line_no = row.line_no;
    description = row.description;
    qty_milli = row.qty_milli;
    unit_price = row.unit_price;
    discount = row.discount_amount;
    line_total = row.line_total;
  }

  abbrev pub stored_payment : PaymentRow → ReceiptPayment
  stored_payment row = record {
    method = row.method;
    amount = row.amount;
    verified = row.verified;
    reference = row.tender_ref;
  }

  -- `row["tax_code"] or "GST0"`
  abbrev pub code_or_none : Text → Text
  code_or_none [] = codes "GST0"
  code_or_none (c ∷ text) = c ∷ text

  abbrev pub stored_code : SaleLineRow → Result TaxError TaxCode
  stored_code row =
      new_tax_code (code_or_none row.tax_code) (code_or_none row.tax_code) row.tax_rate_bp true

  abbrev pub stored_item : SaleLineRow → Result TaxError (TaxCode × Money)
  stored_item row = stored_code row >>= λ code. ok (code, row.line_total)

  abbrev pub name_or : Option Text → Text → Text
  name_or none fallback = fallback
  name_or (some name) fallback = name

  abbrev pub reprint_with :
      SaleRow → List SaleLineRow → List TaxComponent → List PaymentRow → Text → Receipt
  reprint_with sale rows components payments cashier_name = record {
    receipt_no = sale.receipt_no;
    sale_id = sale.id;
    issued_at = sale.client_created_at;
    store_name = settings.store_name;
    store_gstin = gstin_of settings.store_gstin;
    terminal_code = sale.terminal_id;
    cashier_name = cashier_name;
    lines = map stored_line rows;
    tax_components = components;
    subtotal = sale.subtotal;
    discount_total = sale.discount_total;
    total_before_rounding = sale.grand_total -ℤ sale.rounding_adjustment;
    rounding_adjustment = sale.rounding_adjustment;
    grand_total = sale.grand_total;
    payments = map stored_payment payments;
    change_due = zero_money;
    is_reprint = true;
    requires_review = in_review sale.status;
  }

  -- `ORDER BY line_no`
  abbrev pub lines_in_order : Text → Database → List SaleLineRow
  lines_in_order sale_id db = sort_by (λ a b. leb a.line_no b.line_no) (lines_for sale_id db)

  -- The receipt of a sale that was found. `full_name` is the column of `cached_users`.
  unfoldable pub reprint :
      (Text → Option Text) → SaleRow → Text → Database → Result CheckoutError (Option Receipt)
  reprint full_name sale fallback_name db = do
    let rows = lines_in_order sale.id db
    items ← map_err tax_error (traverse stored_item rows)
    components ← map_err tax_error (breakdown items)
    let receipt =
        reprint_with sale rows components (payments_for sale.id db)
          (name_or (full_name sale.cashier_id) fallback_name)
    raise_if (not (reconciles receipt)) receipt_error
    ok (some receipt)

  -- `receipt_for_sale`
  unfoldable pub receipt_for_sale :
      (Text → Option Text) → Text → Text → Database → Result CheckoutError (Option Receipt)
  receipt_for_sale full_name sale_id fallback_name db = elim (find_sale sale_id db.sales) [
    | none ↦ ok none
    | some sale ↦ reprint full_name sale fallback_name db
  ]
