-- ===== src/Receipt.antt =====
-- app/domain/receipt.py: what a receipt says, and whether its figures agree.
use pos.Prelude.{ℕ, ℤ, ◌+ℤ◌, ◌-ℤ◌, eqb_ℤ, Bool, ◌&&◌, not, List, length, any, Option, Text}
use pos.Money.{Money, is_zero}
use pos.Tax.{TaxComponent, total_tax, total_base}
use pos.Tender.{TenderMethod}

pub record ReceiptLine : Type 0 where
  pub line_no : ℕ
  pub description : Text
  pub qty_milli : ℤ
  pub unit_price : Money
  pub discount : Money
  pub line_total : Money

abbrev pub has_discount : ReceiptLine → Bool
has_discount line = not (is_zero line.discount)

pub record ReceiptPayment : Type 0 where
  pub method : TenderMethod
  pub amount : Money
  pub verified : Bool
  pub reference : Option Text

pub record Receipt : Type 0 where
  pub receipt_no : Text
  pub sale_id : Text
  pub issued_at : ℕ
  pub store_name : Text
  pub store_gstin : Option Text
  pub terminal_code : Text
  pub cashier_name : Text
  pub lines : List ReceiptLine
  pub tax_components : List TaxComponent
  pub subtotal : Money
  pub discount_total : Money
  pub total_before_rounding : Money
  pub rounding_adjustment : Money
  pub grand_total : Money
  pub payments : List ReceiptPayment
  pub change_due : Money
  pub is_reprint : Bool
  pub requires_review : Bool

abbrev pub item_count : Receipt → ℕ
item_count r = length r.lines

abbrev pub tax_total : Receipt → Money
tax_total r = total_tax r.tax_components

abbrev pub taxable_total : Receipt → Money
taxable_total r = total_base r.tax_components

abbrev pub shows_rounding : Receipt → Bool
shows_rounding r = not (is_zero r.rounding_adjustment)

abbrev pub has_unverified_payment : Receipt → Bool
has_unverified_payment r = any (λ p. not p.verified) r.payments

-- Three tests in the order of the source; the first that fails answers.
unfoldable pub reconciles : Receipt → Bool
reconciles r =
    eqb_ℤ (r.subtotal -ℤ r.discount_total) r.total_before_rounding
    && eqb_ℤ (r.total_before_rounding +ℤ r.rounding_adjustment) r.grand_total
    && eqb_ℤ (taxable_total r +ℤ tax_total r) r.total_before_rounding
