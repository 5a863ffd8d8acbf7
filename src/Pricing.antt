-- ===== src/Pricing.antt =====
-- app/domain/pricing.py: one line priced from start to finish, and sums over priced lines.
pub mod Discounts
pub mod Lines
pub mod Reductions
use pos.Prelude.{
  ℤ, nonneg, ◌+ℤ◌, ◌-ℤ◌, ltb_ℤ, eqb_ℤ, Bool, true, false, ◌&&◌, if◌then◌else◌, List, [], ◌∷◌, ◌++◌,
  map, keep, Option, Result, ok, err, ◌>>=◌, ◌>>◌, raise_if, map_err, Text,
}
use pos.Money.{Money, is_zero, total, multiply_by_quantity, percentage_of}
use pos.Tax.{TaxCode, TaxError, extract_inclusive_tax}

-- `DiscountKind` names the first two; the register passes "fixed", and all but a percentage is
-- treated as an amount.
pub data DiscountKind : Type 0 where
  percentage amount fixed : DiscountKind

pub data DiscountSource : Type 0 where
  promotion manual : DiscountSource

pub data PricingError : Type 0 where
  negative_discount over_hundred_percent no_quantity : PricingError
  tax_error : TaxError → PricingError

pub record Discount : Type 0 where
  pub kind : DiscountKind
  pub value : ℤ
  pub reason : Text
  pub source : DiscountSource
  pub promotion_id : Option Text

abbrev pub is_percentage : DiscountKind → Bool
is_percentage DiscountKind.percentage = true
is_percentage _ = false

abbrev pub is_promotion : DiscountSource → Bool
is_promotion promotion = true
is_promotion manual = false

abbrev pub is_manual : DiscountSource → Bool
is_manual promotion = false
is_manual manual = true

-- `Discount.__post_init__`
unfoldable pub check_discount : Discount → Result PricingError Discount
check_discount d = do
  raise_if (ltb_ℤ d.value (nonneg 0)) negative_discount
  raise_if (is_percentage d.kind && ltb_ℤ (nonneg 10_000) d.value) over_hundred_percent
  ok d

-- `Discount.against`
unfoldable pub against : Discount → Money → Money
against d running = if is_percentage d.kind then percentage_of running d.value else d.value

pub record LineInput : Type 0 where
  pub product_id : Text
  pub description : Text
  pub unit_price : Money
  pub qty_milli : ℤ
  pub tax_code : TaxCode
  pub discounts : List Discount
  pub barcode_scanned : Option Text
  pub overridden_by : Option Text
  pub override_reason : Option Text

-- `LineInput.__post_init__`, which `replace` runs again
unfoldable pub check_line : LineInput → Result PricingError LineInput
check_line line = raise_if (eqb_ℤ line.qty_milli (nonneg 0)) no_quantity >> ok line

pub record AppliedDiscount : Type 0 where
  pub discount : Discount
  pub amount : Money

pub record PricedLine : Type 0 where
  pub line : LineInput
  pub gross : Money
  pub applied : List AppliedDiscount
  pub line_total : Money
  pub tax_amount : Money
  pub taxable_base : Money

-- `PricedLine.discount_total`
abbrev pub line_discount : PricedLine → Money
line_discount p = p.gross -ℤ p.line_total

-- `_ordered`
unfoldable pub ordered : List Discount → List Discount
ordered discounts =
    keep (λ d. is_promotion d.source) discounts ++ keep (λ d. is_manual d.source) discounts

-- What one round of the loop takes off: the discount, and never more than what is left.
unfoldable pub taken_off : Discount → Money → Money
taken_off discount running =
    let amount = against discount running in if ltb_ℤ running amount then running else amount

-- The loop: what was applied, and the amount left.
unfoldable pub apply_discounts : List Discount → Money → List AppliedDiscount × Money
apply_discounts [] running = ([], running)
apply_discounts (discount ∷ discounts) running =
    let amount = taken_off discount running in
    let (applied, left) =
      apply_discounts discounts (if is_zero amount then running else running -ℤ amount) in
    (
      if is_zero amount then applied else record { discount = discount; amount = amount } ∷ applied,
      left,
    )

unfoldable pub price_line : LineInput → Result PricingError PricedLine
price_line line =
    let gross = multiply_by_quantity line.unit_price line.qty_milli in
    let (applied, running) = apply_discounts (ordered line.discounts) gross in
    map_err tax_error (extract_inclusive_tax running line.tax_code.rate_bp) >>= λ tax_amount.
    ok (record {
      line = line;
      gross = gross;
      applied = applied;
      line_total = running;
      tax_amount = tax_amount;
      taxable_base = running -ℤ tax_amount;
    })

pub record LineTotals : Type 0 where
  pub gross : Money
  pub discount_total : Money
  pub net : Money
  pub tax_total : Money
  pub taxable_base : Money

unfoldable pub sum_lines : List PricedLine → LineTotals
sum_lines lines = record {
  gross = total (map (λ line. line.gross) lines);
  discount_total = total (map line_discount lines);
  net = total (map (λ line. line.line_total) lines);
  tax_total = total (map (λ line. line.tax_amount) lines);
  taxable_base = total (map (λ line. line.taxable_base) lines);
}
