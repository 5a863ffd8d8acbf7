-- ===== src/Tests.antt =====
-- Baskets, payments, codes and shifts like those of a day at the till, for the tests below.
mod Amounts
mod Baskets
mod Codes
mod Queue
mod Reductions
mod Sales
mod Shifts
mod Staff
mod Tills
use pos.Prelude.{ℤ, nonneg, negsuc, List, [], ◌∷◌, Option, none, some, true, Text, codes}
use pos.Tax.{TaxCode}
use pos.Pricing.{Discount, DiscountKind, DiscountSource, LineInput}

-- GST of five percent.
abbrev pub gst5 : TaxCode
gst5 = record {
  code = codes "GST5";
  name = codes "GST 5%";
  rate_bp = nonneg 500;
  is_inclusive = true;
}

-- Ten percent off, by a supervisor.
abbrev pub tenth_off : Discount
tenth_off = record {
  kind = DiscountKind.percentage;
  value = nonneg 1000;
  reason = codes "damaged";
  source = DiscountSource.manual;
  promotion_id = none;
}

-- Half a kilo of rice at 123.45 rupees the kilo.
abbrev pub rice : LineInput
rice = record {
  product_id = codes "rice";
  description = codes "Rice";
  unit_price = nonneg 12_345;
  qty_milli = nonneg 500;
  tax_code = gst5;
  discounts = [];
  barcode_scanned = none;
  overridden_by = none;
  override_reason = none;
}

abbrev pub rice_off : LineInput
rice_off = record rice { discounts = tenth_off ∷ [] }

-- The same half kilo taken back.
abbrev pub rice_back : LineInput
rice_back = record rice { qty_milli = negsuc 499; discounts = tenth_off ∷ [] }
