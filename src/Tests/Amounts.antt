-- ===== src/Tests/Amounts.antt =====
-- Amounts, taxes, prices, tenders and payments on concrete figures.
use pos.Prelude.{
  ℕ, ◌+◌, ◌*◌, ◌-◌, ◌/◌, ◌≤◌, ◌<◌, ◌≡◌, ◌≢◌, refl, ℤ, nonneg, negsuc, ◌+ℤ◌, ◌-ℤ◌, ◌≤ℤ◌, ◌<ℤ◌, sum_ℤ,
  sum_by, List, [], ◌∷◌, All, length, Option, none, some, ok, err, true, false, arith, int_laws,
  codes, Text, if◌then◌else◌,
}
use pos.Money.{Money, multiply_by_quantity, half_up, quantize_to_paise}
use pos.Money.Allocation.{allocate}
use pos.Money.Allocation.Sum.{sum_ℤ-allocate}
use pos.Tax.{
  TaxCode, TaxComponent, extract_inclusive_tax, split_cgst_sgst, component_for, breakdown,
}
use pos.Tax.Extraction.{extract_inclusive_tax_nearest}
use pos.Tax.Breakdown.{Accounts, breakdown-Accounts}
use pos.Pricing.{LineInput, PricedLine, price_line, sum_lines}
use pos.Pricing.Discounts.{IsDiscount}
use pos.Pricing.Lines.{Reconciles, price_line-Reconciles}
use pos.Tender.{TenderMethod, rounding_for}
use pos.Tender.Rounding.{round_cash_tender_lem}
use pos.Tests.{gst5, tenth_off, rice_off, rice_back}

-- 10 paise over three equal weights.
allocate_thirds :
    allocate (nonneg 10) (nonneg 1 ∷ nonneg 1 ∷ nonneg 1 ∷ [])
    ≡ ok (nonneg 4 ∷ nonneg 3 ∷ nonneg 3 ∷ [])
unfolding allocate ◌+ℤ◌ pos.Money.Allocation.distribute pos.Money.Allocation.hand_out ◌-ℤ◌
    pos.Money.Allocation.shares_of pos.Money.Allocation.trunc_div pos.Prelude.◌*ℤ◌
    pos.Prelude.sort_by pos.Money.Allocation.cut_harder pos.Prelude.neg
allocate_thirds = refl

-- The leftover paisa of a negative amount goes to the share that was cut least.
allocate_negative : allocate (negsuc 9) (nonneg 1 ∷ nonneg 2 ∷ []) ≡ ok (negsuc 3 ∷ negsuc 5 ∷ [])
unfolding allocate ◌+ℤ◌ pos.Money.Allocation.distribute pos.Money.Allocation.hand_out ◌-ℤ◌
    pos.Money.Allocation.shares_of pos.Money.Allocation.trunc_div pos.Prelude.◌*ℤ◌ pos.Prelude.neg
    pos.Prelude.sort_by pos.Money.Allocation.cut_harder
allocate_negative = refl

sum_ℤ-allocate_example :
    (sum_ℤ (nonneg 4 ∷ nonneg 3 ∷ nonneg 3 ∷ []) ≡ nonneg 10)
    × (length (nonneg 4 ∷ nonneg 3 ∷ nonneg 3 ∷ []) ≡ 3)
sum_ℤ-allocate_example =
    sum_ℤ-allocate (nonneg 10) (nonneg 1 ∷ nonneg 1 ∷ nonneg 1 ∷ []) allocate_thirds

extract_inclusive_tax_nearest_example :
    (t : ℕ) × (extract_inclusive_tax (nonneg 5556) (nonneg 500) ≡ ok (nonneg t))
    × (2 * (t * (10_000 + 500)) ≤ 2 * (5556 * 500) + (10_000 + 500))
    × (2 * (5556 * 500) < 2 * (t * (10_000 + 500)) + (10_000 + 500))
    × (t ≤ 5556)
extract_inclusive_tax_nearest_example = extract_inclusive_tax_nearest 5556 500

split_odd : split_cgst_sgst (nonneg 265) ≡ ok (nonneg 133, nonneg 132)
unfolding split_cgst_sgst allocate ◌+ℤ◌ pos.Money.Allocation.distribute
    pos.Money.Allocation.hand_out ◌-ℤ◌ pos.Money.Allocation.shares_of pos.Money.Allocation.trunc_div
    pos.Prelude.◌*ℤ◌ pos.Prelude.sort_by pos.Money.Allocation.cut_harder pos.Prelude.neg
split_odd = refl

abbrev rice_component : TaxComponent
rice_component = record {
  tax_code = gst5.code;
  rate_bp = nonneg 500;
  taxable_base = nonneg 5291;
  tax_amount = nonneg 265;
  cgst = nonneg 133;
  sgst = nonneg 132;
}

component_for_rice : component_for gst5 (nonneg 5556) ≡ ok rice_component
unfolding component_for extract_inclusive_tax split_cgst_sgst allocate ◌+ℤ◌
    pos.Money.Allocation.distribute pos.Money.Allocation.hand_out ◌-ℤ◌ quantize_to_paise
    pos.Prelude.◌*ℤ◌ pos.Money.Allocation.shares_of pos.Money.Allocation.trunc_div half_up
    pos.Prelude.sort_by pos.Money.Allocation.cut_harder pos.Prelude.neg
component_for_rice = refl

breakdown_rice :
    breakdown ((gst5, nonneg 5000) ∷ (gst5, nonneg 556) ∷ []) ≡ ok (rice_component ∷ [])
unfolding breakdown pos.Tax.group_items pos.Tax.add_to_group pos.Prelude.text_eq
    pos.Tax.components_of component_for extract_inclusive_tax split_cgst_sgst allocate ◌+ℤ◌
    pos.Money.Allocation.distribute pos.Money.Allocation.hand_out ◌-ℤ◌ quantize_to_paise
    pos.Prelude.◌*ℤ◌ pos.Money.Allocation.shares_of pos.Money.Allocation.trunc_div
    pos.Money.Allocation.cut_harder half_up pos.Money.half_up_signed pos.Prelude.neg
    pos.Prelude.insert_by pos.Prelude.sort_by pos.Prelude.text_leb pos.Tax.row_before
    pos.Tax.unpack_two
breakdown_rice = refl

breakdown-Accounts_example :
    Accounts ((gst5, nonneg 5000) ∷ (gst5, nonneg 556) ∷ []) (rice_component ∷ [])
breakdown-Accounts_example =
    breakdown-Accounts ((gst5, nonneg 5000) ∷ (gst5, nonneg 556) ∷ []) breakdown_rice

tenth_off-IsDiscount : IsDiscount tenth_off
tenth_off-IsDiscount = record { nonneg_value = omega arith; at_most_all = λ e. omega arith }

rice_gross : multiply_by_quantity (nonneg 12_345) (nonneg 500) ≡ nonneg 6173
unfolding multiply_by_quantity quantize_to_paise pos.Prelude.◌*ℤ◌ half_up
rice_gross = refl

price_line-Reconciles_example :
    (p : PricedLine) × (price_line rice_off ≡ ok p) × Reconciles rice_off p
price_line-Reconciles_example =
    price_line-Reconciles rice_off (tenth_off-IsDiscount, tt) (omega arith)
      (rw rice_gross (omega arith))

-- The half kilo of rice, with its discount, as it is priced.
abbrev pub rice_priced : PricedLine
rice_priced = record {
  line = rice_off;
  gross = nonneg 6173;
  applied = record { discount = tenth_off; amount = nonneg 617 } ∷ [];
  line_total = nonneg 5556;
  tax_amount = nonneg 265;
  taxable_base = nonneg 5291;
}

price_line_rice : price_line rice_off ≡ ok rice_priced
unfolding price_line extract_inclusive_tax multiply_by_quantity pos.Pricing.apply_discounts
    quantize_to_paise ◌-ℤ◌ pos.Prelude.◌*ℤ◌ pos.Pricing.ordered half_up pos.Pricing.taken_off
    pos.Pricing.against pos.Money.percentage_of ◌+ℤ◌
price_line_rice = refl

rice_back_gross : multiply_by_quantity (nonneg 12_345) (negsuc 499) ≡ negsuc 6172
unfolding multiply_by_quantity quantize_to_paise pos.Prelude.◌*ℤ◌ pos.Prelude.neg half_up
rice_back_gross = refl

abbrev rice_back_priced : PricedLine
rice_back_priced = record {
  line = rice_back;
  gross = negsuc 6172;
  applied = record { discount = tenth_off; amount = negsuc 6172 } ∷ [];
  line_total = nonneg 0;
  tax_amount = nonneg 0;
  taxable_base = nonneg 0;
}

price_line_back : price_line rice_back ≡ ok rice_back_priced
unfolding price_line extract_inclusive_tax multiply_by_quantity pos.Pricing.apply_discounts
    quantize_to_paise ◌-ℤ◌ pos.Prelude.◌*ℤ◌ pos.Pricing.ordered pos.Prelude.neg
    pos.Pricing.taken_off half_up pos.Pricing.against pos.Money.percentage_of ◌+ℤ◌
price_line_back = refl

some_discount : tenth_off ∷ [] ≢ []
some_discount h = cc

-- 123.40 rupees in cash.
round_cash_tender_lem_example :
    (k : ℕ) × (rounding_for (nonneg 12_340) TenderMethod.cash
      ≡ ok (record {
        outstanding = nonneg 12_340;
        collected = nonneg (k * 100);
        adjustment = nonneg (k * 100) -ℤ nonneg 12_340;
      }))
    × (k * 100 ≤ 12_340 + 50)
    × (12_340 ≤ k * 100 + 49)
round_cash_tender_lem_example = round_cash_tender_lem 12_340
