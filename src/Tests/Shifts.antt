-- ===== src/Tests/Shifts.antt =====
-- Shifts, promotions, stock and lockouts.
use pos.Prelude.{
  ℕ, suc, ◌+◌, ◌*◌, ◌-◌, ◌/◌, ◌^◌, ◌≤◌, ◌<◌, ◌≡◌, ◌≢◌, ◌↔◌, refl, min, ltb, if◌then◌else◌, ℤ,
  nonneg, negsuc, ◌≤ℤ◌, ◌<ℤ◌, ◌+ℤ◌, List, [], ◌∷◌, All, all, Option, none, some, Result, ok, err,
  true, false, arith, codes, Text, Shuffle, under, swap, same, chain, Apart, IsSorted,
}
use pos.Shift.{
  ShiftError, SaleRow, SaleStatus, ReviewOutcome, PaymentRow, PaymentMethod, CashMovementRow,
  Direction, ShiftFigures, by_id, expected_cash, variance, figures,
}
use pos.Shift.Figures.{Sums, figures-Sums}
use pos.Shift.Acceptance.{is_accepted, is_known, figures_iff}
use pos.Pricing.{Discount, DiscountKind, DiscountSource}
use pos.Promotions.{Promotion, discounts_for}
use pos.Promotions.Applicable.{HasOtherId, discounts_for-order}
use pos.Receiving.{Movement, MovementReason, negative_count, nothing_to_correct, count_stock}
use pos.Receiving.Ledger.{level, count_stock_lem}
use pos.Lockout.{locked_until, is_locked}
use pos.Lockout.Window.{is_locked_iff}

abbrev cash_sale : SaleRow
cash_sale = record {
  sale_id = codes "s1";
  status = SaleStatus.completed;
  grand_total = nonneg 12_340;
  rounding_adjustment = negsuc 39;
  review_outcome = none;
}

abbrev doubtful_sale : SaleRow
doubtful_sale = record {
  sale_id = codes "s2";
  status = SaleStatus.requires_review;
  grand_total = nonneg 5000;
  rounding_adjustment = nonneg 0;
  review_outcome = none;
}

abbrev day_payments : List PaymentRow
day_payments =
    record {
      sale_id = codes "s1";
      method = PaymentMethod.cash;
      amount = nonneg 12_300;
      verified = false;
    }
    ∷ record {
      sale_id = codes "s2";
      method = PaymentMethod.upi;
      amount = nonneg 5000;
      verified = false;
    }
    ∷ []

abbrev day_movements : List CashMovementRow
day_movements = record { direction = Direction.out_of; amount = nonneg 300 } ∷ []

abbrev day_figures : ShiftFigures
day_figures = record {
  opening_float = nonneg 1000;
  cash_sales = nonneg 12_300;
  upi_attested = nonneg 0;
  upi_verified = nonneg 0;
  cash_in = nonneg 0;
  cash_out = nonneg 300;
  rounding = negsuc 39;
  under_review_count = 1;
  under_review_total = nonneg 5000;
  sales_count = 1;
}

figures_day :
    figures (nonneg 1000) (cash_sale ∷ doubtful_sale ∷ []) day_payments day_movements
    ≡ ok day_figures
unfolding figures pos.Prelude.text_eq ◌+ℤ◌ pos.Shift.awaits_review
figures_day = refl

figures-Sums_example :
    Sums
      (nonneg 1000)
      (by_id [] (cash_sale ∷ doubtful_sale ∷ []))
      day_payments
      day_movements
      day_figures
    × (expected_cash day_figures +ℤ variance day_figures (nonneg 12_900) ≡ nonneg 12_900)
figures-Sums_example =
    figures-Sums (nonneg 1000) (cash_sale ∷ doubtful_sale ∷ []) day_payments day_movements
      (nonneg 12_900) figures_day

figures_iff_example :
    ((all (is_accepted (by_id [] (cash_sale ∷ []))) day_payments ≡ true)
      × (all (λ x. is_known x.direction) day_movements ≡ true))
    ↔ ((f : ShiftFigures) × (figures (nonneg 1000) (cash_sale ∷ []) day_payments day_movements
          ≡ ok f))
figures_iff_example = figures_iff (nonneg 1000) (cash_sale ∷ []) day_payments day_movements

abbrev fifth_off : Promotion
fifth_off = record {
  id = codes "p1";
  kind = DiscountKind.percentage;
  value = nonneg 2000;
  priority = nonneg 1;
  product_ids = [];
  category_ids = [];
  starts_at = none;
  ends_at = some 1000;
  description = [];
}

abbrev ten_off : Promotion
ten_off = record fifth_off {
  id = codes "p2";
  kind = DiscountKind.amount;
  product_ids = codes "rice" ∷ [];
}

other_ids : Apart HasOtherId (fifth_off ∷ ten_off ∷ [])
unfolding pos.Prelude.text_eq
other_ids = ((refl, tt), (tt, tt))

discounts_for-order_example :
    discounts_for (fifth_off ∷ ten_off ∷ []) (codes "rice") none 500
    ≡ discounts_for (ten_off ∷ fifth_off ∷ []) (codes "rice") none 500
discounts_for-order_example =
    discounts_for-order (codes "rice") none 500 other_ids (swap fifth_off ten_off [])

abbrev fifth_discount : Discount
fifth_discount = record {
  kind = DiscountKind.percentage;
  value = nonneg 2000;
  reason = codes "Promotion p1";
  source = DiscountSource.promotion;
  promotion_id = some (codes "p1");
}

discounts_for_rice :
    discounts_for (fifth_off ∷ []) (codes "rice") none 500 ≡ ok (fifth_discount ∷ [])
unfolding discounts_for pos.Pricing.check_discount
discounts_for_rice = refl

count_stock_lem_example :
    let ledger : List Movement =
      record {
        product_id = codes "rice";
        delta_milli = nonneg 24_000;
        reason = MovementReason.receipt;
        note = [];
      }
      ∷ [] in
    (nonneg 20_000 <ℤ nonneg 0
      → count_stock (codes "rice") (nonneg 20_000) (level ledger) ≡ err negative_count)
    × (nonneg 20_000 ≡ level ledger
        → nonneg 0 ≤ℤ nonneg 20_000
        → count_stock (codes "rice") (nonneg 20_000) (level ledger) ≡ err nothing_to_correct)
    × (nonneg 0 ≤ℤ nonneg 20_000
        → nonneg 20_000 ≢ level ledger
        → (m : Movement) × (count_stock (codes "rice") (nonneg 20_000) (level ledger) ≡ ok m)
          × (m.product_id ≡ codes "rice")
          × (level (m ∷ ledger) ≡ nonneg 20_000))
count_stock_lem_example = count_stock_lem (codes "rice") (nonneg 20_000) (
    record {
      product_id = codes "rice";
      delta_milli = nonneg 24_000;
      reason = MovementReason.receipt;
      note = [];
    }
    ∷ [])

is_locked_iff_example :
    (is_locked (locked_until 11 100) 1200 ≡ true)
    ↔ ((5 ≤ 11) × (1200 < 100 + (if ltb 11 10 then 900 else if ltb 11 15 then 1800 else 3600)))
is_locked_iff_example = is_locked_iff 11 100 1200
