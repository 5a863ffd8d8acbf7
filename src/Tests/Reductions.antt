-- ===== src/Tests/Reductions.antt =====
-- A basket with one line, on which a discount of ten rupees is given at the till.
use pos.Prelude.{ℕ, ◌≡◌, refl, ℤ, nonneg, ◌+ℤ◌, ◌-ℤ◌, Option, none, some, ok, codes, [], ◌∷◌}
use pos.Pricing.{Discount, DiscountKind, DiscountSource, PricedLine, check_line, price_line}
use pos.Cart.{Cart, replace_line}
use pos.Cart.Invariant.{find}
use pos.CartService.Handlers.{discount_line}
use pos.CartService.Discounts.{discount_line-exact}
use pos.Tests.{rice}
use pos.Tests.Baskets.{half_priced, one_half, one_half-IsValid}

abbrev ten_off : Discount
ten_off = record {
  kind = DiscountKind.fixed;
  value = nonneg 1000;
  reason = codes "torn pack";
  source = DiscountSource.manual;
  promotion_id = none;
}

abbrev reduced_line : PricedLine
reduced_line = record {
  line = record rice { discounts = ten_off ∷ [] };
  gross = nonneg 6173;
  applied = record { discount = ten_off; amount = nonneg 1000 } ∷ [];
  line_total = nonneg 5173;
  tax_amount = nonneg 246;
  taxable_base = nonneg 4927;
}

abbrev reduced_basket : Cart
reduced_basket = record one_half { lines = reduced_line ∷ [] }

accepted : discount_line 1 ten_off one_half ≡ ok reduced_basket
unfolding discount_line pos.Cart.line_at pos.Cart.index_of pos.Cart.apply_discount replace_line
    check_line price_line pos.Tax.extract_inclusive_tax pos.Cart.check_cart
    pos.Money.multiply_by_quantity pos.Pricing.apply_discounts pos.Money.quantize_to_paise ◌-ℤ◌
    pos.Prelude.◌*ℤ◌ pos.Pricing.ordered pos.Money.half_up pos.Pricing.taken_off pos.Pricing.against
    ◌+ℤ◌
accepted = refl

found_half : find 1 one_half ≡ some half_priced
found_half = refl

discount_line-exact_example :
    (new : PricedLine) × (find 1 reduced_basket ≡ some new)
    × (new.line_total ≡ half_priced.line_total -ℤ nonneg 1000)
discount_line-exact_example =
    discount_line-exact 1 ten_off one_half one_half-IsValid found_half refl refl accepted
