-- ===== src/Cart/Totals.antt =====
-- The figures of a basket agree with each other, and with its tax block.
use pos.Prelude.{
  ◌≡◌, refl, ◌∙◌, sym, ◌+ℤ◌, ◌-ℤ◌, true, List, [], ◌∷◌, map, All, ok, int_laws, sum_by, sum_ℤ,
}
use pos.Tax.{TaxComponent, total_base, total_tax}
use pos.Tax.Breakdown.{breakdown-Accounts}
use pos.Tax.Groups.{row_gross, item_gross}
use pos.Pricing.{PricedLine}
use pos.Pricing.Lines.{price_line-IsPriced, sum_lines-agree}
use pos.Pricing.{sum_lines}
use pos.Cart.{Cart, totals, total_before_rounding, tax_breakdown}
use pos.Cart.Invariant.{IsOwnPrice, IsValid}

pub priced-tax_accounted :
    (lines : List PricedLine)
    → All IsOwnPrice lines
    → All (λ p. p.taxable_base +ℤ p.tax_amount ≡ p.line_total) lines
priced-tax_accounted [] h = tt
priced-tax_accounted (p ∷ lines) (h, hs) =
    ((price_line-IsPriced p.line h).tax_accounted, priced-tax_accounted lines hs)

pub rows-gross :
    (rows : List TaxComponent)
    → sum_by (row_gross (λ _. true)) rows ≡ total_base rows +ℤ total_tax rows
rows-gross [] = omega int_laws
rows-gross (c ∷ rows) = rw (rows-gross rows) (omega int_laws)

lines-gross :
    (lines : List PricedLine)
    → sum_by (item_gross (λ _. true)) (map (λ p. (p.line.tax_code, p.line_total)) lines)
      ≡ sum_ℤ (map (λ p. p.line_total) lines)
lines-gross [] = refl
lines-gross (p ∷ lines) = rw (lines-gross lines) refl

-- The figures of a basket and the rows of its tax block, against its total.
pub record Agrees (cart : Cart) (rows : List TaxComponent) : Type 0 where
  pub discounts : (totals cart).gross -ℤ (totals cart).discount_total ≡ total_before_rounding cart
  pub tax : (totals cart).taxable_base +ℤ (totals cart).tax_total ≡ total_before_rounding cart
  pub block : total_base rows +ℤ total_tax rows ≡ total_before_rounding cart

tax_breakdown-total :
    (cart : Cart) {rows : List TaxComponent}
    → tax_breakdown cart ≡ ok rows
    → total_base rows +ℤ total_tax rows ≡ total_before_rounding cart
unfolding tax_breakdown sum_lines
tax_breakdown-total cart {rows} h =
    let accounts = breakdown-Accounts (map (λ p. (p.line.tax_code, p.line_total)) cart.lines) h in
    sym (rows-gross rows) ∙ accounts.same_gross (λ _. true) ∙ lines-gross cart.lines

-- In a well-formed basket the discounts separate the subtotal from the total, the base and the
-- tax of the lines add up to the total, and the rows of its tax block, if it has one, add up to it.
pub totals-Agrees :
    (cart : Cart) {rows : List TaxComponent}
    → IsValid cart
    → tax_breakdown cart ≡ ok rows
    → Agrees cart rows
totals-Agrees cart v h =
    let (discounts, tax) = sum_lines-agree cart.lines (priced-tax_accounted cart.lines v.priced) in
    record { discounts = discounts; tax = tax; block = tax_breakdown-total cart h }
