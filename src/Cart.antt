-- ===== src/Cart.antt =====
-- app/domain/cart.py: the immutable basket. Every operation returns a new basket or raises.
pub mod Search
pub mod Invariant
pub mod Replacement
pub mod Operations
pub mod History
pub mod Totals
use pos.Prelude.{
  ℕ, suc, ◌+◌, ◌==◌, ℤ, ◌+ℤ◌, ◌-ℤ◌, eqb_ℤ, Bool, true, false, ◌&&◌, not, if◌then◌else◌, List, [],
  ◌∷◌, ◌++◌, length, get_elem?, take, drop, Option, none, some, Result, ok, err, ◌>>=◌, ◌>>◌,
  raise_if, map_err, Text, text_eq, map,
}
use pos.Money.{Money}
use pos.Tax.{TaxCode, TaxComponent, TaxError, breakdown}
use pos.Pricing.{
  Discount, LineInput, PricedLine, PricingError, LineTotals, check_line, price_line, sum_lines,
}
use pos.Tender.{TenderMethod, TenderError, CashRounding, no_rounding, rounding_for}

pub data CartError : Type 0 where
  -- lines and line numbers differ in length
  unnumbered : CartError
  no_line : ℕ → CartError
  -- the IndexError of a list that is too short
  out_of_range : CartError
  pricing_error : PricingError → CartError

-- Line numbers count up from 1.
pub record Cart : Type 0 where
  pub lines : List PricedLine
  pub next_line_no : ℕ
  pub line_numbers : List ℕ

-- `Cart()`
abbrev pub empty_cart : Cart
empty_cart = record { lines = []; next_line_no = 1; line_numbers = [] }

-- `Cart.__post_init__`, which `replace` runs again
unfoldable pub check_cart : Cart → Result CartError Cart
check_cart cart =
    raise_if (not (length cart.lines == length cart.line_numbers)) unnumbered >> ok cart

-- `list.index`, counting from `position`
unfoldable pub index_from : ℕ → ℕ → List ℕ → Option ℕ
index_from position line_no [] = none
index_from position line_no (n ∷ numbers) =
    let rest = index_from (position + 1) line_no numbers in
    if n == line_no then some position else rest

-- `Cart._index_of`
unfoldable pub index_of : ℕ → Cart → Result CartError ℕ
unfolding index_from
index_of line_no cart = elim (index_from 0 line_no cart.line_numbers) [
  | none ↦ err (no_line line_no)
  | some index ↦ ok index
]

-- `xs[index]`
abbrev pub get_item {ℓ} : {A : Type ℓ} → List A → ℕ → Result CartError A
get_item xs index = elim (get_elem? xs index) [ none ↦ err out_of_range | some x ↦ ok x ]

-- `(*xs[:index], x, *xs[index + 1:])`
abbrev pub put_item {ℓ} : {A : Type ℓ} → List A → ℕ → A → List A
put_item xs index x = take index xs ++ x ∷ drop (suc index) xs

-- `Cart._replace_line`
unfoldable pub replace_line :
    ℕ → (PricedLine → Result PricingError LineInput) → Cart → Result CartError Cart
replace_line line_no build cart = do
  index ← index_of line_no cart
  current ← get_item cart.lines index
  input ← map_err pricing_error (build current)
  updated ← map_err pricing_error (price_line input)
  check_cart (record cart { lines = put_item cart.lines index updated })

abbrev pub bool_eq : Bool → Bool → Bool
bool_eq true b = b
bool_eq false b = not b

abbrev pub is_none {ℓ} : {A : Type ℓ} → Option A → Bool
is_none none = true
is_none (some _) = false

abbrev pub is_nil {ℓ} : {A : Type ℓ} → List A → Bool
is_nil [] = true
is_nil (_ ∷ _) = false

-- `==` of two tax codes, field by field
unfoldable pub tax_code_eq : TaxCode → TaxCode → Bool
tax_code_eq a b =
    text_eq a.code b.code
    && text_eq a.name b.name
    && eqb_ℤ a.rate_bp b.rate_bp
    && bool_eq a.is_inclusive b.is_inclusive

-- The test of `Cart._mergeable_index` on one line.
unfoldable pub is_mergeable : LineInput → LineInput → Bool
unfolding tax_code_eq
is_mergeable current line =
    text_eq current.product_id line.product_id
    && eqb_ℤ current.unit_price line.unit_price
    && tax_code_eq current.tax_code line.tax_code
    && is_nil current.discounts
    && is_nil line.discounts
    && is_none current.overridden_by
    && is_none line.overridden_by

-- `Cart._mergeable_index`, counting from `position`
unfoldable pub mergeable_from : ℕ → LineInput → List PricedLine → Option ℕ
mergeable_from position line [] = none
mergeable_from position line (priced ∷ lines) =
    let rest = mergeable_from (position + 1) line lines in
    if is_mergeable priced.line line then some position else rest

-- `replace(current.line, qty_milli=current.line.qty_milli + line.qty_milli)`
unfoldable pub add_quantity : LineInput → PricedLine → Result PricingError LineInput
add_quantity line current =
    check_line (record current.line { qty_milli = current.line.qty_milli +ℤ line.qty_milli })

-- The part of `Cart.add` that appends.
unfoldable pub append_line : LineInput → Cart → Result CartError Cart
append_line line cart = do
  priced ← map_err pricing_error (price_line line)
  check_cart (record {
    lines = cart.lines ++ priced ∷ [];
    next_line_no = cart.next_line_no + 1;
    line_numbers = cart.line_numbers ++ cart.next_line_no ∷ [];
  })

-- `Cart.add`
unfoldable pub add : LineInput → Bool → Cart → Result CartError Cart
add line merge cart = elim (if merge then mergeable_from 0 line cart.lines else none) [
  | some index ↦
      get_item cart.line_numbers index >>= λ line_no. replace_line line_no (add_quantity line) cart
  | none ↦ append_line line cart
]

unfoldable pub void_line : ℕ → Cart → Result CartError Cart
void_line line_no cart = do
  index ← index_of line_no cart
  check_cart (record cart {
    lines = take index cart.lines ++ drop (suc index) cart.lines;
    line_numbers = take index cart.line_numbers ++ drop (suc index) cart.line_numbers;
  })

unfoldable pub change_quantity : ℕ → ℤ → Cart → Result CartError Cart
change_quantity line_no qty_milli =
    replace_line line_no (λ current. check_line (record current.line { qty_milli = qty_milli }))

unfoldable pub apply_discount : ℕ → Discount → Cart → Result CartError Cart
apply_discount line_no discount = replace_line line_no λ current.
    check_line (record current.line { discounts = current.line.discounts ++ discount ∷ [] })

-- `Cart.line`
unfoldable pub line_at : ℕ → Cart → Result CartError PricedLine
line_at line_no cart = index_of line_no cart >>= get_item cart.lines

abbrev pub is_empty : Cart → Bool
is_empty cart = is_nil cart.lines

abbrev pub item_count : Cart → ℕ
item_count cart = length cart.lines

-- `subtotal`, `discount_total`, `tax_total`, `taxable_base` and `total_before_rounding` are the
-- fields of this record, the last under the name `net`.
abbrev pub totals : Cart → LineTotals
totals cart = sum_lines cart.lines

abbrev pub total_before_rounding : Cart → Money
total_before_rounding cart = (totals cart).net

unfoldable pub tax_breakdown : Cart → Result TaxError (List TaxComponent)
tax_breakdown cart = breakdown (map (λ p. (p.line.tax_code, p.line_total)) cart.lines)

abbrev pub balance : Cart → Money → Money
balance cart paid = total_before_rounding cart -ℤ paid

-- `already_paid` is zero where the source passes None
unfoldable pub rounding_for_tender : Cart → TenderMethod → Money → Result TenderError CashRounding
rounding_for_tender cart method already_paid =
    let outstanding = balance cart already_paid in
    if is_empty cart then no_rounding outstanding else rounding_for outstanding method
