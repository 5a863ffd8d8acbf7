-- ===== src/Tax.antt =====
-- app/domain/tax.py: GST inside an amount, its two halves, and the summary block of a receipt.
pub mod Extraction
pub mod Halves
pub mod Groups
pub mod Breakdown
use pos.Prelude.{
  ℕ, ◌+◌, ℤ, nonneg, ◌+ℤ◌, ◌-ℤ◌, ◌*ℤ◌, magnitude, ltb_ℤ, eqb_ℤ, Bool, ◌||◌, ◌&&◌, if◌then◌else◌,
  List, [], ◌∷◌, map, sort_by, Result, ok, err, ◌>>=◌, ◌>>◌, raise_if, map_err, Text, text_eq,
  text_leb, traverse,
}
use pos.Money.{Money, zero_money, total, decimal_div, quantize_to_paise}
use pos.Money.Allocation.{AllocationError, allocate}

abbrev pub basis_points : ℤ
basis_points = nonneg 10_000

pub data TaxError : Type 0 where
  negative_rate : TaxError
  mixed_rates : Text → TaxError
  cannot_split : AllocationError → TaxError
  -- the ValueError of an unpacking that does not find two values
  not_two_shares : TaxError

pub record TaxCode : Type 0 where
  pub code : Text
  pub name : Text
  pub rate_bp : ℤ
  pub is_inclusive : Bool

-- `TaxCode(...)` with its `__post_init__`
unfoldable pub new_tax_code : Text → Text → ℤ → Bool → Result TaxError TaxCode
new_tax_code code name rate_bp is_inclusive = do
  raise_if (ltb_ℤ rate_bp (nonneg 0)) negative_rate
  ok (record { code = code; name = name; rate_bp = rate_bp; is_inclusive = is_inclusive })

pub record TaxComponent : Type 0 where
  pub tax_code : Text
  pub rate_bp : ℤ
  pub taxable_base : Money
  pub tax_amount : Money
  pub cgst : Money
  pub sgst : Money

-- `TaxComponent.gross`
abbrev pub gross_of : TaxComponent → Money
gross_of c = c.taxable_base +ℤ c.tax_amount

unfoldable pub extract_inclusive_tax : Money → ℤ → Result TaxError Money
extract_inclusive_tax gross rate_bp = do
  raise_if (ltb_ℤ rate_bp (nonneg 0)) negative_rate
  ok (
      if eqb_ℤ rate_bp (nonneg 0)
      then zero_money
      else quantize_to_paise (decimal_div (gross *ℤ rate_bp) (magnitude (basis_points +ℤ rate_bp))))

-- `taxable_base`
unfoldable pub taxable_base_of : Money → ℤ → Result TaxError Money
unfolding extract_inclusive_tax
taxable_base_of gross rate_bp = do tax ← extract_inclusive_tax gross rate_bp; ok (gross -ℤ tax)

unfoldable pub add_exclusive_tax : Money → ℤ → Result TaxError Money
add_exclusive_tax base rate_bp = do
  raise_if (ltb_ℤ rate_bp (nonneg 0)) negative_rate
  ok (quantize_to_paise (decimal_div (base *ℤ rate_bp) 10_000))

-- `cgst, sgst = ...`
unfoldable pub unpack_two : List Money → Result TaxError (Money × Money)
unpack_two (a ∷ b ∷ []) = ok (a, b)
unpack_two _ = err not_two_shares

unfoldable pub split_cgst_sgst : Money → Result TaxError (Money × Money)
unfolding unpack_two
split_cgst_sgst tax = do
  shares ← map_err cannot_split (allocate tax (nonneg 1 ∷ nonneg 1 ∷ []))
  unpack_two shares

unfoldable pub component_for : TaxCode → Money → Result TaxError TaxComponent
component_for tax_code gross = do
  tax ← extract_inclusive_tax gross tax_code.rate_bp
  halves ← split_cgst_sgst tax
  ok (record {
    tax_code = tax_code.code;
    rate_bp = tax_code.rate_bp;
    taxable_base = gross -ℤ tax;
    tax_amount = tax;
    cgst = halves.0;
    sgst = halves.1;
  })

-- `grouped`, a dict in the order of insertion.
abbrev pub Grouped : Type 0
Grouped = List (Text × (TaxCode × Money))

-- One round of the first loop of `breakdown`.
unfoldable pub add_to_group : TaxCode → Money → Grouped → Result TaxError Grouped
add_to_group tax_code gross [] = ok ((tax_code.code, (tax_code, gross)) ∷ [])
add_to_group tax_code gross ((key, (existing_code, existing_gross)) ∷ grouped) =
    let rest = add_to_group tax_code gross grouped in
    if text_eq key tax_code.code
    then (if eqb_ℤ existing_code.rate_bp tax_code.rate_bp
        then ok ((key, (existing_code, existing_gross +ℤ gross)) ∷ grouped)
        else err (mixed_rates tax_code.code))
    else (rest >>= λ grouped'. ok ((key, (existing_code, existing_gross)) ∷ grouped'))

unfoldable pub group_items : List (TaxCode × Money) → Grouped → Result TaxError Grouped
group_items [] grouped = ok grouped
group_items ((tax_code, gross) ∷ items) grouped =
    add_to_group tax_code gross grouped >>= λ grouped'. group_items items grouped'

-- `(c.rate_bp, c.tax_code)` of one row is not above that of the other.
unfoldable pub row_before : TaxComponent → TaxComponent → Bool
row_before c d =
    ltb_ℤ c.rate_bp d.rate_bp || eqb_ℤ c.rate_bp d.rate_bp && text_leb c.tax_code d.tax_code

unfoldable pub components_of : Grouped → Result TaxError (List TaxComponent)
components_of = traverse (λ entry. component_for entry.1.0 entry.1.1)

unfoldable pub breakdown : List (TaxCode × Money) → Result TaxError (List TaxComponent)
breakdown items = do
  grouped ← group_items items []
  components ← components_of grouped
  ok (sort_by row_before components)

abbrev pub total_tax : List TaxComponent → Money
total_tax components = total (map (λ c. c.tax_amount) components)

abbrev pub total_base : List TaxComponent → Money
total_base components = total (map (λ c. c.taxable_base) components)
