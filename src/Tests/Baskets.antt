-- ===== src/Tests/Baskets.antt =====
-- Baskets and the payments that close them.
use pos.Prelude.{
  ℕ, suc, ◌≤◌, ◌<◌, ◌==◌, ◌≡◌, ◌≢◌, ◌↔◌, ◌⊎◌, refl, ℤ, nonneg, negsuc, ◌+ℤ◌, ◌-ℤ◌, ◌≤ℤ◌, sum_by,
  List, [], ◌∷◌, All, length, Option, none, some, Result, ok, err, true, false, arith, codes, Text,
  if◌then◌else◌,
}
use pos.Money.{Money}
use pos.Tax.{TaxComponent}
use pos.Pricing.{LineInput, PricedLine, PricingError, price_line, check_line}
use pos.Cart.{
  Cart, CartError, no_line, empty_cart, add, append_line, void_line, change_quantity, is_mergeable,
  mergeable_from, add_quantity, replace_line, tax_breakdown,
}
use pos.Cart.Invariant.{IsValid, find, empty_cart-IsValid}
use pos.Cart.Operations.{void_line_lem}
use pos.Cart.History.{adding, voiding, here, next, Keeps, Reach-Keeps}
use pos.Cart.Totals.{Agrees, totals-Agrees}
use pos.Tender.{TenderMethod}
use pos.Payments.{
  AttemptState, pending, approved, PaymentAttempt, to, is_settled, balance_change, is_short,
  balance_of, is_expired_at, expire_stale,
}
use pos.Payments.Lifecycle.{moved, Move, moving, Moves, Moves-final, to-total, can_transition_iff}
use pos.Payments.Lifecycle as Lifecycle
use pos.Payments.Balance.{approved_amount, balance_of-settled}
use pos.Payments.Expiry.{Passes, expire_stale_lem}
use mathlib.Core.List.{Forall₂}
use pos.Tests.{rice}

abbrev kilo : LineInput
kilo = record rice { qty_milli = nonneg 1000 }

abbrev pub half_priced : PricedLine
half_priced = record {
  line = rice;
  gross = nonneg 6173;
  applied = [];
  line_total = nonneg 6173;
  tax_amount = nonneg 294;
  taxable_base = nonneg 5879;
}

abbrev kilo_priced : PricedLine
kilo_priced = record {
  line = kilo;
  gross = nonneg 12_345;
  applied = [];
  line_total = nonneg 12_345;
  tax_amount = nonneg 588;
  taxable_base = nonneg 11_757;
}

price_line_half : price_line rice ≡ ok half_priced
unfolding price_line pos.Tax.extract_inclusive_tax pos.Money.multiply_by_quantity
    pos.Pricing.apply_discounts pos.Money.quantize_to_paise ◌-ℤ◌ pos.Prelude.◌*ℤ◌
    pos.Pricing.ordered pos.Money.half_up ◌+ℤ◌
price_line_half = refl

price_line-kilo : price_line kilo ≡ ok kilo_priced
unfolding price_line pos.Tax.extract_inclusive_tax pos.Money.multiply_by_quantity
    pos.Pricing.apply_discounts pos.Money.quantize_to_paise ◌-ℤ◌ pos.Prelude.◌*ℤ◌
    pos.Pricing.ordered pos.Money.half_up ◌+ℤ◌
price_line-kilo = refl

abbrev pub one_half : Cart
one_half = record { lines = half_priced ∷ []; next_line_no = 2; line_numbers = 1 ∷ [] }

abbrev one_kilo : Cart
one_kilo = record { lines = kilo_priced ∷ []; next_line_no = 2; line_numbers = 1 ∷ [] }

abbrev voided : Cart
voided = record { lines = []; next_line_no = 2; line_numbers = [] }

add_first : add rice true empty_cart ≡ ok one_half
unfolding add mergeable_from append_line price_line pos.Tax.extract_inclusive_tax
    pos.Cart.check_cart pos.Money.multiply_by_quantity pos.Pricing.apply_discounts
    pos.Money.quantize_to_paise ◌-ℤ◌ pos.Prelude.◌*ℤ◌ pos.Pricing.ordered pos.Money.half_up ◌+ℤ◌
add_first = refl

add_again : add rice true one_half ≡ ok one_kilo
unfolding add mergeable_from is_mergeable pos.Prelude.text_eq replace_line pos.Cart.index_of
    add_quantity check_line ◌+ℤ◌ price_line pos.Tax.extract_inclusive_tax pos.Cart.check_cart
    pos.Money.multiply_by_quantity pos.Pricing.apply_discounts pos.Money.quantize_to_paise ◌-ℤ◌
    pos.Prelude.◌*ℤ◌ pos.Pricing.ordered pos.Money.half_up
add_again = refl

void_first : void_line 1 one_kilo ≡ ok voided
unfolding void_line pos.Cart.index_of pos.Cart.check_cart
void_first = refl

Reach-Keeps_example : Keeps empty_cart voided
Reach-Keeps_example = Reach-Keeps empty_cart-IsValid (
    next (next (next here (adding rice true add_first)) (adding rice true add_again))
      (voiding 1 void_first))

pub one_half-IsValid : IsValid one_half
one_half-IsValid = record {
  numbered = refl;
  ascending = (omega arith, omega arith);
  priced = (price_line_half, tt);
}

one_kilo-IsValid : IsValid one_kilo
one_kilo-IsValid = record {
  numbered = refl;
  ascending = (omega arith, omega arith);
  priced = (price_line-kilo, tt);
}

abbrev kilo_component : TaxComponent
kilo_component = record {
  tax_code = codes "GST5";
  rate_bp = nonneg 500;
  taxable_base = nonneg 11_757;
  tax_amount = nonneg 588;
  cgst = nonneg 294;
  sgst = nonneg 294;
}

tax_breakdown_kilo : tax_breakdown one_kilo ≡ ok (kilo_component ∷ [])
unfolding tax_breakdown pos.Tax.breakdown pos.Tax.group_items pos.Tax.add_to_group
    pos.Tax.components_of pos.Tax.component_for pos.Tax.extract_inclusive_tax
    pos.Tax.split_cgst_sgst pos.Money.Allocation.allocate ◌+ℤ◌ pos.Money.Allocation.distribute
    pos.Money.Allocation.hand_out ◌-ℤ◌ pos.Money.quantize_to_paise pos.Prelude.◌*ℤ◌
    pos.Money.Allocation.shares_of pos.Money.Allocation.trunc_div pos.Money.Allocation.cut_harder
    pos.Money.half_up pos.Money.half_up_signed pos.Prelude.neg pos.Prelude.insert_by
    pos.Prelude.sort_by pos.Prelude.text_eq pos.Prelude.text_leb pos.Tax.row_before
    pos.Tax.unpack_two
tax_breakdown_kilo = refl

totals-Agrees_example : Agrees one_kilo (kilo_component ∷ [])
totals-Agrees_example = totals-Agrees one_kilo one_kilo-IsValid tax_breakdown_kilo

scan_finds : mergeable_from 0 rice one_half.lines ≡ some 0
unfolding mergeable_from is_mergeable pos.Prelude.text_eq
scan_finds = refl

void_line_lem_example :
    (find 1 one_kilo ≡ none → void_line 1 one_kilo ≡ err (no_line 1))
    × ((p : PricedLine)
        → find 1 one_kilo ≡ some p
        → (cart' : Cart) × (void_line 1 one_kilo ≡ ok cart')
          × IsValid cart'
          × (cart'.next_line_no ≡ 2)
          × ((m : ℕ) → find m cart' ≡ (if 1 == m then none else find m one_kilo)))
void_line_lem_example = void_line_lem 1 one_kilo one_kilo-IsValid

-- The step that `change_quantity` makes to a whole kilo.
abbrev to_kilo : PricedLine → Result PricingError LineInput
to_kilo current = check_line (record current.line { qty_milli = nonneg 1000 })

replaced : replace_line 1 to_kilo one_half ≡ ok one_kilo
unfolding replace_line pos.Cart.index_of check_line price_line pos.Tax.extract_inclusive_tax
    pos.Cart.check_cart pos.Money.multiply_by_quantity pos.Pricing.apply_discounts
    pos.Money.quantize_to_paise ◌-ℤ◌ pos.Prelude.◌*ℤ◌ pos.Pricing.ordered pos.Money.half_up ◌+ℤ◌
replaced = refl

found_half : find 1 one_half ≡ some half_priced
found_half = refl

built_kilo : to_kilo half_priced ≡ ok kilo
unfolding check_line
built_kilo = refl

abbrev pub waiting : PaymentAttempt
waiting = record {
  id = codes "a1";
  method = TenderMethod.upi;
  amount = nonneg 12_345;
  state = pending;
  started_at = some 100;
  expires_at = some 200;
  resolved_at = none;
  txn_ref = none;
  qr_payload = none;
  failure_reason = none;
  tendered = none;
}

abbrev pub paid_up : PaymentAttempt
paid_up = record waiting { state = approved }

abbrev declined : AttemptState
declined = AttemptState.declined

balance_of-settled_example :
    let b = balance_of (nonneg 12_345) (paid_up ∷ waiting ∷ []) (nonneg 0) in
    let owed = nonneg 12_345 +ℤ nonneg 0 in
    let paid = sum_by approved_amount (paid_up ∷ waiting ∷ []) in
    ((is_settled b ≡ true) ↔ (owed ≤ℤ paid))
    × (nonneg 0 ≤ℤ balance_change b)
    × (is_settled b ≡ true → owed +ℤ balance_change b ≡ paid)
    × (is_settled b ≡ false → balance_change b ≡ nonneg 0)
    × (is_short b ≡ true → is_settled b ≡ false)
balance_of-settled_example = balance_of-settled (nonneg 12_345) (paid_up ∷ waiting ∷ []) (nonneg 0)

to_declined : to declined 150 none waiting ≡ ok (moved declined 150 none waiting)
unfolding to
to_declined = refl

Moves-final_example :
    (moved declined 150 none waiting ≡ waiting)
    ⊎ ((waiting.state ≡ pending)
        × (declined ≢ pending)
        × Move waiting (moved declined 150 none waiting))
Moves-final_example =
    Moves-final (Lifecycle.Moves.next Lifecycle.Moves.here (moving declined 150 none to_declined))

expire_stale_lem_example :
    (left : List PaymentAttempt) × (expire_stale
        (codes "attempt expired")
        250
        (waiting ∷ paid_up ∷ [])
      ≡ ok left)
    × Forall₂ (Passes (codes "attempt expired") 250) (waiting ∷ paid_up ∷ []) left
    × All (λ a. is_expired_at 250 a ≡ false) left
    × (sum_by approved_amount left ≡ sum_by approved_amount (waiting ∷ paid_up ∷ []))
expire_stale_lem_example =
    expire_stale_lem (codes "attempt expired") 250 (waiting ∷ paid_up ∷ [])
      (omega arith, (omega arith, tt))
