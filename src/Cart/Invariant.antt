-- ===== src/Cart/Invariant.antt =====
-- What a well-formed basket of app/domain/cart.py is, and the basket as a map from line numbers to
-- lines.
use pos.Prelude.{
  ℕ, ◌≡◌, refl, Option-cases, length, Option, none, inl, inr, ok, err, arith, All, ==_iff, ◌⊎◌, ap,
  ◌∙◌,
}
use pos.Pricing.{LineInput, PricedLine, price_line}
use pos.Pricing.Lines.{price_line-IsPriced}
use pos.Cart.{Cart, no_line, empty_cart, check_cart, index_from, index_of}
use pos.Cart.Search.{lookup_line, Ascends, IsFirst, index_from-IsFirst, index_from-none}

-- The line is what pricing makes of its own input.
abbrev pub IsOwnPrice : PricedLine → Type 0
IsOwnPrice p = price_line p.line ≡ ok p

-- Every line has a number, the numbers rise from 1 and are below the next one, and every line is
-- priced.
pub record IsValid (cart : Cart) : Type 0 where
  pub numbered : length cart.lines ≡ length cart.line_numbers
  pub ascending : Ascends 1 cart.line_numbers cart.next_line_no
  pub priced : All IsOwnPrice cart.lines

-- The line of a number, if there is one.
abbrev pub find : ℕ → Cart → Option PricedLine
find n cart = lookup_line n cart.line_numbers cart.lines

pub empty_cart-IsValid : IsValid empty_cart
empty_cart-IsValid = ground arith

pub price_line-IsOwnPrice :
    (line : LineInput) {p : PricedLine} → price_line line ≡ ok p → IsOwnPrice p
price_line-IsOwnPrice line h = ap price_line (price_line-IsPriced line h).same_line ∙ h

pub check_cart-ok :
    (cart : Cart) → length cart.lines ≡ length cart.line_numbers → check_cart cart ≡ ok cart
unfolding check_cart
check_cart-ok cart l =
    rw (l, (==_iff (length cart.line_numbers) (length cart.line_numbers)).1 refl) refl

pub check_cart-eq : (cart : Cart) {cart' : Cart} → check_cart cart ≡ ok cart' → cart' ≡ cart
unfolding check_cart
check_cart-eq cart h = ground arith

-- Where the number was found, if it was.
pub index_of-cases :
    (n : ℕ) (cart : Cart)
    → ((index_of n cart ≡ err (no_line n)) × (find n cart ≡ none))
      ⊎ ((i : ℕ) × (index_of n cart ≡ ok i) × IsFirst n cart.line_numbers i)
unfolding index_of
index_of-cases n cart = elim (Option-cases (index_from 0 n cart.line_numbers)) [
  | inl e ↦ inl (ground arith, index_from-none 0 n cart.line_numbers cart.lines e)
  | inr (i, e) ↦
      let (j, same, first) = index_from-IsFirst 0 n cart.line_numbers e in
      inr (j, ground arith, first)
]
