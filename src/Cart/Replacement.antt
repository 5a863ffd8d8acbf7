-- ===== src/Cart/Replacement.antt =====
-- What `_replace_line` of app/domain/cart.py does to a basket, and so a new quantity and a discount.
use pos.Prelude.{
  ℕ, ◌==◌, ◌≡◌, refl, if◌then◌else◌, List, length, get_elem?, none, some, inl, inr, ok, err, arith,
  Result, err-ne-ok, map_err, ◌∙◌, sym, >>=-eq-ok, >>=-ok, map_err-ok,
}
use pos.Pricing.{LineInput, PricedLine, PricingError, price_line}
use pos.Cart.{Cart, no_line, pricing_error, get_item, put_item, replace_line}
use pos.Cart.Search.{
  IsFirst, get_elem?-IsFirst, lookup_line-put_item, length-put_item, All-put_item,
  lookup_line-IsFirst,
}
use pos.Cart.Invariant.{
  IsOwnPrice, IsValid, find, price_line-IsOwnPrice, check_cart-ok, check_cart-eq, index_of-cases,
}

-- What a replacement of line `n` makes of a basket.
pub record Replaces (n : ℕ) (build : PricedLine → Result PricingError LineInput) (cart cart' : Cart)
    : Type 0 where
  pub valid : IsValid cart'
  pub same_next : cart'.next_line_no ≡ cart.next_line_no
  pub same_numbers : cart'.line_numbers ≡ cart.line_numbers
  pub old : PricedLine
  pub new : PricedLine
  pub input : LineInput
  pub was : find n cart ≡ some old
  pub built : build old ≡ ok input
  pub priced : price_line input ≡ ok new
  pub found : (m : ℕ) → find m cart' ≡ (if n == m then some new else find m cart)

put_item-Replaces :
    (n i : ℕ) (build : PricedLine → Result PricingError LineInput) (cart : Cart)
    (old new : PricedLine) (input : LineInput)
    → IsValid cart
    → IsFirst n cart.line_numbers i
    → get_elem? cart.lines i ≡ some old
    → build old ≡ ok input
    → price_line input ≡ ok new
    → Replaces n build cart (record cart { lines = put_item cart.lines i new })
put_item-Replaces n i build cart old new input v first at built priced = record {
  valid = record {
    numbered = length-put_item n i cart.line_numbers cart.lines new first v.numbered;
    ascending = v.ascending;
    priced = All-put_item IsOwnPrice cart.lines i new v.priced (price_line-IsOwnPrice input priced);
  };
  same_next = refl;
  same_numbers = refl;
  old = old;
  new = new;
  input = input;
  was = sym (get_elem?-IsFirst n i cart.line_numbers cart.lines first v.numbered) ∙ at;
  built = built;
  priced = priced;
  found = λ m. lookup_line-put_item n m i cart.line_numbers cart.lines new first v.numbered;
}

get_item-eq {ℓ} :
    {A : Type ℓ} (xs : List A) (i : ℕ) {x : A} → get_item xs i ≡ ok x → get_elem? xs i ≡ some x
get_item-eq xs i h = ground arith

pub get_item-ok {ℓ} :
    {A : Type ℓ} (xs : List A) (i : ℕ) {x : A} → get_elem? xs i ≡ some x → get_item xs i ≡ ok x
get_item-ok xs i h = ground arith

pub map_err-eq {ℓ κ μ} :
    {E : Type ℓ} {F : Type κ} {A : Type μ} (f : E → F) (r : Result E A) {a : A}
    → map_err f r ≡ ok a
    → r ≡ ok a
map_err-eq f (ok a) h = cc
map_err-eq f (err e) h = cc

-- A replacement that succeeds changes the one line, keeps every number and the basket well formed.
pub replace_line-Replaces :
    (n : ℕ) (build : PricedLine → Result PricingError LineInput) (cart : Cart) {cart' : Cart}
    → IsValid cart
    → replace_line n build cart ≡ ok cart'
    → Replaces n build cart cart'
unfolding replace_line
replace_line-Replaces n build cart v h = elim (index_of-cases n cart) [
  | inl (missing, _) ↦ err-ne-ok (rw missing at h)
  | inr (i, index, first) ↦
      let (old, at, h₁) = >>=-eq-ok (get_item cart.lines i) _ (rw index at h) in
      let (input, built, h₂) = >>=-eq-ok (map_err pricing_error (build old)) _ h₁ in
      let (new, priced, h₃) = >>=-eq-ok (map_err pricing_error (price_line input)) _ h₂ in
      rw (check_cart-eq (record cart { lines = put_item cart.lines i new }) h₃) (
        put_item-Replaces n i build cart old new input v first (get_item-eq cart.lines i at)
          (map_err-eq pricing_error (build old) built)
          (map_err-eq pricing_error (price_line input) priced))
]

-- A number that no line has is refused, and so it is by each operation that replaces a line.
pub replace_line-missing :
    (n : ℕ) (build : PricedLine → Result PricingError LineInput) (cart : Cart)
    → IsValid cart
    → find n cart ≡ none
    → replace_line n build cart ≡ err (no_line n)
unfolding replace_line
replace_line-missing n build cart v none_found = elim (index_of-cases n cart) [
  | inl (missing, _) ↦ rw missing refl
  | inr (i, index, first) ↦
      absurd (lookup_line-IsFirst n i cart.line_numbers cart.lines first v.numbered none_found)
]

-- A line that is there is replaced whenever its new input can be built and priced.
pub replace_line-ok :
    (n : ℕ) (build : PricedLine → Result PricingError LineInput) (cart : Cart)
    {old new : PricedLine} {input : LineInput}
    → IsValid cart
    → find n cart ≡ some old
    → build old ≡ ok input
    → price_line input ≡ ok new
    → (cart' : Cart) × (replace_line n build cart ≡ ok cart') × Replaces n build cart cart'
unfolding replace_line
replace_line-ok n build cart {old} {new} {input} v was built priced = elim (index_of-cases n cart) [
  | inl (missing, none_found) ↦ cc
  | inr (i, index, first) ↦
      let cart' : Cart = record cart { lines = put_item cart.lines i new } in
      let at : get_elem? cart.lines i ≡ some old =
        get_elem?-IsFirst n i cart.line_numbers cart.lines first v.numbered ∙ was in
      let same : length cart'.lines ≡ length cart'.line_numbers =
        length-put_item n i cart.line_numbers cart.lines new first v.numbered in
      let got : get_item cart.lines i ≡ ok old = get_item-ok cart.lines i at in
      (
        cart',
        >>=-ok _ index (
            >>=-ok _ got (
              >>=-ok _ (map_err-ok pricing_error built)
                (>>=-ok _ (map_err-ok pricing_error priced) (check_cart-ok cart' same)))),
        put_item-Replaces n i build cart old new input v first at built priced,
      )
]
