-- ===== src/CartService/Discounts.antt =====
-- The guard of `CartService.apply_discount` in app/services/cart_service.py.
use pos.Prelude.{
  ℕ, ◌≡◌, refl, sym, ap, subst, All, ◌∙◌, ◌-ℤ◌, ◌≤ℤ◌, ltb_ℤ, Bool-cases, true, false, List, [], ◌∷◌,
  ◌++◌, some, inl, inr, ok, err-ne-ok, arith, >>=-ok, ◌==◌, ==_iff,
}
use pos.Pricing.{
  Discount, DiscountKind, DiscountSource, is_percentage, LineInput, PricedLine, check_line,
  price_line,
}
use pos.Pricing.Reductions.{price_line-reduced}
use pos.Cart.{Cart, CartError, line_at, index_of, replace_line}
use pos.Cart as Cart
use pos.Cart.Search.{get_elem?-IsFirst, lookup_line}
use pos.Cart.Invariant.{IsOwnPrice, IsValid, find, index_of-cases}
use pos.Cart.Replacement.{replace_line-Replaces, get_item-ok, map_err-eq}
use pos.CartService.{cart_error}
use pos.CartService.Handlers.{is_fixed, discount_line}

line_at-ok :
    (n : ℕ) (c : Cart) {p : PricedLine} → IsValid c → find n c ≡ some p → line_at n c ≡ ok p
unfolding line_at
line_at-ok n c {p} v h = elim (index_of-cases n c) [
  | inl (missing, none_found) ↦ cc
  | inr (i, index, first) ↦
      >>=-ok _ index
        (get_item-ok c.lines i (get_elem?-IsFirst n i c.line_numbers c.lines first v.numbered ∙ h))
]

check_line-eq : (line : LineInput) {l : LineInput} → check_line line ≡ ok l → l ≡ line
unfolding check_line
check_line-eq line h = ground arith

fixed_is_not_percentage : (k : DiscountKind) → is_fixed k ≡ true → is_percentage k ≡ false
fixed_is_not_percentage k h = ground arith

-- What the guard lets through is at most what the line comes to, and is the discount of the basket.
discount_line-accepted :
    (n : ℕ) (d : Discount) (c : Cart) {c' : Cart} {old : PricedLine}
    → line_at n c ≡ ok old
    → is_fixed d.kind ≡ true
    → discount_line n d c ≡ ok c'
    → (d.value ≤ℤ old.line_total) × (Cart.apply_discount n d c ≡ ok c')
unfolding discount_line
discount_line-accepted n d c {c'} {old} l k h = elim (Bool-cases (ltb_ℤ old.line_total d.value)) [
  | inl g ↦ err-ne-ok (rw (discount_line, k, l, g) at h)
  | inr g ↦ (ground arith, map_err-eq cart_error _ (rw (discount_line, k, l, g) at h))
]

lookup_line-priced :
    (n : ℕ) (numbers : List ℕ) (lines : List PricedLine) {p : PricedLine}
    → All IsOwnPrice lines
    → lookup_line n numbers lines ≡ some p
    → IsOwnPrice p
lookup_line-priced n [] lines own h = cc
lookup_line-priced n (m ∷ numbers) [] own h = cc
lookup_line-priced n (m ∷ numbers) (q ∷ lines) {p} (o, own) h = elim (Bool-cases (m == n)) [
  | inl e ↦
      let same : q ≡ p = (let h' : some q ≡ some p = rw e at h in cc) in subst IsOwnPrice same o
  | inr e ↦ lookup_line-priced n numbers lines own (rw e at h)
]

-- The reduction of one line of a basket by an amount that fits.
reduced :
    (n : ℕ) (d : Discount) (c : Cart) {c' : Cart} {old : PricedLine}
    → IsValid c
    → find n c ≡ some old
    → d.source ≡ DiscountSource.manual
    → is_percentage d.kind ≡ false
    → d.value ≤ℤ old.line_total
    → Cart.apply_discount n d c ≡ ok c'
    → (new : PricedLine) × (find n c' ≡ some new) × (new.line_total ≡ old.line_total -ℤ d.value)
unfolding Cart.apply_discount
reduced n d c {c'} {old} v was m k fits h =
    let r = replace_line-Replaces n _ c v h in
    let same : r.old ≡ old = (let found : some r.old ≡ some old = sym r.was ∙ was in cc) in
    let input : r.input ≡ record old.line { discounts = old.line.discounts ++ d ∷ [] } =
      check_line-eq (record r.old.line { discounts = r.old.line.discounts ++ d ∷ [] }) r.built
      ∙ ap (λ p. record p.line { discounts = p.line.discounts ++ d ∷ [] }) same in
    (
      r.new,
      r.found n ∙ rw ((==_iff n n).1 refl) refl,
      price_line-reduced old.line d (lookup_line-priced n c.line_numbers c.lines v.priced was)
          (ap price_line (sym input) ∙ r.priced) m k fits,
    )

-- A manual discount of the kind "fixed", the word that the guard of `apply_discount` tests for, that it
-- accepts on a line of a well-formed basket takes exactly its value off what that line comes to; nothing
-- of it is lost to a cap at 0.
pub discount_line-exact :
    (n : ℕ) (d : Discount) (c : Cart) {c' : Cart} {old : PricedLine}
    → IsValid c
    → find n c ≡ some old
    → d.source ≡ DiscountSource.manual
    → is_fixed d.kind ≡ true
    → discount_line n d c ≡ ok c'
    → (new : PricedLine) × (find n c' ≡ some new) × (new.line_total ≡ old.line_total -ℤ d.value)
discount_line-exact n d c v was m k h =
    let (fits, done) = discount_line-accepted n d c (line_at-ok n c v was) k h in
    reduced n d c v was m (fixed_is_not_percentage d.kind k) fits done
