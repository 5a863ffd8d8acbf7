-- ===== src/Cart/Operations.antt =====
-- What adding and voiding a line of app/domain/cart.py do to a basket.
use pos.Prelude.{
  ℕ, zero, suc, ◌+◌, ◌≤◌, ◌==◌, ◌≡◌, refl, Bool-cases, true, if◌then◌else◌, List, [], ◌∷◌, ◌++◌,
  length, get_elem?, none, some, inl, inr, ok, err, arith, All-append, length-append, ◌∙◌, sym,
}
use native.Mathlib.Nat.{zero-add}
use native.Mathlib.Numerals.{add-one}
use pos.Pricing.{LineInput, PricedLine, price_line}
use pos.Cart.{
  Cart, no_line, replace_line, is_mergeable, mergeable_from, add_quantity, append_line, add,
  void_line,
}
use pos.Cart.Search.{
  Ascends, IsFirst, get_elem?-IsFirst, remove_item, All-remove_item, length-remove_item,
  Ascends-remove_item, lookup_line-remove_item, Ascends-append, lookup_line-append,
  lookup_line-IsFirst,
}
use pos.Cart.Replacement.{Replaces, replace_line-Replaces}
use pos.Cart.Invariant.{
  IsOwnPrice, IsValid, find, price_line-IsOwnPrice, check_cart-ok, index_of-cases,
}

-- Voiding a number that no line has is refused. Voiding a line takes out that line alone: every
-- other line keeps its number, and the number is not handed out again.
pub void_line_lem :
    (n : ℕ) (cart : Cart)
    → IsValid cart
    → (find n cart ≡ none → void_line n cart ≡ err (no_line n))
      × ((p : PricedLine)
          → find n cart ≡ some p
          → (cart' : Cart) × (void_line n cart ≡ ok cart')
            × IsValid cart'
            × (cart'.next_line_no ≡ cart.next_line_no)
            × ((m : ℕ) → find m cart' ≡ (if n == m then none else find m cart)))
unfolding void_line
void_line_lem n cart v = elim (index_of-cases n cart) [
  | inl (missing, none_found) ↦ ((λ _. rw missing refl), (λ p was. cc))
  | inr (i, index, first) ↦
      let cart' : Cart = record cart {
        lines = remove_item cart.lines i;
        line_numbers = remove_item cart.line_numbers i;
      } in
      let same = length-remove_item n i cart.line_numbers cart.lines first v.numbered in
      (
        (λ none_found.
            absurd
              (lookup_line-IsFirst n i cart.line_numbers cart.lines first v.numbered none_found)),
        (λ p was. (
          cart',
          rw index (check_cart-ok cart' same),
          record {
            numbered = same;
            ascending =
                Ascends-remove_item n i 1 cart.next_line_no cart.line_numbers first v.ascending;
            priced = All-remove_item IsOwnPrice cart.lines i v.priced;
          },
          refl,
          λ m.
              lookup_line-remove_item n m i 1 cart.next_line_no cart.line_numbers cart.lines first
                v.numbered v.ascending,
        )),
      )
]

-- An appended line takes the next number; every other line stays as it was.
pub append_line_lem :
    (line : LineInput) (cart : Cart) {p : PricedLine}
    → IsValid cart
    → price_line line ≡ ok p
    → (cart' : Cart) × (append_line line cart ≡ ok cart')
      × IsValid cart'
      × (cart'.next_line_no ≡ suc cart.next_line_no)
      × ((m : ℕ) → find m cart' ≡ (if cart.next_line_no == m then some p else find m cart))
unfolding append_line
append_line_lem line cart {p} v priced =
    let cart' : Cart = record {
      lines = cart.lines ++ p ∷ [];
      next_line_no = cart.next_line_no + 1;
      line_numbers = cart.line_numbers ++ cart.next_line_no ∷ [];
    } in
    let same : length cart'.lines ≡ length cart'.line_numbers = omega (
      arith,
      length-append cart.lines (p ∷ []),
      length-append cart.line_numbers (cart.next_line_no ∷ []),
      v.numbered,
    ) in
    (
      cart',
      rw priced (check_cart-ok cart' same),
      record {
        numbered = same;
        ascending =
            rw (add-one cart.next_line_no)
              (Ascends-append 1 cart.next_line_no cart.line_numbers v.ascending);
        priced =
            All-append IsOwnPrice cart.lines (p ∷ []) v.priced
              (price_line-IsOwnPrice line priced, tt);
      },
      omega arith,
      λ m.
          lookup_line-append m 1 cart.next_line_no cart.line_numbers cart.lines p v.numbered
            v.ascending,
    )

mergeable_from-some :
    (position : ℕ) (line : LineInput) (lines : List PricedLine) {i : ℕ}
    → mergeable_from position line lines ≡ some i
    → (j : ℕ) × (p : PricedLine) × (i ≡ position + j)
      × (get_elem? lines j ≡ some p)
      × (is_mergeable p.line line ≡ true)
unfolding mergeable_from
mergeable_from-some position line [] h = cc
mergeable_from-some position line (p ∷ lines) h = elim (Bool-cases (is_mergeable p.line line)) [
  | inl e ↦ (0, p, ground arith, refl, e)
  | inr e ↦
      let (j, q, same, at, ok_to_merge) =
        mergeable_from-some (position + 1) line lines (rw e at h) in
      (suc j, q, omega arith, at, ok_to_merge)
]

number_at :
    (low high i : ℕ) (numbers : List ℕ) (lines : List PricedLine) {p : PricedLine}
    → Ascends low numbers high
    → length lines ≡ length numbers
    → get_elem? lines i ≡ some p
    → (n : ℕ) × (get_elem? numbers i ≡ some n) × IsFirst n numbers i × (low ≤ n)
number_at low high i numbers [] a l at = cc
number_at low high i [] (p ∷ lines) a l at = absurd (omega arith)
number_at low high zero (n ∷ numbers) (p ∷ lines) (a, rest) l at = (n, refl, refl, a)
number_at low high (suc i) (k ∷ numbers) (p ∷ lines) (a, rest) l at =
    let (n, got, first, le) = number_at (suc k) high i numbers lines rest (omega arith) at in
    (n, got, (ground arith, first), omega arith)

add-merge_eq :
    (line : LineInput) (cart : Cart) {i n : ℕ}
    → mergeable_from 0 line cart.lines ≡ some i
    → get_elem? cart.line_numbers i ≡ some n
    → add line true cart ≡ replace_line n (add_quantity line) cart
unfolding add
add-merge_eq line cart hit number = ground arith

-- A merging scan that finds a line of the same thing raises that line's quantity, and does
-- nothing else: the line is one that `is_mergeable` accepts, and the basket is as after replacing it.
pub add-merge :
    (line : LineInput) (cart : Cart) {i : ℕ} {cart' : Cart}
    → IsValid cart
    → mergeable_from 0 line cart.lines ≡ some i
    → add line true cart ≡ ok cart'
    → (n : ℕ) × (old : PricedLine) × (find n cart ≡ some old)
      × (is_mergeable old.line line ≡ true)
      × Replaces n (add_quantity line) cart cart'
add-merge line cart {i} v hit h =
    let (j, old, same, at, fits) = mergeable_from-some 0 line cart.lines hit in
    let at_i : get_elem? cart.lines i ≡ some old = rw same (rw (zero-add j) at) in
    let (n, number, first, _) =
      number_at 1 cart.next_line_no i cart.line_numbers cart.lines v.ascending v.numbered at_i in
    (
      n,
      old,
      sym (get_elem?-IsFirst n i cart.line_numbers cart.lines first v.numbered) ∙ at_i,
      fits,
      replace_line-Replaces n (add_quantity line) cart v
          (sym (add-merge_eq line cart hit number) ∙ h),
    )
