-- ===== src/Promotions/Applicable.antt =====
-- The promotions of app/domain/promotions.py in their order, whatever the order of the rows.
use pos.Prelude.{
  ℕ, ◌≡◌, refl, ap, ◌⊎◌, inl, inr, Bool, Bool-cases, true, false, List, [], ◌∷◌, All, keep, Option,
  ok, ok-injective, err-ne-ok, >>=-eq-ok, traverse, sort_by-IsSorted, IsSorted, All-sort_by, Text,
  text_eq, text_leb, text_leb_total, arith, Shuffle, Apart, Apart-keep, Apart-weaken, keep-Shuffle,
  sort_by-Shuffle, Result-cases,
}
use pos.Pricing.{Discount, check_discount}
use pos.Pricing.Discounts.{IsDiscount, check_discount-IsDiscount}
use pos.Promotions.{
  Promotion, runs_before, matches, applicable, discount_of, to_discount, discounts_for,
}

text_leb_trans : (s t u : Text) → text_leb s t ≡ true → text_leb t u ≡ true → text_leb s u ≡ true
unfolding text_leb
text_leb_trans [] t u h k = refl
text_leb_trans (a ∷ s) [] u h k = cc
text_leb_trans (a ∷ s) (b ∷ t) [] h k = cc
text_leb_trans (a ∷ s) (b ∷ t) (c ∷ u) h k = ground (arith, text_leb_trans s t u)

text_leb_antisym : (s t : Text) → text_leb s t ≡ true → text_leb t s ≡ true → text_eq s t ≡ true
unfolding text_leb text_eq
text_leb_antisym [] [] h k = refl
text_leb_antisym [] (b ∷ t) h k = cc
text_leb_antisym (a ∷ s) [] h k = cc
text_leb_antisym (a ∷ s) (b ∷ t) h k = ground (arith, text_leb_antisym s t)

runs_before_total : (p q : Promotion) → (runs_before p q ≡ true) ⊎ (runs_before q p ≡ true)
unfolding runs_before
runs_before_total p q = ground (arith, text_leb_total p.id q.id)

runs_before_trans :
    (p q r : Promotion) → runs_before p q ≡ true → runs_before q r ≡ true → runs_before p r ≡ true
unfolding runs_before
runs_before_trans p q r h k = ground (arith, text_leb_trans p.id q.id r.id)

-- The identifiers of two promotions differ.
abbrev pub HasOtherId : Promotion → Promotion → Type 0
HasOtherId p q = text_eq p.id q.id ≡ false

runs_before-Differ :
    (p q : Promotion) → HasOtherId p q → runs_before p q ≡ true → runs_before q p ≡ false
unfolding runs_before
runs_before-Differ p q d h = ground (arith, text_leb_antisym p.id q.id)

-- Promotions with different identifiers give the same discounts in the same order, whatever the
-- order in which the rows are listed.
pub discounts_for-order :
    {promotions others : List Promotion} (product_id : Text) (category_id : Option Text) (now : ℕ)
    → Apart HasOtherId promotions
    → Shuffle promotions others
    → discounts_for promotions product_id category_id now
      ≡ discounts_for others product_id category_id now
unfolding discounts_for applicable
discounts_for-order {promotions} product_id category_id now apart s = ap (traverse to_discount) (
    sort_by-Shuffle runs_before runs_before_total runs_before_trans
      (keep-Shuffle (matches product_id category_id now) s)
      (Apart-keep _ (matches product_id category_id now) promotions (
        Apart-weaken HasOtherId (λ p q. runs_before p q ≡ true → runs_before q p ≡ false)
          runs_before-Differ promotions apart)))

All-matches : (p : Promotion → Bool) (ps : List Promotion) → All (λ q. p q ≡ true) (keep p ps)
All-matches p [] = tt
All-matches p (q ∷ ps) = elim (Bool-cases (p q)) [
  | inl e ↦ rw e (e, All-matches p ps)
  | inr e ↦ rw e (All-matches p ps)
]

-- The promotions that apply are active at the moment and cover the product, and stand in the order
-- of priority, then identifier.
pub applicable_lem :
    (promotions : List Promotion) (product_id : Text) (category_id : Option Text) (now : ℕ)
    → let found = applicable promotions product_id category_id now in
      All (λ p. matches product_id category_id now p ≡ true) found × IsSorted runs_before found
unfolding applicable
applicable_lem promotions product_id category_id now = (
  All-sort_by runs_before (λ p. matches product_id category_id now p ≡ true)
      (keep (matches product_id category_id now) promotions)
      (All-matches (matches product_id category_id now) promotions),
  sort_by-IsSorted runs_before runs_before_total
      (keep (matches product_id category_id now) promotions),
)

to_discount-IsDiscount : (p : Promotion) {d : Discount} → to_discount p ≡ ok d → IsDiscount d
unfolding to_discount
to_discount-IsDiscount p h = elim (Result-cases (check_discount (discount_of p))) [
  | inl (e, k) ↦ err-ne-ok (rw k at h)
  | inr (d, k) ↦ rw (← ok-injective (rw k at h)) (check_discount-IsDiscount (discount_of p) k)
]

traverse-IsDiscount :
    (ps : List Promotion) {ds : List Discount} → traverse to_discount ps ≡ ok ds → All IsDiscount ds
traverse-IsDiscount [] h = rw (← ok-injective h) tt
traverse-IsDiscount (p ∷ ps) h =
    let (d, first, after) = >>=-eq-ok (to_discount p) _ h in
    let (ds, rest, last) = >>=-eq-ok (traverse to_discount ps) _ after in
    rw (← ok-injective last) (to_discount-IsDiscount p first, traverse-IsDiscount ps rest)

-- Every discount that a promotion gives has a value that is not negative, and at most the whole
-- of the price when it is a percentage.
pub discounts_for-IsDiscount :
    (promotions : List Promotion) (product_id : Text) (category_id : Option Text) (now : ℕ)
    {ds : List Discount}
    → discounts_for promotions product_id category_id now ≡ ok ds
    → All IsDiscount ds
unfolding discounts_for
discounts_for-IsDiscount promotions product_id category_id now =
    traverse-IsDiscount (applicable promotions product_id category_id now)
