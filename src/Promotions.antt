-- ===== src/Promotions.antt =====
-- app/domain/promotions.py: which promotions apply, in which order, and the discounts they become.
-- A moment is a number of seconds since some start, a set of identifiers is a list.
pub mod Applicable
use pos.Prelude.{
  ℕ, ℤ, nonneg, ltb_ℤ, eqb_ℤ, ltb, leb, ◌==◌, ◌&&◌, ◌||◌, not, if◌then◌else◌, Bool, true, false,
  List, [], ◌∷◌, ◌++◌, any, keep, length, Option, none, some, Result, ok, err, ◌>>=◌, ◌>>◌,
  raise_if, map_err, traverse, sort_by, Text, text_eq, text_leb,
}
use pos.Pricing.{Discount, DiscountKind, amount, DiscountSource, PricingError, check_discount}

pub data PromotionError : Type 0 where
  negative_promotion unscoped_amount ends_before_start : PromotionError
  pricing_error : PricingError → PromotionError

pub record Promotion : Type 0 where
  pub id : Text
  pub kind : DiscountKind
  pub value : ℤ
  pub priority : ℤ
  pub product_ids : List Text
  pub category_ids : List Text
  pub starts_at : Option ℕ
  pub ends_at : Option ℕ
  pub description : Text

-- `not (self.product_ids or self.category_ids)`
unfoldable pub is_unscoped : Promotion → Bool
is_unscoped p = length p.product_ids == 0 && length p.category_ids == 0

abbrev pub is_amount : DiscountKind → Bool
is_amount amount = true
is_amount _ = false

-- `self.starts_at and self.ends_at and self.ends_at < self.starts_at`
unfoldable pub ends_early : Option ℕ → Option ℕ → Bool
ends_early (some start) (some end) = ltb end start
ends_early _ _ = false

-- `Promotion.__post_init__`
unfoldable pub check_promotion : Promotion → Result PromotionError Promotion
unfolding is_unscoped ends_early
check_promotion p = do
  raise_if (ltb_ℤ p.value (nonneg 0)) negative_promotion
  raise_if (is_amount p.kind && is_unscoped p) unscoped_amount
  raise_if (ends_early p.starts_at p.ends_at) ends_before_start
  ok p

-- `Promotion.active_at`, by the window
unfoldable pub in_window : Option ℕ → Option ℕ → ℕ → Bool
in_window starts_at ends_at now =
    if (elim starts_at [ none ↦ false | some start ↦ ltb now start ])
    then false
    else not (elim ends_at [ none ↦ false | some end ↦ leb end now ])

abbrev pub active_at : ℕ → Promotion → Bool
active_at now p = in_window p.starts_at p.ends_at now

-- `Promotion.covers`
unfoldable pub covers : Text → Option Text → Promotion → Bool
unfolding is_unscoped
covers product_id category_id p =
    if is_unscoped p
    then true
    else (if any (text_eq product_id) p.product_ids
        then true
        else (elim category_id [ none ↦ false | some c ↦ any (text_eq c) p.category_ids ]))

abbrev pub or_text : Text → Text → Text
or_text [] s = s
or_text (c ∷ cs) s = c ∷ cs

-- "Promotion "
abbrev pub promotion_word : Text
promotion_word = 80 ∷ 114 ∷ 111 ∷ 109 ∷ 111 ∷ 116 ∷ 105 ∷ 111 ∷ 110 ∷ 32 ∷ []

-- The discount of a promotion, before its constructor checks it.
abbrev pub discount_of : Promotion → Discount
discount_of p = record {
  kind = p.kind;
  value = p.value;
  reason = or_text p.description (promotion_word ++ p.id);
  source = DiscountSource.promotion;
  promotion_id = some p.id;
}

-- `Promotion.to_discount`
unfoldable pub to_discount : Promotion → Result PromotionError Discount
to_discount p = map_err pricing_error (check_discount (discount_of p))

-- The order of the key `(priority, id)`.
unfoldable pub runs_before : Promotion → Promotion → Bool
runs_before p q = ltb_ℤ p.priority q.priority || eqb_ℤ p.priority q.priority && text_leb p.id q.id

abbrev pub matches : Text → Option Text → ℕ → Promotion → Bool
matches product_id category_id now p = active_at now p && covers product_id category_id p

unfoldable pub applicable : List Promotion → Text → Option Text → ℕ → List Promotion
unfolding runs_before sort_by in_window covers
applicable promotions product_id category_id now =
    sort_by runs_before (keep (matches product_id category_id now) promotions)

unfoldable pub discounts_for :
    List Promotion → Text → Option Text → ℕ → Result PromotionError (List Discount)
unfolding applicable to_discount
discounts_for promotions product_id category_id now =
    traverse to_discount (applicable promotions product_id category_id now)
