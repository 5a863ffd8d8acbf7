-- ===== src/Pricing/Reductions.antt =====
-- A manual reduction is the last one: what `_ordered` and `price_line` of app/domain/pricing.py make
-- of one more.
use pos.Prelude.{
  ◌≡◌, refl, ap, sym, ◌∙◌, ℤ, nonneg, ◌-ℤ◌, ◌≤ℤ◌, ltb_ℤ, Bool, Bool-cases, true, false, List, [],
  ◌∷◌, ◌++◌, keep, inl, inr, ok, arith, int_laws, eqb_ℤ→eq,
}
use mathlib.Core.List.{append-nil, append_assoc}
use pos.Money.{Money, is_zero, multiply_by_quantity}
use pos.Pricing.{
  Discount, DiscountSource, LineInput, PricedLine, is_percentage, is_promotion, is_manual, against,
  taken_off, ordered, apply_discounts, price_line,
}
use pos.Pricing.Lines.{line_total-eq}

keep-append :
    {A : Type 0} (p : A → Bool) (xs ys : List A) → keep p (xs ++ ys) ≡ keep p xs ++ keep p ys
keep-append p [] ys = refl
keep-append p (x ∷ xs) ys = elim (Bool-cases (p x)) [
  | inl e ↦ rw e (ap (x ∷◌) (keep-append p xs ys))
  | inr e ↦ rw e (keep-append p xs ys)
]

-- A manual reduction that is added last is applied last.
ordered-manual :
    (discounts : List Discount) (d : Discount)
    → d.source ≡ DiscountSource.manual
    → ordered (discounts ++ d ∷ []) ≡ ordered discounts ++ d ∷ []
unfolding ordered
ordered-manual discounts d m =
    let promotions = keep (λ x. is_promotion x.source) discounts in
    let manuals = keep (λ x. is_manual x.source) discounts in
    let is_p : is_promotion d.source ≡ false = rw m refl in
    let is_m : is_manual d.source ≡ true = rw m refl in
    rw
      (
        keep-append (λ x. is_promotion x.source) discounts (d ∷ []),
        keep-append (λ x. is_manual x.source) discounts (d ∷ []),
        is_p,
        is_m,
        append-nil promotions,
      )
      (sym (append_assoc promotions manuals (d ∷ [])))

apply_discounts-append :
    (xs ys : List Discount) (running : Money)
    → (apply_discounts (xs ++ ys) running).1 ≡ (apply_discounts ys (apply_discounts xs running).1).1
unfolding apply_discounts
apply_discounts-append [] ys running = refl
apply_discounts-append (x ∷ xs) ys running = apply_discounts-append xs ys _

taken_off-fitting :
    (d : Discount) (running : Money)
    → is_percentage d.kind ≡ false
    → d.value ≤ℤ running
    → taken_off d running ≡ d.value
unfolding taken_off against
taken_off-fitting d running k fits =
    let low : ltb_ℤ running d.value ≡ false = ground arith in rw (k, low) refl

zero_left : (a b : ℤ) → b ≡ nonneg 0 → a ≡ a -ℤ b
zero_left a b h = rw h (omega int_laws)

apply_discounts-fitting :
    (d : Discount) (running : Money)
    → is_percentage d.kind ≡ false
    → d.value ≤ℤ running
    → (apply_discounts (d ∷ []) running).1 ≡ running -ℤ d.value
unfolding apply_discounts
apply_discounts-fitting d running k fits = elim (Bool-cases (is_zero d.value)) [
  | inl z ↦
      rw (taken_off-fitting d running k fits, z)
        (zero_left running d.value (eqb_ℤ→eq d.value (nonneg 0) z))
  | inr z ↦ rw (taken_off-fitting d running k fits, z) refl
]

-- A manual reduction by an amount that is at most what the line comes to takes off that amount.
pub price_line-reduced :
    (line : LineInput) (d : Discount) {old new : PricedLine}
    → price_line line ≡ ok old
    → price_line (record line { discounts = line.discounts ++ d ∷ [] }) ≡ ok new
    → d.source ≡ DiscountSource.manual
    → is_percentage d.kind ≡ false
    → d.value ≤ℤ old.line_total
    → new.line_total ≡ old.line_total -ℤ d.value
price_line-reduced line d {old} {new} was now manual k fits =
    let gross = multiply_by_quantity line.unit_price line.qty_milli in
    let left = line_total-eq line was in
    line_total-eq (record line { discounts = line.discounts ++ d ∷ [] }) now
    ∙ ap (λ ds. (apply_discounts ds gross).1) (ordered-manual line.discounts d manual)
    ∙ apply_discounts-append (ordered line.discounts) (d ∷ []) gross
    ∙ rw (← left) (apply_discounts-fitting d old.line_total k fits)
