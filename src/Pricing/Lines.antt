-- ===== src/Pricing/Lines.antt =====
-- The figures of a priced line reconcile, and so do the sums over lines.
use pos.Prelude.{
  ◌≡◌, ◌≢◌, refl, nonneg, negsuc, ◌+ℤ◌, ◌-ℤ◌, ◌≤ℤ◌, ◌<ℤ◌, sum_by, Bool, Bool-cases, List, [], ◌∷◌,
  ◌++◌, keep, All, All-append, inl, inr, arith, int_laws, ok, ok-injective, err-ne-ok, Result-cases,
  parts_of_eq, eq_of_parts, ◌⊎◌, ◌∙◌,
}
use pos.Money.{Money, multiply_by_quantity}
use pos.Tax.{extract_inclusive_tax}
use pos.Tax.Extraction.{extract_inclusive_tax_range}
use pos.Pricing.{
  Discount, DiscountSource, LineInput, PricedLine, is_promotion, is_manual, ordered,
  apply_discounts, price_line, sum_lines,
}
use pos.Pricing.Discounts.{IsDiscount, apply_discounts-Splits, apply_discounts_negative}

pub All-keep {ℓ} :
    {A : Type ℓ} (P : A → Type 0) (p : A → Bool) (xs : List A) → All P xs → All P (keep p xs)
All-keep P p [] h = tt
All-keep P p (x ∷ xs) (h, hs) = elim (Bool-cases (p x)) [
  | inl e ↦ rw e (h, All-keep P p xs hs)
  | inr e ↦ rw e (All-keep P p xs hs)
]

ordered-All :
    (discounts : List Discount) → All IsDiscount discounts → All IsDiscount (ordered discounts)
unfolding ordered
ordered-All discounts v =
    All-append IsDiscount (keep (λ d. is_promotion d.source) discounts)
      (keep (λ d. is_manual d.source) discounts)
      (All-keep IsDiscount (λ d. is_promotion d.source) discounts v)
      (All-keep IsDiscount (λ d. is_manual d.source) discounts v)

-- What a line whose gross amount is not negative comes to.
pub record Reconciles (line : LineInput) (p : PricedLine) : Type 0 where
  pub same_line : p.line ≡ line
  pub same_gross : p.gross ≡ multiply_by_quantity line.unit_price line.qty_milli
  pub discounts_accounted : sum_by (λ a. a.amount) p.applied ≡ p.gross -ℤ p.line_total
  pub discounts_positive : All (λ a. nonneg 1 ≤ℤ a.amount) p.applied
  pub total_nonneg : nonneg 0 ≤ℤ p.line_total
  pub total_le : p.line_total ≤ℤ p.gross
  pub tax_accounted : p.taxable_base +ℤ p.tax_amount ≡ p.line_total
  pub tax_nonneg : nonneg 0 ≤ℤ p.tax_amount
  pub tax_le : p.tax_amount ≤ℤ p.line_total

-- A line with discounts that their constructor accepts, a rate that is not negative and a gross
-- amount that is not negative is priced, and its figures reconcile.
pub price_line-Reconciles :
    (line : LineInput)
    → All IsDiscount line.discounts
    → nonneg 0 ≤ℤ line.tax_code.rate_bp
    → nonneg 0 ≤ℤ multiply_by_quantity line.unit_price line.qty_milli
    → (p : PricedLine) × (price_line line ≡ ok p) × Reconciles line p
unfolding price_line
price_line-Reconciles line v r g =
    let gross = multiply_by_quantity line.unit_price line.qty_milli in
    let out = apply_discounts (ordered line.discounts) gross in
    let split =
      apply_discounts-Splits (ordered line.discounts) gross (ordered-All line.discounts v) g in
    let (tax, got, low, high) =
      extract_inclusive_tax_range out.1 line.tax_code.rate_bp split.left_nonneg r in
    let p : PricedLine = record {
      line = line;
      gross = gross;
      applied = out.0;
      line_total = out.1;
      tax_amount = tax;
      taxable_base = out.1 -ℤ tax;
    } in
    (
      p,
      rw got refl,
      record {
        same_line = refl;
        same_gross = refl;
        discounts_accounted = eq_of_parts _ _ (omega (int_laws, parts_of_eq split.accounted));
        discounts_positive = split.positive;
        total_nonneg = split.left_nonneg;
        total_le = split.left_le;
        tax_accounted = omega int_laws;
        tax_nonneg = low;
        tax_le = high;
      },
    )

-- Whatever the sign, a priced line keeps its input, and its base and its tax add up to its total.
pub record IsPriced (line : LineInput) (p : PricedLine) : Type 0 where
  pub same_line : p.line ≡ line
  pub tax_accounted : p.taxable_base +ℤ p.tax_amount ≡ p.line_total

pub price_line-IsPriced :
    (line : LineInput) {p : PricedLine} → price_line line ≡ ok p → IsPriced line p
unfolding price_line
price_line-IsPriced line h =
    let gross = multiply_by_quantity line.unit_price line.qty_milli in
    let out = apply_discounts (ordered line.discounts) gross in
    elim (Result-cases (extract_inclusive_tax out.1 line.tax_code.rate_bp)) [
      | inl (e, failed) ↦ err-ne-ok (rw failed at h)
      | inr (tax, got) ↦
          rw (← ok-injective (rw got at h))
            (record { same_line = refl; tax_accounted = omega int_laws })
    ]

pub line_total-eq :
    (line : LineInput) {p : PricedLine}
    → price_line line ≡ ok p
    → p.line_total
      ≡ (apply_discounts
          (ordered line.discounts)
          (multiply_by_quantity line.unit_price line.qty_milli)).1
unfolding price_line
line_total-eq line h =
    let gross = multiply_by_quantity line.unit_price line.qty_milli in
    let out = apply_discounts (ordered line.discounts) gross in
    elim (Result-cases (extract_inclusive_tax out.1 line.tax_code.rate_bp)) [
      | inl (e, failed) ↦ err-ne-ok (rw failed at h)
      | inr (tax, got) ↦ rw (← ok-injective (rw got at h)) refl
    ]

source_cases : (s : DiscountSource) → (s ≡ DiscountSource.promotion) ⊎ (s ≡ DiscountSource.manual)
source_cases DiscountSource.promotion = inl refl
source_cases DiscountSource.manual = inr refl

append-ne-nil {ℓ} : {A : Type ℓ} (xs : List A) (y : A) (ys : List A) → xs ++ (y ∷ ys) ≢ []
append-ne-nil [] y ys h = cc
append-ne-nil (x ∷ xs) y ys h = cc

ordered-ne-nil : (discounts : List Discount) → discounts ≢ [] → ordered discounts ≢ []
unfolding ordered
ordered-ne-nil [] ne = absurd (ne refl)
ordered-ne-nil (d ∷ discounts) ne = elim (source_cases d.source) [
  | inl e ↦ rw e (λ h. cc)
  | inr e ↦ rw e (
      append-ne-nil (keep (λ d. is_promotion d.source) discounts) _
        (keep (λ d. is_manual d.source) discounts))
]

apply_discounts_whole :
    (discounts : List Discount) (running : Money)
    → All IsDiscount discounts
    → discounts ≢ []
    → running <ℤ nonneg 0
    → (apply_discounts discounts running).1 ≡ nonneg 0
apply_discounts_whole [] running v ne low = absurd (ne refl)
apply_discounts_whole (d ∷ discounts) (nonneg r) v ne low = absurd (omega arith)
apply_discounts_whole (d ∷ discounts) (negsuc r) (v, vs) ne low =
    apply_discounts_negative d discounts r v vs

-- On a line whose gross amount is negative, such as a refund, any discount at all takes off the
-- whole amount: the line comes to zero, whatever the discount is worth.
pub price_line_negative :
    (line : LineInput) {p : PricedLine}
    → All IsDiscount line.discounts
    → line.discounts ≢ []
    → multiply_by_quantity line.unit_price line.qty_milli <ℤ nonneg 0
    → price_line line ≡ ok p
    → p.line_total ≡ nonneg 0
price_line_negative line v some_discount low h =
    line_total-eq line h
    ∙ apply_discounts_whole (ordered line.discounts)
        (multiply_by_quantity line.unit_price line.qty_milli) (ordered-All line.discounts v)
        (ordered-ne-nil line.discounts some_discount) low

-- The sums over any priced lines agree: discounts are what separates gross from net, and base and
-- tax add up to the net amount.
pub sum_lines-agree :
    (lines : List PricedLine)
    → All (λ p. p.taxable_base +ℤ p.tax_amount ≡ p.line_total) lines
    → let sums = sum_lines lines in
      (sums.gross -ℤ sums.discount_total ≡ sums.net)
      × (sums.taxable_base +ℤ sums.tax_total ≡ sums.net)
unfolding sum_lines
sum_lines-agree [] h = (omega int_laws, omega int_laws)
sum_lines-agree (p ∷ lines) (h, hs) =
    let (gross, tax) = sum_lines-agree lines hs in
    (omega (int_laws, parts_of_eq gross), omega (int_laws, parts_of_eq tax, parts_of_eq h))
