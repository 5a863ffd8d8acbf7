-- ===== src/Sales/Found.antt =====
-- `find_sale`, and the rows of a sale among those of a table.
use pos.Prelude.{
  ℕ, ℤ, nonneg, ◌+ℤ◌, sum_by, ◌≡◌, ◌≢◌, refl, ap, ◌∙◌, inl, inr, Bool-cases, false, if◌then◌else◌,
  List, [], ◌∷◌, ◌++◌, length, keep, All, none, some, Text, text_eq, text_eq→eq, arith,
}
use pos.Pricing.{PricedLine, sum_lines}
use pos.Sales.{SaleRow, zip}
use pos.Sales.Repository.{find_sale}

pub find_sale-append :
    (sale_id : Text) (sales : List SaleRow) (row : SaleRow)
    → find_sale sale_id sales ≡ none
    → find_sale sale_id (sales ++ row ∷ []) ≡ (if text_eq row.id sale_id then some row else none)
unfolding find_sale
find_sale-append sale_id [] row h = refl
find_sale-append sale_id (s ∷ sales) row h = elim (Bool-cases (text_eq s.id sale_id)) [
  | inl e ↦ cc (let h' = rw e at h in h')
  | inr e ↦ rw e (find_sale-append sale_id sales row (rw e at h))
]

pub find_sale-append_other :
    (sale_id : Text) (sales : List SaleRow) (row : SaleRow)
    → text_eq row.id sale_id ≡ false
    → find_sale sale_id (sales ++ row ∷ []) ≡ find_sale sale_id sales
unfolding find_sale
find_sale-append_other sale_id [] row h = rw h refl
find_sale-append_other sale_id (s ∷ sales) row h = elim (Bool-cases (text_eq s.id sale_id)) [
  | inl e ↦ rw e refl
  | inr e ↦ rw e (find_sale-append_other sale_id sales row h)
]

pub sum_keep-none :
    {A : Type 0} (sale_of : A → Text) (f : A → ℤ) (sale_id : Text) (sales : List SaleRow)
    (rows : List A)
    → find_sale sale_id sales ≡ none
    → All (λ r. find_sale (sale_of r) sales ≢ none) rows
    → sum_by f (keep (λ r. text_eq (sale_of r) sale_id) rows) ≡ nonneg 0
sum_keep-none sale_of f sale_id sales [] h a = refl
sum_keep-none sale_of f sale_id sales (r ∷ rows) h (a, as') =
    elim (Bool-cases (text_eq (sale_of r) sale_id)) [
      | inl e ↦ absurd (a (ap (λ i. find_sale i sales) (text_eq→eq (sale_of r) sale_id e) ∙ h))
      | inr e ↦ rw e (sum_keep-none sale_of f sale_id sales rows h as')
    ]

pub zip-total :
    (numbers : List ℕ) (lines : List PricedLine)
    → length lines ≡ length numbers
    → sum_by (λ l. l.1.line_total) (zip numbers lines) ≡ sum_by (λ l. l.line_total) lines
zip-total [] [] h = refl
zip-total [] (p ∷ lines) h = absurd (omega arith)
zip-total (n ∷ numbers) [] h = absurd (omega arith)
zip-total (n ∷ numbers) (p ∷ lines) h =
    ap (p.line_total +ℤ◌) (zip-total numbers lines (omega arith))

pub lines-net : (lines : List PricedLine) → sum_by (λ l. l.line_total) lines ≡ (sum_lines lines).net
unfolding sum_lines
lines-net [] = refl
lines-net (p ∷ lines) = ap (p.line_total +ℤ◌) (lines-net lines)
