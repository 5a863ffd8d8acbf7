-- ===== src/Tax/Groups.antt =====
-- The loops of `breakdown` in app/domain/tax.py: the groups by code and the row of each group.
use pos.Prelude.{
  ◌≡◌, refl, ℤ, nonneg, ◌+ℤ◌, Bool, false, if◌then◌else◌, List, [], ◌∷◌, All, ok, Result-cases,
  ok-injective, err-ne-ok, Text, text_eq, text_eq→eq, inl, inr, int_laws, sum_by, Bool-cases, eqb_ℤ,
  >>=-eq-ok,
}
use pos.Money.{Money}
use pos.Tax.{
  TaxCode, TaxComponent, Grouped, gross_of, extract_inclusive_tax, split_cgst_sgst, component_for,
  add_to_group, group_items, components_of,
}
use pos.Tax.Halves.{split_cgst_sgst-sum}

-- One row of the block reconciles with itself.
pub record IsRowOf (tax_code : TaxCode) (gross : Money) (c : TaxComponent) : Type 0 where
  pub same_code : c.tax_code ≡ tax_code.code
  pub same_rate : c.rate_bp ≡ tax_code.rate_bp
  pub same_gross : c.taxable_base +ℤ c.tax_amount ≡ gross
  pub same_tax : c.cgst +ℤ c.sgst ≡ c.tax_amount

-- A component names its code and rate, its base and tax add up to the gross amount, and the two
-- halves add up to the tax.
pub component_for-IsRowOf :
    (tax_code : TaxCode) (gross : Money) {c : TaxComponent}
    → component_for tax_code gross ≡ ok c
    → IsRowOf tax_code gross c
unfolding component_for
component_for-IsRowOf tax_code gross h =
    elim (Result-cases (extract_inclusive_tax gross tax_code.rate_bp)) [
      | inl (e, failed) ↦ err-ne-ok (rw failed at h)
      | inr (tax, got) ↦ elim (Result-cases (split_cgst_sgst tax)) [
        | inl (e, failed) ↦ err-ne-ok (rw (got, failed) at h)
        | inr (halves, split) ↦ rw (← ok-injective (rw (got, split) at h)) (record {
          same_code = refl;
          same_rate = refl;
          same_gross = omega int_laws;
          same_tax = split_cgst_sgst-sum tax split;
        })
      ]
    ]

-- Figures of the entries, rows and items whose code is picked by a test.
module _ (picks : Text → Bool) where
  abbrev pub entry_gross : Text × (TaxCode × Money) → ℤ
  entry_gross (key, (_, gross)) = if picks key then gross else nonneg 0

  abbrev pub row_gross : TaxComponent → ℤ
  row_gross c = if picks c.tax_code then gross_of c else nonneg 0

  abbrev pub item_gross : TaxCode × Money → ℤ
  item_gross (tax_code, gross) = if picks tax_code.code then gross else nonneg 0

  add_to_group-sum :
      (tax_code : TaxCode) (gross : Money) (grouped : Grouped) {grouped' : Grouped}
      → add_to_group tax_code gross grouped ≡ ok grouped'
      → sum_by entry_gross grouped' ≡ item_gross (tax_code, gross) +ℤ sum_by entry_gross grouped
  unfolding add_to_group
  add_to_group-sum tax_code gross [] h = rw (← ok-injective h) refl
  add_to_group-sum tax_code gross ((key, (c, g)) ∷ grouped) {grouped'} h =
      elim (Bool-cases (text_eq key tax_code.code)) [
        | inl same ↦ elim (Bool-cases (eqb_ℤ c.rate_bp tax_code.rate_bp)) [
          | inl rate ↦ rw (← ok-injective (rw (same, rate) at h)) (
              rw (text_eq→eq key tax_code.code same) (elim (Bool-cases (picks tax_code.code)) [
                | inl e ↦ rw e (omega int_laws)
                | inr e ↦ rw e (omega int_laws)
              ]))
          | inr rate ↦ err-ne-ok (rw (same, rate) at h)
        ]
        | inr other ↦ elim (Result-cases (add_to_group tax_code gross grouped)) [
          | inl (e, failed) ↦ err-ne-ok (rw (other, failed) at h)
          | inr (rest, added) ↦
              rw (← ok-injective (rw (other, added) at h))
                (rw (add_to_group-sum tax_code gross grouped added) (omega int_laws))
        ]
      ]

  pub group_items-sum :
      (items : List (TaxCode × Money)) (grouped : Grouped) {grouped' : Grouped}
      → group_items items grouped ≡ ok grouped'
      → sum_by entry_gross grouped' ≡ sum_by item_gross items +ℤ sum_by entry_gross grouped
  unfolding group_items
  group_items-sum [] grouped h = rw (← ok-injective h) (omega int_laws)
  group_items-sum ((tax_code, gross) ∷ items) grouped h =
      let (next, added, rest) =
        >>=-eq-ok (add_to_group tax_code gross grouped) (group_items items) h in
      rw (group_items-sum items next rest)
        (rw (add_to_group-sum tax_code gross grouped added) (omega int_laws))

-- Each entry is filed under its own code, and no key is filed twice.
abbrev pub IsFiled : Text × (TaxCode × Money) → Type 0
IsFiled (key, (tax_code, _)) = key ≡ tax_code.code

abbrev pub IsFresh : Text → Grouped → Type 0
IsFresh key = All (λ entry. text_eq key entry.0 ≡ false)

abbrev pub HasUniqueKeys : Grouped → Type 0
HasUniqueKeys [] = Unit
HasUniqueKeys ((key, _) ∷ grouped) = IsFresh key grouped × HasUniqueKeys grouped

abbrev pub IsGrouping : Grouped → Type 0
IsGrouping grouped = All IsFiled grouped × HasUniqueKeys grouped

add_to_group-IsFresh :
    (key : Text) (tax_code : TaxCode) (gross : Money) (grouped : Grouped) {grouped' : Grouped}
    → add_to_group tax_code gross grouped ≡ ok grouped'
    → text_eq key tax_code.code ≡ false
    → IsFresh key grouped
    → IsFresh key grouped'
unfolding add_to_group
add_to_group-IsFresh key tax_code gross [] h ne fresh = rw (← ok-injective h) (ne, tt)
add_to_group-IsFresh key tax_code gross ((j, (c, g)) ∷ grouped) h ne (f, fresh) =
    elim (Bool-cases (text_eq j tax_code.code)) [
      | inl same ↦ elim (Bool-cases (eqb_ℤ c.rate_bp tax_code.rate_bp)) [
        | inl rate ↦ rw (← ok-injective (rw (same, rate) at h)) (f, fresh)
        | inr rate ↦ err-ne-ok (rw (same, rate) at h)
      ]
      | inr other ↦ elim (Result-cases (add_to_group tax_code gross grouped)) [
        | inl (e, failed) ↦ err-ne-ok (rw (other, failed) at h)
        | inr (rest, added) ↦
            rw (← ok-injective (rw (other, added) at h))
              (f, add_to_group-IsFresh key tax_code gross grouped added ne fresh)
      ]
    ]

add_to_group-IsGrouping :
    (tax_code : TaxCode) (gross : Money) (grouped : Grouped) {grouped' : Grouped}
    → add_to_group tax_code gross grouped ≡ ok grouped'
    → IsGrouping grouped
    → IsGrouping grouped'
unfolding add_to_group
add_to_group-IsGrouping tax_code gross [] h v = rw (← ok-injective h) ((refl, tt), (tt, tt))
add_to_group-IsGrouping tax_code gross ((j, (c, g)) ∷ grouped) h ((f, filed), (fresh, unique)) =
    elim (Bool-cases (text_eq j tax_code.code)) [
      | inl same ↦ elim (Bool-cases (eqb_ℤ c.rate_bp tax_code.rate_bp)) [
        | inl rate ↦ rw (← ok-injective (rw (same, rate) at h)) ((f, filed), (fresh, unique))
        | inr rate ↦ err-ne-ok (rw (same, rate) at h)
      ]
      | inr other ↦ elim (Result-cases (add_to_group tax_code gross grouped)) [
        | inl (e, failed) ↦ err-ne-ok (rw (other, failed) at h)
        | inr (rest, added) ↦
            let (filed', unique') =
              add_to_group-IsGrouping tax_code gross grouped added (filed, unique) in
            rw (← ok-injective (rw (other, added) at h)) (
              (f, filed'),
              (add_to_group-IsFresh j tax_code gross grouped added other fresh, unique'),
            )
      ]
    ]

pub group_items-IsGrouping :
    (items : List (TaxCode × Money)) (grouped : Grouped) {grouped' : Grouped}
    → group_items items grouped ≡ ok grouped'
    → IsGrouping grouped
    → IsGrouping grouped'
unfolding group_items
group_items-IsGrouping [] grouped h v = rw (← ok-injective h) v
group_items-IsGrouping ((tax_code, gross) ∷ items) grouped h v =
    let (next, added, rest) =
      >>=-eq-ok (add_to_group tax_code gross grouped) (group_items items) h in
    group_items-IsGrouping items next rest (add_to_group-IsGrouping tax_code gross grouped added v)

-- A figure of the code and the gross amount adds up alike over the entries and over their rows.
pub components_of-sum :
    (figure : Text → Money → ℤ) (grouped : Grouped) {rows : List TaxComponent}
    → components_of grouped ≡ ok rows
    → All IsFiled grouped
    → sum_by (λ c. figure c.tax_code (gross_of c)) rows ≡ sum_by (λ e. figure e.0 e.1.1) grouped
unfolding components_of
components_of-sum figure [] h filed = rw (← ok-injective h) refl
components_of-sum figure ((key, (tax_code, gross)) ∷ grouped) h (f, filed) =
    elim (Result-cases (component_for tax_code gross)) [
      | inl (e, failed) ↦ err-ne-ok (rw failed at h)
      | inr (c, made) ↦ elim (Result-cases (components_of grouped)) [
        | inl (e, failed) ↦ err-ne-ok (rw (made, failed) at h)
        | inr (rest, all_made) ↦
            let row = component_for-IsRowOf tax_code gross made in
            rw (← ok-injective (rw (made, all_made) at h)) (
              rw (row.same_code, row.same_gross, f, components_of-sum figure grouped all_made filed)
                refl)
      ]
    ]
