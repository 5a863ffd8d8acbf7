-- ===== src/Tax/Breakdown.antt =====
-- The summary block of a receipt accounts for every item: `breakdown` of app/domain/tax.py.
use pos.Prelude.{
  ◌≡◌, refl, ◌∙◌, ℤ, nonneg, ◌≤ℤ◌, Bool, true, if◌then◌else◌, List, [], ◌∷◌, ok, Text, text_eq,
  text_eq→eq, inl, inr, arith, int_laws, sum_by, sum_by-sort_by, sort_by, sort_by-IsSorted,
  IsSorted, Bool-cases, ◌⊎◌, text_leb_total, >>=-eq-ok, ok-injective, +ℤ-zero,
}
use pos.Money.{Money}
use pos.Tax.{TaxCode, TaxComponent, Grouped, group_items, components_of, row_before, breakdown}
use pos.Tax.Groups.{
  row_gross, item_gross, group_items-sum, IsFresh, HasUniqueKeys, group_items-IsGrouping,
  components_of-sum,
}

-- 1 for a row of the code, 0 for any other.
abbrev pub row_count : Text → TaxComponent → ℤ
row_count code c = if text_eq code c.tax_code then nonneg 1 else nonneg 0

abbrev entry_count : Text → Text × (TaxCode × Money) → ℤ
entry_count code entry = if text_eq code entry.0 then nonneg 1 else nonneg 0

row_before_total : (c d : TaxComponent) → (row_before c d ≡ true) ⊎ (row_before d c ≡ true)
unfolding row_before
row_before_total c d = ground (arith, text_leb_total c.tax_code d.tax_code)

fresh_count :
    (code : Text) (grouped : Grouped)
    → IsFresh code grouped
    → sum_by (entry_count code) grouped ≡ nonneg 0
fresh_count code [] fresh = refl
fresh_count code (entry ∷ grouped) (f, fresh) =
    rw (f, fresh_count code grouped fresh) (omega int_laws)

unique_count :
    (code : Text) (grouped : Grouped)
    → HasUniqueKeys grouped
    → sum_by (entry_count code) grouped ≤ℤ nonneg 1
unique_count code [] unique = omega arith
unique_count code ((key, v) ∷ grouped) (fresh, unique) = elim (Bool-cases (text_eq code key)) [
  | inl e ↦
      rw (e, fresh_count code grouped (rw (← text_eq→eq code key e) at fresh)) (omega int_laws)
  | inr e ↦ rw e (omega (int_laws, unique_count code grouped unique))
]

-- What the block says of the items, for every choice of codes and every single code.
pub record Accounts (items : List (TaxCode × Money)) (rows : List TaxComponent) : Type 0 where
  pub same_gross :
      (picks : Text → Bool) → sum_by (row_gross picks) rows ≡ sum_by (item_gross picks) items
  pub one_row : (code : Text) → sum_by (row_count code) rows ≤ℤ nonneg 1
  pub sorted : IsSorted row_before rows

sort_by-Accounts :
    (items : List (TaxCode × Money)) (grouped : Grouped) (components : List TaxComponent)
    → group_items items [] ≡ ok grouped
    → components_of grouped ≡ ok components
    → Accounts items (sort_by row_before components)
sort_by-Accounts items grouped components gathered made =
    let (filed, unique) = group_items-IsGrouping items [] gathered (tt, tt) in
    record {
      same_gross = λ picks.
          sum_by-sort_by row_before (row_gross picks) components
          ∙ components_of-sum (λ code gross. if picks code then gross else nonneg 0) grouped made
              filed
          ∙ group_items-sum picks items [] gathered
          ∙ +ℤ-zero (sum_by (item_gross picks) items);
      one_row = λ code.
          rw
            (
              sum_by-sort_by row_before (row_count code) components,
              components_of-sum (λ key _. if text_eq code key then nonneg 1 else nonneg 0) grouped
                  made filed,
            )
            (unique_count code grouped unique);
      sorted = sort_by-IsSorted row_before row_before_total components;
    }

-- Whenever `breakdown` returns, the base and tax of the rows whose code is picked add up to the
-- amounts of the items whose code is picked, for every choice of codes; no code has two rows; and
-- the rows ascend by rate, and by code among equal rates.
pub breakdown-Accounts :
    (items : List (TaxCode × Money)) {rows : List TaxComponent}
    → breakdown items ≡ ok rows
    → Accounts items rows
unfolding breakdown
breakdown-Accounts items h =
    let (grouped, gathered, h') = >>=-eq-ok (group_items items []) _ h in
    let (components, made, last) = >>=-eq-ok (components_of grouped) _ h' in
    rw (← ok-injective last) (sort_by-Accounts items grouped components gathered made)
