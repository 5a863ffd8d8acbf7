-- ===== src/Prelude/Sorting.antt =====
-- Python's `sorted` with a key, as a stable insertion sort by a test `before` on two elements.
use Prim.Native.Nat.{suc}
use mathlib.Core.Path.{◌≡◌, refl, ap, ◌∙◌}
use mathlib.Core.Bool.{Bool, true}
use mathlib.Core.List.{List, [], ◌∷◌}
use native.Mathlib.Omega.{arith}
use pos.Prelude.Tests.{if◌then◌else◌, Bool-cases}
use mathlib.Core.Logic.{◌⊎◌, inl, inr}
use pos.Prelude.Int.{ℤ, nonneg, ◌+ℤ◌, int_laws}
use pos.Prelude.Lists.{length, All}

module _ {ℓ} {A : Type ℓ} (before : A → A → Bool) where
  unfoldable pub insert_by : A → List A → List A
  insert_by x [] = x ∷ []
  insert_by x (y ∷ ys) = if before x y then x ∷ y ∷ ys else y ∷ insert_by x ys

  unfoldable pub sort_by : List A → List A
  unfolding insert_by
  sort_by [] = []
  sort_by (x ∷ xs) = insert_by x (sort_by xs)

  pub length-insert_by : (x : A) (ys : List A) → length (insert_by x ys) ≡ suc (length ys)
  unfolding insert_by
  length-insert_by x [] = refl
  length-insert_by x (y ∷ ys) = ground (arith, length-insert_by x ys)

  pub length-sort_by : (xs : List A) → length (sort_by xs) ≡ length xs
  unfolding sort_by
  length-sort_by [] = refl
  length-sort_by (x ∷ xs) = length-insert_by x (sort_by xs) ∙ ap suc (length-sort_by xs)

  pub All-insert_by {κ} :
      (P : A → Type κ) (x : A) (ys : List A) → P x → All P ys → All P (insert_by x ys)
  unfolding insert_by
  All-insert_by P x [] p ps = (p, tt)
  All-insert_by P x (y ∷ ys) p (q, ps) = elim (Bool-cases (before x y)) [
    | inl e ↦ rw e (p, (q, ps))
    | inr e ↦ rw e (q, All-insert_by P x ys p ps)
  ]

  pub All-sort_by {κ} : (P : A → Type κ) (xs : List A) → All P xs → All P (sort_by xs)
  unfolding sort_by
  All-sort_by P [] ps = tt
  All-sort_by P (x ∷ xs) (p, ps) = All-insert_by P x (sort_by xs) p (All-sort_by P xs ps)

-- Each element stands before the next one.
abbrev pub IsChain {ℓ} : {A : Type ℓ} → (A → A → Bool) → A → List A → Type 0
IsChain before x [] = Unit
IsChain before x (y ∷ ys) = (before x y ≡ true) × IsChain before y ys

abbrev pub IsSorted {ℓ} : {A : Type ℓ} → (A → A → Bool) → List A → Type 0
IsSorted before [] = Unit
IsSorted before (x ∷ xs) = IsChain before x xs

-- The sum of a figure of each element.
abbrev pub sum_by {ℓ} : {A : Type ℓ} → (A → ℤ) → List A → ℤ
sum_by f [] = nonneg 0
sum_by f (x ∷ xs) = f x +ℤ sum_by f xs

module _ {ℓ} {A : Type ℓ} (before : A → A → Bool) where
  sum_by-insert_by :
      (f : A → ℤ) (x : A) (ys : List A) → sum_by f (insert_by before x ys) ≡ f x +ℤ sum_by f ys
  unfolding insert_by
  sum_by-insert_by f x [] = refl
  sum_by-insert_by f x (y ∷ ys) = elim (Bool-cases (before x y)) [
    | inl e ↦ rw e refl
    | inr e ↦ rw (e, sum_by-insert_by f x ys) (omega int_laws)
  ]

  -- Sorting changes no such sum.
  pub sum_by-sort_by : (f : A → ℤ) (xs : List A) → sum_by f (sort_by before xs) ≡ sum_by f xs
  unfolding sort_by
  sum_by-sort_by f [] = refl
  sum_by-sort_by f (x ∷ xs) =
      rw (sum_by-insert_by f x (sort_by before xs), sum_by-sort_by f xs) refl

  module _ (total_order : (x y : A) → (before x y ≡ true) ⊎ (before y x ≡ true)) where
    IsChain-insert_by :
        (z x : A) (ys : List A)
        → before z x ≡ true
        → IsChain before z ys
        → IsChain before z (insert_by before x ys)
    unfolding insert_by
    IsChain-insert_by z x [] zx c = (zx, tt)
    IsChain-insert_by z x (y ∷ ys) zx (zy, c) = elim (Bool-cases (before x y)) [
      | inl e ↦ rw e (zx, (e, c))
      | inr e ↦ rw e (zy, IsChain-insert_by y x ys (ground (arith, total_order x y)) c)
    ]

    insert_by-IsSorted :
        (x : A) (ys : List A) → IsSorted before ys → IsSorted before (insert_by before x ys)
    unfolding insert_by
    insert_by-IsSorted x [] c = tt
    insert_by-IsSorted x (y ∷ ys) c = elim (Bool-cases (before x y)) [
      | inl e ↦ rw e (e, c)
      | inr e ↦ rw e (IsChain-insert_by y x ys (ground (arith, total_order x y)) c)
    ]

    pub sort_by-IsSorted : (xs : List A) → IsSorted before (sort_by before xs)
    unfolding sort_by
    sort_by-IsSorted [] = tt
    sort_by-IsSorted (x ∷ xs) = insert_by-IsSorted x (sort_by before xs) (sort_by-IsSorted xs)
