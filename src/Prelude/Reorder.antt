-- ===== src/Prelude/Reorder.antt =====
-- A list in another order, and sorting, which forgets that order when no two elements tie.
use mathlib.Core.Path.{◌≡◌, refl, ap, ◌∙◌, sym}
use mathlib.Core.Logic.{◌⊎◌, inl, inr}
use mathlib.Core.Bool.{Bool, true, false}
use mathlib.Core.List.{List, [], ◌∷◌}
use pos.Prelude.Tests.{Bool-cases}
use pos.Prelude.Lists.{All, keep}
use pos.Prelude.Sorting.{insert_by, sort_by}

pub data Shuffle {ℓ} {A : Type ℓ} : List A → List A → Type ℓ where
  same : (xs : List A) → Shuffle xs xs
  under : (x : A) {xs ys : List A} → Shuffle xs ys → Shuffle (x ∷ xs) (x ∷ ys)
  swap : (x y : A) (xs : List A) → Shuffle (x ∷ y ∷ xs) (y ∷ x ∷ xs)
  chain : {xs ys zs : List A} → Shuffle xs ys → Shuffle ys zs → Shuffle xs zs

-- Any two elements at different places are related.
abbrev pub Apart {ℓ κ} : {A : Type ℓ} → (A → A → Type κ) → List A → Type κ
Apart R [] = Unit
Apart R (x ∷ xs) = All (R x) xs × Apart R xs

module _ {ℓ κ} {A : Type ℓ} where
  All-Shuffle : (P : A → Type κ) {xs ys : List A} → Shuffle xs ys → All P xs → All P ys
  All-Shuffle P (same xs) h = h
  All-Shuffle P (under x s) (p, ps) = (p, All-Shuffle P s ps)
  All-Shuffle P (swap x y xs) (p, (q, ps)) = (q, (p, ps))
  All-Shuffle P (chain s t) h = All-Shuffle P t (All-Shuffle P s h)

  pub All-keep_of : (P : A → Type κ) (p : A → Bool) (xs : List A) → All P xs → All P (keep p xs)
  All-keep_of P p [] h = tt
  All-keep_of P p (x ∷ xs) (h, hs) = elim (Bool-cases (p x)) [
    | inl e ↦ rw e (h, All-keep_of P p xs hs)
    | inr e ↦ rw e (All-keep_of P p xs hs)
  ]

  pub Apart-keep :
      (R : A → A → Type κ) (p : A → Bool) (xs : List A) → Apart R xs → Apart R (keep p xs)
  Apart-keep R p [] h = tt
  Apart-keep R p (x ∷ xs) (h, hs) = elim (Bool-cases (p x)) [
    | inl e ↦ rw e (All-keep_of (R x) p xs h, Apart-keep R p xs hs)
    | inr e ↦ rw e (Apart-keep R p xs hs)
  ]

  module _ (R : A → A → Type κ) (symmetric : (x y : A) → R x y → R y x) where
    pub Apart-Shuffle : {xs ys : List A} → Shuffle xs ys → Apart R xs → Apart R ys
    Apart-Shuffle (same xs) h = h
    Apart-Shuffle (under x s) (h, hs) = (All-Shuffle (R x) s h, Apart-Shuffle s hs)
    Apart-Shuffle (swap x y xs) ((xy, hx), (hy, hs)) = ((symmetric x y xy, hy), (hx, hs))
    Apart-Shuffle (chain s t) h = Apart-Shuffle t (Apart-Shuffle s h)

module _ {ℓ κ} {A : Type ℓ} (R S : A → A → Type κ) (weaker : (x y : A) → R x y → S x y) where
  All-weaken : (x : A) (xs : List A) → All (R x) xs → All (S x) xs
  All-weaken x [] h = tt
  All-weaken x (y ∷ xs) (h, hs) = (weaker x y h, All-weaken x xs hs)

  pub Apart-weaken : (xs : List A) → Apart R xs → Apart S xs
  Apart-weaken [] h = tt
  Apart-weaken (x ∷ xs) (h, hs) = (All-weaken x xs h, Apart-weaken xs hs)

module _ {ℓ} {A : Type ℓ} where
  pub keep-Shuffle :
      (p : A → Bool) {xs ys : List A} → Shuffle xs ys → Shuffle (keep p xs) (keep p ys)
  keep-Shuffle p (same xs) = same (keep p xs)
  keep-Shuffle p (under x s) = elim (Bool-cases (p x)) [
    | inl e ↦ rw e (under x (keep-Shuffle p s))
    | inr e ↦ rw e (keep-Shuffle p s)
  ]
  keep-Shuffle p (swap x y xs) = elim (Bool-cases (p x)) [
    | inl e ↦ elim (Bool-cases (p y)) [
      | inl f ↦ rw (e, f) (swap x y (keep p xs))
      | inr f ↦ rw (e, f) (same (x ∷ keep p xs))
    ]
    | inr e ↦ rw e (same _)
  ]
  keep-Shuffle p (chain s t) = chain (keep-Shuffle p s) (keep-Shuffle p t)

module _ {ℓ} {A : Type ℓ} (before : A → A → Bool)
    (total_order : (x y : A) → (before x y ≡ true) ⊎ (before y x ≡ true))
    (transitive : (x y z : A) → before x y ≡ true → before y z ≡ true → before x z ≡ true) where
  -- The two do not tie.
  abbrev pub Differ : A → A → Type 0
  Differ x y = before x y ≡ true → before y x ≡ false

  Differ-sym : (x y : A) → Differ x y → Differ y x
  Differ-sym x y d h = elim (Bool-cases (before x y)) [ inl e ↦ cc (h, d e) | inr e ↦ e ]

  insert_by_ordered :
      (x y : A) (xs : List A)
      → before x y ≡ true
      → before y x ≡ false
      → insert_by before x (insert_by before y xs) ≡ insert_by before y (insert_by before x xs)
  unfolding insert_by
  insert_by_ordered x y [] xy yx = rw (xy, yx) refl
  insert_by_ordered x y (z ∷ xs) xy yx = elim (Bool-cases (before y z)) [
    | inl yz ↦ rw (yz, transitive x y z xy yz, xy, yx, yz) refl
    | inr yz ↦ elim (Bool-cases (before x z)) [
      | inl xz ↦ rw (yz, xz, yx, yz) refl
      | inr xz ↦ rw (yz, xz, yz) (ap (z ∷◌) (insert_by_ordered x y xs xy yx))
    ]
  ]

  insert_by_comm :
      (x y : A) (xs : List A)
      → Differ x y
      → insert_by before x (insert_by before y xs) ≡ insert_by before y (insert_by before x xs)
  insert_by_comm x y xs d = elim (total_order x y) [
    | inl xy ↦ insert_by_ordered x y xs xy (d xy)
    | inr yx ↦ sym (insert_by_ordered y x xs yx (Differ-sym x y d yx))
  ]

  -- Without ties, lists in another order are sorted to the same list.
  pub sort_by-Shuffle :
      {xs ys : List A} → Shuffle xs ys → Apart Differ xs → sort_by before xs ≡ sort_by before ys
  unfolding sort_by
  sort_by-Shuffle (same xs) h = refl
  sort_by-Shuffle (under x s) (h, hs) = ap (insert_by before x) (sort_by-Shuffle s hs)
  sort_by-Shuffle (swap x y xs) ((xy, hx), hs) = insert_by_comm x y (sort_by before xs) xy
  sort_by-Shuffle (chain s t) h =
      sort_by-Shuffle s h ∙ sort_by-Shuffle t (Apart-Shuffle Differ Differ-sym s h)
