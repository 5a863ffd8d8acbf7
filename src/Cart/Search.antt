-- ===== src/Cart/Search.antt =====
-- The two lists of a basket as a finite map from line numbers to lines, and what the searches of
-- app/domain/cart.py by position do to it.
use pos.Prelude.{
  ℕ, zero, suc, ◌+◌, ◌≤◌, ◌<◌, ◌==◌, ◌≡◌, ◌≢◌, refl, Bool-cases, false, if◌then◌else◌, List, [],
  ◌∷◌, ◌++◌, length, get_elem?, take, drop, Option, none, some, inl, inr, arith, All,
}
use pos.Pricing.{PricedLine}
use pos.Cart.{index_from, put_item}

abbrev pub lookup_line : ℕ → List ℕ → List PricedLine → Option PricedLine
lookup_line n [] lines = none
lookup_line n (m ∷ numbers) [] = none
lookup_line n (m ∷ numbers) (p ∷ lines) = if m == n then some p else lookup_line n numbers lines

-- The numbers rise strictly, from `low` on and below `high`.
abbrev pub Ascends : ℕ → List ℕ → ℕ → Type 0
Ascends low [] high = low ≤ high
Ascends low (n ∷ numbers) high = (low ≤ n) × Ascends (suc n) numbers high

-- The first place of `n` among the numbers.
abbrev pub IsFirst : ℕ → List ℕ → ℕ → Type 0
IsFirst n [] i = ⊥
IsFirst n (m ∷ numbers) zero = m ≡ n
IsFirst n (m ∷ numbers) (suc i) = ((m == n) ≡ false) × IsFirst n numbers i

pub index_from-IsFirst :
    (position n : ℕ) (numbers : List ℕ) {i : ℕ}
    → index_from position n numbers ≡ some i
    → (j : ℕ) × (i ≡ position + j) × IsFirst n numbers j
unfolding index_from
index_from-IsFirst position n [] h = cc
index_from-IsFirst position n (m ∷ numbers) h = elim (Bool-cases (m == n)) [
  | inl e ↦ (0, ground arith, ground arith)
  | inr e ↦
      let (j, same, first) = index_from-IsFirst (position + 1) n numbers (rw e at h) in
      (suc j, omega arith, (e, first))
]

pub index_from-none :
    (position n : ℕ) (numbers : List ℕ) (lines : List PricedLine)
    → index_from position n numbers ≡ none
    → lookup_line n numbers lines ≡ none
unfolding index_from
index_from-none position n [] lines h = refl
index_from-none position n (m ∷ numbers) [] h = refl
index_from-none position n (m ∷ numbers) (p ∷ lines) h = elim (Bool-cases (m == n)) [
  | inl e ↦ ground arith
  | inr e ↦ rw e (index_from-none (position + 1) n numbers lines (rw e at h))
]

pub get_elem?-IsFirst :
    (n i : ℕ) (numbers : List ℕ) (lines : List PricedLine)
    → IsFirst n numbers i
    → length lines ≡ length numbers
    → get_elem? lines i ≡ lookup_line n numbers lines
get_elem?-IsFirst n i [] lines first l = elim first [ ]
get_elem?-IsFirst n i (m ∷ numbers) [] first l = absurd (omega arith)
get_elem?-IsFirst n zero (m ∷ numbers) (p ∷ lines) first l = ground arith
get_elem?-IsFirst n (suc i) (m ∷ numbers) (p ∷ lines) (ne, first) l =
    rw ne (get_elem?-IsFirst n i numbers lines first (omega arith))

pub lookup_line-put_item :
    (n m i : ℕ) (numbers : List ℕ) (lines : List PricedLine) (q : PricedLine)
    → IsFirst n numbers i
    → length lines ≡ length numbers
    → lookup_line m numbers (put_item lines i q)
      ≡ (if n == m then some q else lookup_line m numbers lines)
lookup_line-put_item n m i [] lines q first l = elim first [ ]
lookup_line-put_item n m i (k ∷ numbers) [] q first l = absurd (omega arith)
lookup_line-put_item n m zero (k ∷ numbers) (p ∷ lines) q first l = ground arith
lookup_line-put_item n m (suc i) (k ∷ numbers) (p ∷ lines) q (ne, first) l =
    ground (arith, lookup_line-put_item n m i numbers lines q first)

pub length-put_item :
    (n i : ℕ) (numbers : List ℕ) (lines : List PricedLine) (q : PricedLine)
    → IsFirst n numbers i
    → length lines ≡ length numbers
    → length (put_item lines i q) ≡ length numbers
length-put_item n i [] lines q first l = elim first [ ]
length-put_item n i (k ∷ numbers) [] q first l = absurd (omega arith)
length-put_item n zero (k ∷ numbers) (p ∷ lines) q first l = l
length-put_item n (suc i) (k ∷ numbers) (p ∷ lines) q (ne, first) l =
    omega (arith, length-put_item n i numbers lines q first (omega arith))

pub All-put_item :
    (P : PricedLine → Type 0) (lines : List PricedLine) (i : ℕ) (q : PricedLine)
    → All P lines
    → P q
    → All P (put_item lines i q)
All-put_item P [] zero q ps p = (p, tt)
All-put_item P [] (suc i) q ps p = (p, tt)
All-put_item P (x ∷ lines) zero q ps p = (p, ps.1)
All-put_item P (x ∷ lines) (suc i) q ps p = (ps.0, All-put_item P lines i q ps.1 p)

-- `(*xs[:index], *xs[index + 1:])`
abbrev pub remove_item {ℓ} : {A : Type ℓ} → List A → ℕ → List A
remove_item xs i = take i xs ++ drop (suc i) xs

pub All-remove_item :
    (P : PricedLine → Type 0) (lines : List PricedLine) (i : ℕ)
    → All P lines
    → All P (remove_item lines i)
All-remove_item P [] zero ps = tt
All-remove_item P [] (suc i) ps = tt
All-remove_item P (x ∷ lines) zero ps = ps.1
All-remove_item P (x ∷ lines) (suc i) ps = (ps.0, All-remove_item P lines i ps.1)

pub length-remove_item :
    (n i : ℕ) (numbers : List ℕ) (lines : List PricedLine)
    → IsFirst n numbers i
    → length lines ≡ length numbers
    → length (remove_item lines i) ≡ length (remove_item numbers i)
length-remove_item n i [] lines first l = elim first [ ]
length-remove_item n i (k ∷ numbers) [] first l = absurd (omega arith)
length-remove_item n zero (k ∷ numbers) (p ∷ lines) first l = omega arith
length-remove_item n (suc i) (k ∷ numbers) (p ∷ lines) (ne, first) l =
    omega (arith, length-remove_item n i numbers lines first (omega arith))

pub Ascends-weaken :
    (low low' high : ℕ) (numbers : List ℕ)
    → low ≤ low'
    → Ascends low' numbers high
    → Ascends low numbers high
Ascends-weaken low low' high [] le a = omega arith
Ascends-weaken low low' high (n ∷ numbers) le (a, as') = (omega arith, as')

pub Ascends-remove_item :
    (n i low high : ℕ) (numbers : List ℕ)
    → IsFirst n numbers i
    → Ascends low numbers high
    → Ascends low (remove_item numbers i) high
Ascends-remove_item n i low high [] first a = elim first [ ]
Ascends-remove_item n zero low high (k ∷ numbers) first (a, rest) =
    Ascends-weaken low (suc k) high numbers (omega arith) rest
Ascends-remove_item n (suc i) low high (k ∷ numbers) (ne, first) (a, rest) =
    (a, Ascends-remove_item n i (suc k) high numbers first rest)

pub lookup_line-below :
    (n low high : ℕ) (numbers : List ℕ) (lines : List PricedLine)
    → Ascends low numbers high
    → n < low
    → lookup_line n numbers lines ≡ none
lookup_line-below n low high [] lines a h = refl
lookup_line-below n low high (m ∷ numbers) [] a h = refl
lookup_line-below n low high (m ∷ numbers) (p ∷ lines) (a, rest) h =
    ground (arith, lookup_line-below n (suc m) high numbers lines rest)

pub lookup_line-remove_item :
    (n m i low high : ℕ) (numbers : List ℕ) (lines : List PricedLine)
    → IsFirst n numbers i
    → length lines ≡ length numbers
    → Ascends low numbers high
    → lookup_line m (remove_item numbers i) (remove_item lines i)
      ≡ (if n == m then none else lookup_line m numbers lines)
lookup_line-remove_item n m i low high [] lines first l a = elim first [ ]
lookup_line-remove_item n m i low high (k ∷ numbers) [] first l a = absurd (omega arith)
lookup_line-remove_item n m zero low high (k ∷ numbers) (p ∷ lines) first l (a, rest) =
    ground (arith, lookup_line-below m (suc k) high numbers lines rest)
lookup_line-remove_item n m (suc i) low high (k ∷ numbers) (p ∷ lines) (ne, first) l (a, rest) =
    ground (arith, lookup_line-remove_item n m i (suc k) high numbers lines first)

pub Ascends-append :
    (low high : ℕ) (numbers : List ℕ)
    → Ascends low numbers high
    → Ascends low (numbers ++ high ∷ []) (suc high)
Ascends-append low high [] a = omega arith
Ascends-append low high (n ∷ numbers) (a, rest) = (a, Ascends-append (suc n) high numbers rest)

Ascends-le : (low high : ℕ) (numbers : List ℕ) → Ascends low numbers high → low ≤ high
Ascends-le low high [] a = a
Ascends-le low high (n ∷ numbers) (a, rest) = omega (arith, Ascends-le (suc n) high numbers rest)

pub lookup_line-append :
    (m low high : ℕ) (numbers : List ℕ) (lines : List PricedLine) (q : PricedLine)
    → length lines ≡ length numbers
    → Ascends low numbers high
    → lookup_line m (numbers ++ high ∷ []) (lines ++ q ∷ [])
      ≡ (if high == m then some q else lookup_line m numbers lines)
lookup_line-append m low high [] [] q l a = refl
lookup_line-append m low high [] (p ∷ lines) q l a = absurd (omega arith)
lookup_line-append m low high (k ∷ numbers) [] q l a = absurd (omega arith)
lookup_line-append m low high (k ∷ numbers) (p ∷ lines) q l (a, rest) =
    ground (
      arith,
      lookup_line-append m (suc k) high numbers lines q,
      Ascends-le (suc k) high numbers rest,
    )

pub lookup_line-IsFirst :
    (n i : ℕ) (numbers : List ℕ) (lines : List PricedLine)
    → IsFirst n numbers i
    → length lines ≡ length numbers
    → lookup_line n numbers lines ≢ none
lookup_line-IsFirst n i [] lines first l = elim first [ ]
lookup_line-IsFirst n i (m ∷ numbers) [] first l = absurd (omega arith)
lookup_line-IsFirst n zero (m ∷ numbers) (p ∷ lines) first l = ground arith
lookup_line-IsFirst n (suc i) (m ∷ numbers) (p ∷ lines) (ne, first) l =
    rw ne (lookup_line-IsFirst n i numbers lines first (omega arith))
