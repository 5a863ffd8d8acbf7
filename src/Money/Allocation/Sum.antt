-- ===== src/Money/Allocation/Sum.antt =====
-- `allocate` loses and invents nothing.
use pos.Prelude.{
  ℕ, zero, suc, ◌+◌, ◌-◌, ◌%◌, ◌<◌, ◌≡◌, refl, ℤ, nonneg, negsuc, ◌+ℤ◌, ◌-ℤ◌, magnitude, leb_ℤ,
  sum_ℤ, if◌then◌else◌, List, [], ◌∷◌, length, replicate, All, get_elem?, some, sort_by,
  length-sort_by, All-sort_by, ok, arith, int_laws, +ℤ-zero, lt→leb_false, length-replicate, le→leb,
  Option-cases, inl, inr, length-replicate,
}
use native.Mathlib.Nat.{zero-add}
use pos.Money.{Money, zero_money}
use pos.Money.Allocation.{shares_of, cut_harder, add_at, hand_out, distribute, allocate}

-- `step` added up `k` times.
abbrev times : ℕ → ℤ → ℤ
times zero step = nonneg 0
times (suc k) step = step +ℤ times k step

times-magnitude :
    (l : ℤ) → times (magnitude l) (if leb_ℤ (nonneg 0) l then nonneg 1 else negsuc 0) ≡ l
times-magnitude (nonneg n) = rw (le→leb 0 (n + 0) (omega arith)) (up n)
  where
    up : (n : ℕ) → times n (nonneg 1) ≡ nonneg n
    up zero = refl
    up (suc n) = rw (up n) (omega int_laws)
times-magnitude (negsuc n) = rw (lt→leb_false (0 + suc n) 0 (omega arith)) (down n)
  where
    down : (n : ℕ) → times (suc n) (negsuc 0) ≡ negsuc n
    down zero = omega int_laws
    down (suc n) = rw (down n) (omega int_laws)

abbrev IsIndexBelow : ℕ → ℤ × ℕ → Type 0
IsIndexBelow n entry = entry.1 < n

pub length-add_at : (i : ℕ) (step : ℤ) (xs : List Money) → length (add_at i step xs) ≡ length xs
length-add_at i step [] = refl
length-add_at zero step (x ∷ xs) = refl
length-add_at (suc i) step (x ∷ xs) = omega (arith, length-add_at i step xs)

sum_ℤ-add_at :
    (i : ℕ) (step : ℤ) (xs : List Money)
    → i < length xs
    → sum_ℤ (add_at i step xs) ≡ sum_ℤ xs +ℤ step
sum_ℤ-add_at i step [] h = elim h [ ]
sum_ℤ-add_at zero step (x ∷ xs) h = omega int_laws
sum_ℤ-add_at (suc i) step (x ∷ xs) h = rw (sum_ℤ-add_at i step xs (omega arith)) (omega int_laws)

get_elem?-some :
    (n : ℕ) (rs : List (ℤ × ℕ)) (i : ℕ)
    → All (IsIndexBelow n) rs
    → i < length rs
    → (e : ℤ × ℕ) × (get_elem? rs i ≡ some e) × (e.1 < n)
get_elem?-some n [] i a h = elim h [ ]
get_elem?-some n (r ∷ rs) zero a h = (r, refl, a.0)
get_elem?-some n (r ∷ rs) (suc i) a h = get_elem?-some n rs i a.1 (omega arith)

sum_ℤ-hand_out :
    (left offset : ℕ) (step : ℤ) (rs : List (ℤ × ℕ)) (shares : List Money)
    → 0 < length rs
    → All (IsIndexBelow (length shares)) rs
    → sum_ℤ (hand_out left offset step rs shares) ≡ sum_ℤ shares +ℤ times left step
unfolding hand_out
sum_ℤ-hand_out zero offset step rs shares p a = omega int_laws
sum_ℤ-hand_out (suc left) offset step rs shares p a =
    let ((r, i), e, lt) = get_elem?-some (length shares) rs (offset % length rs) a (grind arith) in
    let shares' = add_at i step shares in
    let a' : All (IsIndexBelow (length shares')) rs = rw (length-add_at i step shares) a in
    rw e (
      rw (sum_ℤ-hand_out left (offset + 1) step rs shares' p a')
        (rw (sum_ℤ-add_at i step shares lt) (omega int_laws)))

pub length-hand_out :
    (left offset : ℕ) (step : ℤ) (rs : List (ℤ × ℕ)) (shares : List Money)
    → length (hand_out left offset step rs shares) ≡ length shares
unfolding hand_out
length-hand_out zero offset step rs shares = refl
length-hand_out (suc left) offset step rs shares =
    elim (Option-cases (get_elem? rs (offset % length rs))) [
      | inl e ↦ rw e (length-hand_out left (offset + 1) step rs shares)
      | inr ((r, i), e) ↦ rw e (
          rw (length-hand_out left (offset + 1) step rs (add_at i step shares))
            (length-add_at i step shares))
    ]

length-shares_of :
    (amount : Money) (total_weight index : ℕ) (weights : List ℤ)
    → length (shares_of amount total_weight index weights).0 ≡ length weights
unfolding shares_of
length-shares_of amount total_weight index [] = refl
length-shares_of amount total_weight index (w ∷ ws) =
    omega (arith, length-shares_of amount total_weight (index + 1) ws)

length-remainders :
    (amount : Money) (total_weight index : ℕ) (weights : List ℤ)
    → length (shares_of amount total_weight index weights).1 ≡ length weights
unfolding shares_of
length-remainders amount total_weight index [] = refl
length-remainders amount total_weight index (w ∷ ws) =
    omega (arith, length-remainders amount total_weight (index + 1) ws)

remainders-IsIndexBelow :
    (amount : Money) (total_weight index : ℕ) (weights : List ℤ)
    → All (IsIndexBelow (index + length weights)) (shares_of amount total_weight index weights).1
unfolding shares_of
remainders-IsIndexBelow amount total_weight index [] = tt
remainders-IsIndexBelow amount total_weight index (w ∷ ws) =
    let rest = remainders-IsIndexBelow amount total_weight (index + 1) ws in
    let e : index + 1 + length ws ≡ index + suc (length ws) = omega arith in
    (omega arith, rw e at rest)

sum_ℤ-distribute :
    (amount : Money) (total_weight : ℕ) (weights : List ℤ)
    → 0 < length weights
    → sum_ℤ (distribute amount total_weight weights) ≡ amount
unfolding distribute
sum_ℤ-distribute amount total_weight weights p =
    let pair = shares_of amount total_weight 0 weights in
    let leftover = amount -ℤ sum_ℤ pair.0 in
    let step = if leb_ℤ (nonneg 0) leftover then nonneg 1 else negsuc 0 in
    let rs = sort_by cut_harder pair.1 in
    let count = length-sort_by cut_harder pair.1 in
    let below : All (IsIndexBelow (length pair.0)) pair.1 =
      rw (length-shares_of amount total_weight 0 weights) (
        rw (zero-add (length weights)) at
          (remainders-IsIndexBelow amount total_weight 0 weights)) in
    rw
      (sum_ℤ-hand_out (magnitude leftover) 0 step rs pair.0
        (omega (arith, count, length-remainders amount total_weight 0 weights))
        (All-sort_by cut_harder (IsIndexBelow (length pair.0)) pair.1 below))
      (rw (times-magnitude leftover) (omega int_laws))

length-distribute :
    (amount : Money) (total_weight : ℕ) (weights : List ℤ)
    → length (distribute amount total_weight weights) ≡ length weights
unfolding distribute
length-distribute amount total_weight weights =
    let pair = shares_of amount total_weight 0 weights in
    let leftover = amount -ℤ sum_ℤ pair.0 in
    let step = if leb_ℤ (nonneg 0) leftover then nonneg 1 else negsuc 0 in
    rw (length-hand_out (magnitude leftover) 0 step (sort_by cut_harder pair.1) pair.0)
      (length-shares_of amount total_weight 0 weights)

sum_ℤ-replicate_zero : (n : ℕ) → sum_ℤ (replicate n zero_money) ≡ nonneg 0
sum_ℤ-replicate_zero zero = refl
sum_ℤ-replicate_zero (suc n) = rw (sum_ℤ-replicate_zero n) (omega int_laws)

-- The parts of a split add up to the amount, one for each weight, for any weights and any sign.
pub sum_ℤ-allocate :
    (amount : Money) (weights : List ℤ) {shares : List Money}
    → allocate amount weights ≡ ok shares
    → (sum_ℤ shares ≡ amount) × (length shares ≡ length weights)
unfolding allocate
sum_ℤ-allocate amount [] h = cc
sum_ℤ-allocate amount (w ∷ ws) h =
    let total_weight = magnitude (sum_ℤ (w ∷ ws)) in
    let rest = suc (length ws) - 1 in
    ground (
      arith,
      sum_ℤ-distribute amount total_weight (w ∷ ws) (omega arith),
      length-distribute amount total_weight (w ∷ ws),
      sum_ℤ-replicate_zero rest,
      length-replicate rest zero_money,
      +ℤ-zero amount,
    )
