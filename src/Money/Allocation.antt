-- ===== src/Money/Allocation.antt =====
-- `allocate` of app/domain/money.py: an amount split across weights by largest remainders.
pub mod Sum
use pos.Prelude.{
  ℕ, zero, suc, ◌+◌, ◌-◌, ◌/◌, ◌%◌, ◌==◌, ℤ, nonneg, negsuc, ◌+ℤ◌, ◌-ℤ◌, ◌*ℤ◌, neg, magnitude,
  pos_part, neg_part, ltb_ℤ, leb_ℤ, eqb_ℤ, sum_ℤ, Bool, true, false, ◌||◌, ◌&&◌, leb, if◌then◌else◌,
  List, [], ◌∷◌, length, replicate, any, get_elem?, none, some, sort_by, Result, ok, err, ◌>>=◌,
  ◌>>◌, raise_if,
}
use pos.Money.{Money, zero_money}

pub data AllocationError : Type 0 where
  no_weights negative_weight : AllocationError

-- `//` of two decimals, which cuts off the fraction; the divisor is a positive number.
unfoldable pub trunc_div : ℤ → ℕ → ℤ
trunc_div (nonneg n) d = nonneg (n / d)
trunc_div (negsuc n) d = neg (nonneg (suc n / d))

-- The two lists that the first loop builds, `index` being the position of the first weight.
unfoldable pub shares_of : Money → ℕ → ℕ → List ℤ → List Money × List (ℤ × ℕ)
shares_of amount total_weight index [] = ([], [])
shares_of amount total_weight index (weight ∷ weights) =
    let exact = amount *ℤ weight in
    let floor_share = trunc_div exact total_weight in
    let (shares, remainders) = shares_of amount total_weight (index + 1) weights in
    (floor_share ∷ shares, (exact -ℤ floor_share *ℤ nonneg total_weight, index) ∷ remainders)

-- The order of `key=lambda pair: (-pair[0], pair[1])`.
unfoldable pub cut_harder : ℤ × ℕ → ℤ × ℕ → Bool
cut_harder (r, i) (s, j) = ltb_ℤ (neg r) (neg s) || eqb_ℤ (neg r) (neg s) && leb i j

-- `shares[index] += step`
abbrev pub add_at : ℕ → ℤ → List Money → List Money
add_at i step [] = []
add_at zero step (x ∷ xs) = (x +ℤ step) ∷ xs
add_at (suc i) step (x ∷ xs) = x ∷ add_at i step xs

-- The second loop, with `left` rounds to go.
unfoldable pub hand_out : ℕ → ℕ → ℤ → List (ℤ × ℕ) → List Money → List Money
hand_out zero offset step remainders shares = shares
hand_out (suc left) offset step remainders shares =
    hand_out left (offset + 1) step remainders
      (elim (get_elem? remainders (offset % length remainders)) [
        | none ↦ shares
        | some (_, index) ↦ add_at index step shares
      ])

unfoldable pub distribute : Money → ℕ → List ℤ → List Money
distribute amount total_weight weights =
    let (shares, remainders) = shares_of amount total_weight 0 weights in
    let leftover = amount -ℤ sum_ℤ shares in
    let step = if leb_ℤ (nonneg 0) leftover then nonneg 1 else negsuc 0 in
    hand_out (magnitude leftover) 0 step (sort_by cut_harder remainders) shares

unfoldable pub allocate : Money → List ℤ → Result AllocationError (List Money)
allocate amount weights = do
  raise_if (length weights == 0) no_weights
  raise_if (any (λ weight. ltb_ℤ weight (nonneg 0)) weights) negative_weight
  let total_weight = magnitude (sum_ℤ weights)
  ok (
      if total_weight == 0
      then amount ∷ replicate (length weights - 1) zero_money
      else distribute amount total_weight weights)
