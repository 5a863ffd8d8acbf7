-- ===== src/Tax/Halves.antt =====
-- The central and the state half of a tax amount.
use pos.Prelude.{
  ℕ, ◌-◌, ◌*◌, ◌/◌, ◌%◌, ◌≡◌, refl, ℤ, nonneg, neg, ◌+ℤ◌, ◌-ℤ◌, ◌*ℤ◌, ok, arith, int_laws, ◌⊎◌, inl,
  inr, Result-cases, ◌∙◌, sort_by, List, [], ◌∷◌, sum_ℤ, *ℤ_nonneg, +ℤ_nonneg, sum_ℤ,
}
use pos.Money.{Money}
use pos.Money.Allocation.{allocate, distribute, shares_of, trunc_div, cut_harder, hand_out}
use pos.Money.Allocation.Sum.{sum_ℤ-allocate}
use pos.Tax.{unpack_two, split_cgst_sgst}

split_odd : split_cgst_sgst (nonneg 5) ≡ ok (nonneg 3, nonneg 2)
unfolding split_cgst_sgst allocate distribute shares_of trunc_div cut_harder hand_out sort_by ◌+ℤ◌
    ◌-ℤ◌ ◌*ℤ◌ neg
split_odd = refl

sort-equal_cuts : (r : ℤ) → sort_by cut_harder ((r, 0) ∷ (r, 1) ∷ []) ≡ (r, 0) ∷ (r, 1) ∷ []
unfolding sort_by cut_harder
sort-equal_cuts r = ground arith

leftover-halves :
    (n : ℕ) → nonneg n -ℤ (nonneg (n * 1 / 2) +ℤ (nonneg (n * 1 / 2) +ℤ nonneg 0)) ≡ nonneg (n % 2)
leftover-halves n = omega int_laws

mod_two : (n : ℕ) → (n % 2 ≡ 0) ⊎ (n % 2 ≡ 1)
mod_two n = omega arith

distribute-halves :
    (n : ℕ)
    → distribute (nonneg n) 2 (nonneg 1 ∷ nonneg 1 ∷ []) ≡ nonneg (n - n / 2) ∷ nonneg (n / 2) ∷ []
unfolding distribute shares_of trunc_div hand_out
distribute-halves n = rw (*ℤ_nonneg n 1) (
    rw (leftover-halves n) (
      rw (sort-equal_cuts (nonneg (n * 1) -ℤ nonneg (n * 1 / 2) *ℤ nonneg 2)) (elim (mod_two n) [
        | inl e ↦ rw e (ground arith)
        | inr e ↦ rw (e, +ℤ_nonneg (n * 1 / 2) 1) (ground arith)
      ])))

-- A tax that is not negative is halved exactly: the central half takes the odd paisa.
pub split_cgst_sgst_lem :
    (n : ℕ) → split_cgst_sgst (nonneg n) ≡ ok (nonneg (n - n / 2), nonneg (n / 2))
unfolding split_cgst_sgst allocate ◌+ℤ◌
split_cgst_sgst_lem n = rw (distribute-halves n)

unpack_two-sum :
    (shares : List Money) {halves : Money × Money}
    → unpack_two shares ≡ ok halves
    → halves.0 +ℤ halves.1 ≡ sum_ℤ shares
unfolding unpack_two
unpack_two-sum [] h = cc
unpack_two-sum (a ∷ []) h = cc
unpack_two-sum (a ∷ b ∷ []) {halves} h = let e : halves ≡ (a, b) = cc in rw e (omega int_laws)
unpack_two-sum (a ∷ b ∷ c ∷ shares) h = cc

-- Whatever the sign, the halves add up to the tax.
pub split_cgst_sgst-sum :
    (tax : Money) {halves : Money × Money}
    → split_cgst_sgst tax ≡ ok halves
    → halves.0 +ℤ halves.1 ≡ tax
unfolding split_cgst_sgst
split_cgst_sgst-sum tax h =
    let ones : List ℤ = nonneg 1 ∷ nonneg 1 ∷ [] in
    elim (Result-cases (allocate tax ones)) [
      | inl (e, failed) ↦ ground arith
      | inr (shares, split) ↦
          unpack_two-sum shares (rw split at h) ∙ (sum_ℤ-allocate tax ones split).0
    ]
