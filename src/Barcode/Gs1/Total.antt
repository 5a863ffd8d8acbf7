-- ===== src/Barcode/Gs1/Total.antt =====
-- The GS1-128 loop of app/domain/barcode.py ends: every round shortens what is left to read.
use pos.Prelude.{
  ℕ, zero, suc, ◌≤◌, ◌<◌, ◌≡◌, ◌≢◌, ◌⊎◌, refl, Bool-cases, [], ◌∷◌, length, take, drop,
  Option-cases, inl, inr, Result, Result-cases, ok, err, arith, Text, text_eq, ◌==◌, get_elem?,
}
use pos.Barcode.{
  BarcodeError, out_of_fuel, index_error, value_error, is_digit, digit_value, isdigit,
}
use pos.Barcode.Gs1.{
  Fields, Round, go_on, stop, Ending, group_separator, net_weight_ai, decimals_at, weight_to_milli,
  read_weight, read_field, fixed_length, is_variable, field_length, round, after_round, gs1_loop,
  parse_gs1_128, no_fields,
}

length-drop-le : (n : ℕ) (s : Text) → length (drop n s) ≤ length s
length-drop-le zero s = omega arith
length-drop-le (suc n) [] = omega arith
length-drop-le (suc n) (c ∷ s) = omega (arith, length-drop-le n s)

length-drop_two : (n c : ℕ) (s : Text) → length (drop n (drop 2 (c ∷ s))) < suc (length s)
length-drop_two n c s = omega (arith, length-drop-le n (drop 1 s), length-drop-le 1 s)

-- A round fails with no want of fuel, or ends the loop, or leaves a rest shorter than `n`.
pub data Shortens (n : ℕ) : Result BarcodeError Round → Type 0 where
  fails : {e : BarcodeError} → e ≢ out_of_fuel → Shortens n (err e)
  ends : (ai : Text) → Shortens n (ok (stop ai))
  leaves : {rest : Text} {f : Fields} → length rest < n → Shortens n (ok (go_on rest f))

read_field-Shortens :
    (c : ℕ) (s : Text) (f : Fields) → Shortens (suc (length s)) (ok (read_field (c ∷ s) f))
unfolding read_field
read_field-Shortens c s f = elim (Option-cases (fixed_length (take 2 (c ∷ s)))) [
  | inr (n, e) ↦ rw (read_field, e) (leaves (length-drop_two n c s))
  | inl e ↦ elim (Bool-cases (is_variable (take 2 (c ∷ s)))) [
    | inl v ↦ rw (read_field, e, v) (leaves (length-drop_two (field_length (drop 2 (c ∷ s))) c s))
    | inr v ↦ rw (read_field, e, v) (ends _)
  ]
]

decimals_at-cases :
    (s : Text)
    → ((n : ℕ) × (decimals_at s ≡ ok n))
      ⊎ ((e : BarcodeError) × (decimals_at s ≡ err e) × (e ≢ out_of_fuel))
unfolding decimals_at
decimals_at-cases s = elim (Option-cases (get_elem? s 3)) [
  | inl e ↦ inr (index_error, rw (decimals_at, e) refl, λ h. cc)
  | inr (c, e) ↦ elim (Bool-cases (is_digit c)) [
    | inl v ↦ inl (digit_value c, rw (decimals_at, e, v) refl)
    | inr v ↦ inr (value_error, rw (decimals_at, e, v) refl, λ h. cc)
  ]
]

weight_to_milli-fueled :
    (s : Text) (d : ℕ) {e : BarcodeError} → weight_to_milli s d ≡ err e → e ≢ out_of_fuel
unfolding weight_to_milli
weight_to_milli-fueled s d h k = elim (Bool-cases (isdigit s)) [
  | inl v ↦ cc (rw (weight_to_milli, v) at h)
  | inr v ↦ cc (rw (weight_to_milli, v) at h)
]

read_weight-Shortens :
    (c : ℕ) (s : Text) (f : Fields) → Shortens (suc (length s)) (read_weight (c ∷ s) f)
unfolding read_weight
read_weight-Shortens c s f = elim (decimals_at-cases (c ∷ s)) [
  | inr (e, h, k) ↦ rw (read_weight, h) (fails k)
  | inl (d, h) ↦ elim (Result-cases (weight_to_milli (take 6 (drop 4 (c ∷ s))) d)) [
    | inl (e, k) ↦ rw (read_weight, h, k) (fails (weight_to_milli-fueled _ d k))
    | inr (n, k) ↦ rw (read_weight, h, k) (leaves (omega (arith, length-drop-le 9 s)))
  ]
]

round-Shortens : (c : ℕ) (s : Text) (f : Fields) → Shortens (suc (length s)) (round c s f)
unfolding round
round-Shortens c s f = elim (Bool-cases (c == group_separator)) [
  | inl g ↦ rw (round, g) (leaves (omega arith))
  | inr g ↦ elim (Bool-cases (text_eq (take 3 (c ∷ s)) net_weight_ai)) [
    | inl w ↦ rw (round, g, w) (read_weight-Shortens c s f)
    | inr w ↦ rw (round, g, w) (read_field-Shortens c s f)
  ]
]

after_round-fueled :
    {n : ℕ} (loop : Text → Fields → Result BarcodeError Ending)
    → ((s : Text) (f : Fields) → length s < n → loop s f ≢ err out_of_fuel)
    → {r : Result BarcodeError Round} → Shortens n r
    → after_round loop r ≢ err out_of_fuel
after_round-fueled loop h (fails k) = λ e. k cc
after_round-fueled loop h (ends ai) = λ e. cc
after_round-fueled loop h (leaves k) = h _ _ k

gs1_loop-fueled :
    (fuel : ℕ) (s : Text) (f : Fields) → length s < fuel → gs1_loop fuel s f ≢ err out_of_fuel
unfolding gs1_loop
gs1_loop-fueled fuel [] f h = λ e. cc
gs1_loop-fueled zero (c ∷ s) f h = omega arith
gs1_loop-fueled (suc fuel) (c ∷ s) f h =
    after_round-fueled (gs1_loop fuel) (λ t g k. gs1_loop-fueled fuel t g (omega (arith, h, k)))
      (round-Shortens c s f)

-- The loop of the GS1-128 parser ends: with one more round than the code has characters, the
-- parser never runs out of rounds, whatever the code.
pub parse_gs1_128-total : (raw code : Text) → parse_gs1_128 raw code ≢ err out_of_fuel
unfolding parse_gs1_128
parse_gs1_128-total raw code h = elim (Result-cases (gs1_loop (suc (length code)) code no_fields)) [
  | inl (e, k) ↦ gs1_loop-fueled (suc (length code)) code no_fields (omega arith) cc
  | inr (r, k) ↦ cc
]
