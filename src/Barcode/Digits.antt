-- ===== src/Barcode/Digits.antt =====
-- Digits of app/domain/barcode.py: padding and reading back.
use pos.Prelude.{
  ℕ, zero, suc, ◌+◌, ◌*◌, ◌/◌, ◌%◌, ◌^◌, ◌<◌, ◌≡◌, refl, ◌∙◌, true, List, [], ◌∷◌, ◌++◌, length,
  length-append, All, All-append, arith, all,
}
use native.Mathlib.Nat.{pow-suc}
use pos.Barcode.{is_digit, digit_value, digit_char, padded, int_from, int_of}

abbrev pub AllDigits : List ℕ → Type 0
AllDigits = All (λ c. is_digit c ≡ true)

pub length-padded : (width n : ℕ) → length (padded width n) ≡ width
unfolding padded
length-padded zero n = refl
length-padded (suc width) n = omega (
  arith,
  length-append (padded width (n / 10)) (digit_char (n % 10) ∷ []),
  length-padded width (n / 10),
)

pub digit_char-IsDigit : (d : ℕ) → d < 10 → is_digit (digit_char d) ≡ true
digit_char-IsDigit d h = ground arith

pub padded-AllDigits : (width n : ℕ) → AllDigits (padded width n)
unfolding padded
padded-AllDigits zero n = tt
padded-AllDigits (suc width) n =
    All-append (λ c. is_digit c ≡ true) (padded width (n / 10)) (digit_char (n % 10) ∷ [])
      (padded-AllDigits width (n / 10)) (digit_char-IsDigit (n % 10) (omega arith), tt)

pub int_from-append :
    (acc : ℕ) (s : List ℕ) (c : ℕ)
    → int_from acc (s ++ c ∷ []) ≡ int_from acc s * 10 + digit_value c
unfolding int_from
int_from-append acc [] c = refl
int_from-append acc (d ∷ s) c = int_from-append (acc * 10 + digit_value d) s c

-- A number below 10 ^ width is read back from its padded digits.
pub int_of-padded : (width n : ℕ) → n < 10 ^ width → int_of (padded width n) ≡ n
unfolding padded int_from
int_of-padded zero n h = omega arith
int_of-padded (suc width) n h =
    let wide : n < 10 ^ width * 10 = rw (pow-suc 10 width) at h in
    let front = int_of-padded width (n / 10) (omega arith) in
    int_from-append 0 (padded width (n / 10)) (digit_char (n % 10)) ∙ omega (arith, front)

pub all-AllDigits : (s : List ℕ) → AllDigits s → all is_digit s ≡ true
all-AllDigits [] h = refl
all-AllDigits (c ∷ s) (h, hs) = rw (h, all-AllDigits s hs) refl
