-- ===== src/Barcode/CheckDigit.antt =====
-- The check digit of app/domain/barcode.py: what it makes valid, and the errors that it finds.
use mathlib.Core.List.{reverse, reverse-append}
use native.Mathlib.Nat.{add_assoc, add-zero}
use pos.Prelude.{
  ℕ, suc, ◌+◌, ◌-◌, ◌*◌, ◌%◌, ◌<◌, ◌≡◌, ◌≢◌, ◌↔◌, ◌⊎◌, inl, inr, refl, ap, sym, ◌∙◌, Bool-cases,
  true, false, if◌then◌else◌, [], ◌∷◌, ◌++◌, length, length-append, all, arith, ok, Text, ◌==◌,
}
use pos.Barcode.{
  is_digit, isdigit, digit_value, weighted_total, check_digit, is_gtin_length, init, last_char,
  is_valid_gtin,
}

weight : ℕ → ℕ
weight index = if index % 2 == 0 then 3 else 1

weighted_total-append :
    (k : ℕ) (s t : Text)
    → weighted_total k (s ++ t) ≡ weighted_total k s + weighted_total (k + length s) t
unfolding weighted_total
weighted_total-append k [] t = rw (add-zero k) (omega arith)
weighted_total-append k (c ∷ s) t =
    let e : k + 1 + length s ≡ k + suc (length s) = omega arith in
    rw (weighted_total-append (k + 1) s t, e) (sym (add_assoc _ _ _))

-- The weights have period two.
weighted_total-shift : (k : ℕ) (s : Text) → weighted_total (k + 2) s ≡ weighted_total k s
unfolding weighted_total
weighted_total-shift k [] = refl
weighted_total-shift k (c ∷ s) =
    let e : k + 2 + 1 ≡ k + 1 + 2 = omega arith in
    let parity : (k + 2) % 2 ≡ k % 2 = omega arith in
    rw (parity, e, weighted_total-shift (k + 1) s) refl

-- The sum over a whole code from the right, where the check digit has weight 1.
abbrev pub code_total : Text → ℕ
code_total code = weighted_total 1 (reverse code)

pub code_total-snoc :
    (payload : Text) (c : ℕ)
    → code_total (payload ++ c ∷ []) ≡ digit_value c + weighted_total 0 (reverse payload)
unfolding weighted_total
code_total-snoc payload c =
    rw (reverse-append payload (c ∷ [])) (omega (arith, weighted_total-shift 0 (reverse payload)))

init-last_char : (c : ℕ) (s : Text) → init (c ∷ s) ++ last_char (c ∷ s) ∷ [] ≡ c ∷ s
init-last_char c [] = refl
init-last_char c (d ∷ s) = ap (◌∷◌ c) (init-last_char d s)

pub all-init : (c : ℕ) (s : Text) → all is_digit (c ∷ s) ≡ true → all is_digit (init (c ∷ s)) ≡ true
all-init c [] h = refl
all-init c (d ∷ s) h = ground (arith, all-init d s)

all-last_char :
    (c : ℕ) (s : Text) → all is_digit (c ∷ s) ≡ true → is_digit (last_char (c ∷ s)) ≡ true
all-last_char c [] h = ground arith
all-last_char c (d ∷ s) h = ground (arith, all-last_char d s)

pub length-init : (c : ℕ) (s : Text) → length (init (c ∷ s)) ≡ length s
length-init c [] = refl
length-init c (d ∷ s) = ap suc (length-init d s)

-- A check digit makes up the difference to a multiple of ten.
complement_iff : (t d : ℕ) → d < 10 → (((10 - t % 10) % 10 == d) ≡ true) ↔ ((d + t) % 10 ≡ 0)
complement_iff t d h = ground arith

pub check_digit-eq :
    (payload : Text)
    → isdigit payload ≡ true
    → check_digit payload ≡ ok ((10 - weighted_total 0 (reverse payload) % 10) % 10)
unfolding check_digit
check_digit-eq payload h = rw h refl

pub isdigit-all : (s : Text) → isdigit s ≡ true → all is_digit s ≡ true
unfolding isdigit
isdigit-all s h = ground arith

pub all-isdigit : (s : Text) → 0 < length s → all is_digit s ≡ true → isdigit s ≡ true
unfolding isdigit
all-isdigit s p h = ground arith

pub gtin-length-pos : (n : ℕ) → is_gtin_length n ≡ true → 7 < n
gtin-length-pos n h = ground arith

pub digit_value-lt : (c : ℕ) → is_digit c ≡ true → digit_value c < 10
digit_value-lt c h = ground arith

is_valid_gtin-eq :
    (code : Text) (d : ℕ)
    → is_gtin_length (length code) ≡ true
    → isdigit code ≡ true
    → check_digit (init code) ≡ ok d
    → is_valid_gtin code ≡ (d == digit_value (last_char code))
unfolding is_valid_gtin
is_valid_gtin-eq code d l h c = rw (l, h, c) refl

-- A text of digits of a GTIN's length is valid exactly when its weighted sum is a multiple of ten.
pub is_valid_gtin_iff :
    (code : Text)
    → is_gtin_length (length code) ≡ true
    → isdigit code ≡ true
    → (is_valid_gtin code ≡ true) ↔ (code_total code % 10 ≡ 0)
is_valid_gtin_iff [] l h = absurd (omega (arith, gtin-length-pos 0 l))
is_valid_gtin_iff (c ∷ s) l h =
    let payload = init (c ∷ s) in
    let last = last_char (c ∷ s) in
    let digits = isdigit-all (c ∷ s) h in
    let long : 0 < length payload =
      omega (arith, gtin-length-pos (suc (length s)) l, length-init c s) in
    let checked = check_digit-eq payload (all-isdigit payload long (all-init c s digits)) in
    let total : code_total (c ∷ s) ≡ digit_value last + weighted_total 0 (reverse payload) =
      ap code_total (sym (init-last_char c s)) ∙ code_total-snoc payload last in
    rw (is_valid_gtin-eq (c ∷ s) _ l h checked) (
      rw total (
        complement_iff (weighted_total 0 (reverse payload)) (digit_value last)
          (digit_value-lt last (all-last_char c s digits))))

-- The weighted sum of a code as a sum around one of its characters.
code_total-around :
    (p : Text) (c : ℕ) (s : Text)
    → code_total (p ++ c ∷ s)
      ≡ weighted_total 1 (reverse s)
        + (digit_value c * weight (1 + length (reverse s))
            + weighted_total (1 + length (reverse s) + 1) (reverse p))
unfolding weighted_total weight
code_total-around p c s =
    let rs = reverse s in
    let rp = reverse p in
    let turned : reverse (p ++ c ∷ s) ≡ (rs ++ c ∷ []) ++ rp =
      reverse-append p (c ∷ s) ∙ ap (λ r. r ++ rp) (reverse-append (c ∷ []) s) in
    let e : 1 + length (rs ++ c ∷ []) ≡ 1 + length rs + 1 =
      omega (arith, length-append rs (c ∷ [])) in
    ap (weighted_total 1) turned
    ∙ weighted_total-append 1 (rs ++ c ∷ []) rp
    ∙ rw (e, weighted_total-append 1 rs (c ∷ [])) (omega arith)

weight_cases : (index : ℕ) → (weight index ≡ 3) ⊎ (weight index ≡ 1)
unfolding weight
weight_cases index = ground arith

-- Neither weight divides ten, so two digits at one place give two sums that differ modulo ten.
digits_differ :
    (a w b x y : ℕ)
    → (w ≡ 3) ⊎ (w ≡ 1)
    → x < 10
    → y < 10
    → (a + (x * w + b)) % 10 ≡ 0
    → (a + (y * w + b)) % 10 ≡ 0
    → x ≡ y
digits_differ a w b x y (inl e) hx hy p q =
    let p' : (a + (x * 3 + b)) % 10 ≡ 0 = rw e at p in
    let q' : (a + (y * 3 + b)) % 10 ≡ 0 = rw e at q in omega arith
digits_differ a w b x y (inr e) hx hy p q =
    let p' : (a + (x * 1 + b)) % 10 ≡ 0 = rw e at p in
    let q' : (a + (y * 1 + b)) % 10 ≡ 0 = rw e at q in omega arith

pub valid-shape :
    (code : Text)
    → is_valid_gtin code ≡ true
    → (is_gtin_length (length code) ≡ true) × (isdigit code ≡ true)
unfolding is_valid_gtin
valid-shape code h = ground arith

valid-total : (code : Text) → is_valid_gtin code ≡ true → code_total code % 10 ≡ 0
valid-total code h = let (l, digits) = valid-shape code h in (is_valid_gtin_iff code l digits).0 h

pub all-at : (p : Text) (c : ℕ) (s : Text) → all is_digit (p ++ c ∷ s) ≡ true → is_digit c ≡ true
all-at [] c s h = ground arith
all-at (x ∷ p) c s h = all-at p c s (ground arith)

digit_value-injective :
    (c d : ℕ) → is_digit c ≡ true → is_digit d ≡ true → digit_value c ≡ digit_value d → c ≡ d
digit_value-injective c d hc hd e = ground arith

-- No two valid codes differ in a single character: a mistyped digit is always refused.
pub single_error_refused :
    (p s : Text) (c d : ℕ)
    → is_valid_gtin (p ++ c ∷ s) ≡ true
    → c ≢ d
    → is_valid_gtin (p ++ d ∷ s) ≡ false
single_error_refused p s c d h ne = elim (Bool-cases (is_valid_gtin (p ++ d ∷ s))) [
  | inr e ↦ e
  | inl e ↦
      let hc = all-at p c s (isdigit-all (p ++ c ∷ s) (valid-shape (p ++ c ∷ s) h).1) in
      let hd = all-at p d s (isdigit-all (p ++ d ∷ s) (valid-shape (p ++ d ∷ s) e).1) in
      let w = weight (1 + length (reverse s)) in
      let same : digit_value c ≡ digit_value d =
        digits_differ (weighted_total 1 (reverse s)) w
          (weighted_total (1 + length (reverse s) + 1) (reverse p)) (digit_value c) (digit_value d)
          (weight_cases (1 + length (reverse s))) (digit_value-lt c hc) (digit_value-lt d hd)
          (rw (code_total-around p c s) at (valid-total (p ++ c ∷ s) h))
          (rw (code_total-around p d s) at (valid-total (p ++ d ∷ s) e)) in
      absurd (ne (digit_value-injective c d hc hd same))
]
