-- ===== src/Barcode/Parser/Refusals.antt =====
-- Stripping and recognising codes of digits, and the codes that `parse` of
-- app/domain/barcode.py refuses.
use mathlib.Core.List.{reverse, reverse-reverse, reverse-append}
use pos.Prelude.{
  ℕ, suc, ◌<◌, ◌≡◌, refl, ap, ◌∙◌, ◌≢◌, Bool-cases, not, ◌&&◌, true, false, [], ◌∷◌, ◌++◌, any, all,
  length, ltb, inl, inr, Result-cases, ok, Text, ◌==◌, arith,
}
use pos.Barcode.{
  is_digit, isdigit, digit_value, check_digit, is_gtin_length, init, last_char, is_valid_gtin,
  Symbology, Reason, ScanResult, scan, unusable,
}
use pos.Barcode.Gs1.{looks_like_gs1_128, group_separator}
use pos.Barcode.CheckDigit.{
  isdigit-all, all-isdigit, check_digit-eq, gtin-length-pos, length-init, all-init, valid-shape,
  single_error_refused,
}
use pos.Barcode.Parser.{
  StoreRules, default_rules, is_space, lstrip, strip, parse_gtin, parse_stripped, parse,
  symbology_for_length,
}

digit-not-space : (c : ℕ) → is_digit c ≡ true → is_space c ≡ false
unfolding is_space
digit-not-space c h = ground arith

lstrip-digits : (s : Text) → all is_digit s ≡ true → lstrip s ≡ s
lstrip-digits [] h = refl
lstrip-digits (c ∷ s) h =
    let hc : is_digit c ≡ true = ground arith in rw (digit-not-space c hc) refl

all-append :
    (s t : Text) → all is_digit s ≡ true → all is_digit t ≡ true → all is_digit (s ++ t) ≡ true
all-append [] t h k = k
all-append (c ∷ s) t h k = ground (arith, all-append s t)

all-reverse : (s : Text) → all is_digit s ≡ true → all is_digit (reverse s) ≡ true
all-reverse [] h = refl
all-reverse (c ∷ s) h =
    rw (reverse-append (c ∷ []) s)
      (all-append (reverse s) (c ∷ []) (all-reverse s (ground arith)) (ground arith))

-- Digits have no blanks to strip.
pub strip-digits : (s : Text) → all is_digit s ≡ true → strip s ≡ s
unfolding strip
strip-digits s h =
    rw (lstrip-digits s h, lstrip-digits (reverse s) (all-reverse s h)) (reverse-reverse s)

any-separator : (s : Text) → all is_digit s ≡ true → any (λ c. c == group_separator) s ≡ false
any-separator [] h = refl
any-separator (c ∷ s) h = ground (arith, any-separator s)

-- Digits of a GTIN's length are not read as GS1-128.
pub looks_like_gs1_128-gtin :
    (s : Text)
    → all is_digit s ≡ true
    → is_gtin_length (length s) ≡ true
    → looks_like_gs1_128 s ≡ false
unfolding looks_like_gs1_128
looks_like_gs1_128-gtin s h l =
    let short : ltb 14 (length s) ≡ false = ground arith in
    rw (any-separator s h, short) (ground arith)

-- What `parse` does with digits of a GTIN's length.
pub parse-gtin :
    (raw code : Text) (rules : StoreRules)
    → is_gtin_length (length code) ≡ true
    → isdigit code ≡ true
    → parse_stripped raw code rules ≡ parse_gtin raw code rules
unfolding parse_stripped
parse-gtin raw code rules l h =
    let some_digits : (length code == 0) ≡ false =
      ground (arith, gtin-length-pos (length code) l) in
    rw (some_digits, looks_like_gs1_128-gtin code (isdigit-all code h) l, h, l) refl

isdigit-init : (s : Text) → isdigit s ≡ true → 1 < length s → isdigit (init s) ≡ true
isdigit-init [] h l = absurd (omega arith)
isdigit-init (c ∷ s) h l =
    all-isdigit (init (c ∷ s)) (omega (arith, length-init c s))
      (all-init c s (isdigit-all (c ∷ s) h))

parse_stripped-wrong_check_digit :
    (raw code : Text) (rules : StoreRules)
    → rules.allow_invalid_check_digit ≡ false
    → is_gtin_length (length code) ≡ true
    → isdigit code ≡ true
    → is_valid_gtin code ≡ false
    → (d : ℕ) × (check_digit (init code) ≡ ok d)
      × (parse_stripped raw code rules
          ≡ ok (
              unusable raw
                (symbology_for_length (length code))
                (Reason.wrong_check_digit (digit_value (last_char code)) d)))
unfolding parse_gtin
parse_stripped-wrong_check_digit raw code rules a l h v =
    let long : 1 < length code = omega (arith, gtin-length-pos (length code) l) in
    let checked = check_digit-eq (init code) (isdigit-init code h long) in
    (_, checked, parse-gtin raw code rules l h ∙ rw (v, a, checked) refl)

-- When the code read, less its blanks, is digits of a GTIN's length with a wrong check digit, and the
-- store does not allow those, `parse` returns a result without a key to look up and without
-- a quantity, which names the check digit that the other digits call for.
pub parse-wrong_check_digit :
    (raw : Text) (rules : StoreRules)
    → rules.allow_invalid_check_digit ≡ false
    → is_gtin_length (length (strip raw)) ≡ true
    → isdigit (strip raw) ≡ true
    → is_valid_gtin (strip raw) ≡ false
    → (d : ℕ) × (check_digit (init (strip raw)) ≡ ok d)
      × (parse raw rules
          ≡ ok (
              unusable raw
                (symbology_for_length (length (strip raw)))
                (Reason.wrong_check_digit (digit_value (last_char (strip raw))) d)))
parse-wrong_check_digit raw rules = parse_stripped-wrong_check_digit raw (strip raw) rules

parse_gtin-returns :
    (raw code : Text) (rules : StoreRules)
    → is_gtin_length (length code) ≡ true
    → isdigit code ≡ true
    → (r : ScanResult) × (parse_gtin raw code rules ≡ ok r)
unfolding parse_gtin
parse_gtin-returns raw code rules l h = elim (Result-cases (parse_gtin raw code rules)) [
  | inr r ↦ r
  | inl (e, k) ↦
      let long : 1 < length code = omega (arith, gtin-length-pos (length code) l) in
      let checked = check_digit-eq (init code) (isdigit-init code h long) in
      elim (Bool-cases (not (is_valid_gtin code) && not rules.allow_invalid_check_digit)) [
        | inr v ↦ cc (rw (parse_gtin, v) at k)
        | inl v ↦ cc (rw (parse_gtin, v, checked) at k)
      ]
]

-- `parse` returns, and does not raise, on every code that it does not take for GS1-128.
pub parse-returns :
    (raw : Text) (rules : StoreRules)
    → looks_like_gs1_128 (strip raw) ≡ false
    → (r : ScanResult) × (parse raw rules ≡ ok r)
unfolding parse_stripped
parse-returns raw rules g = elim (Bool-cases (length (strip raw) == 0)) [
  | inl e ↦ (unusable raw Symbology.unknown Reason.no_code, rw e refl)
  | inr e ↦ elim (Bool-cases (isdigit (strip raw))) [
    | inr h ↦ (scan raw Symbology.unknown (strip raw), rw (e, g, h) refl)
    | inl h ↦ elim (Bool-cases (is_gtin_length (length (strip raw)))) [
      | inr l ↦ (scan raw Symbology.unknown (strip raw), rw (e, g, h, l) refl)
      | inl l ↦
          let (r, e') = parse_gtin-returns raw (strip raw) rules l h in
          (r, parse-gtin raw (strip raw) rules l h ∙ e')
    ]
  ]
]

all-put :
    (p : Text) (c d : ℕ) (s : Text)
    → all is_digit (p ++ c ∷ s) ≡ true
    → is_digit d ≡ true
    → all is_digit (p ++ d ∷ s) ≡ true
all-put [] c d s h k = ground arith
all-put (x ∷ p) c d s h k = ground (arith, all-put p c d s)

length-put : (p : Text) (c d : ℕ) (s : Text) → length (p ++ c ∷ s) ≡ length (p ++ d ∷ s)
length-put [] c d s = refl
length-put (x ∷ p) c d s = ap suc (length-put p c d s)

-- One mistyped digit of a valid code: `parse` finds nothing to look up and no quantity.
pub parse-mistyped :
    (p s : Text) (c d : ℕ)
    → is_valid_gtin (p ++ c ∷ s) ≡ true
    → is_digit d ≡ true
    → c ≢ d
    → (reason : Reason) × (parse (p ++ d ∷ s) default_rules
        ≡ ok (unusable (p ++ d ∷ s) (symbology_for_length (length (p ++ d ∷ s))) reason))
parse-mistyped p s c d v h ne =
    let (l, digits) = valid-shape (p ++ c ∷ s) v in
    let l' : is_gtin_length (length (p ++ d ∷ s)) ≡ true = rw (length-put p c d s) at l in
    let all' = all-put p c d s (isdigit-all (p ++ c ∷ s) digits) h in
    let digits' : isdigit (p ++ d ∷ s) ≡ true =
      all-isdigit (p ++ d ∷ s) (omega (arith, gtin-length-pos (length (p ++ d ∷ s)) l')) all' in
    let (x, _, k) =
      parse_stripped-wrong_check_digit (p ++ d ∷ s) (p ++ d ∷ s) default_rules refl l' digits'
        (single_error_refused p s c d v ne) in
    rw (strip-digits (p ++ d ∷ s) all') (_, k)
