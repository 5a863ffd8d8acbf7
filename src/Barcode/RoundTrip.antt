-- ===== src/Barcode/RoundTrip.antt =====
-- The codes that app/domain/barcode.py writes are the codes that it reads.
use mathlib.Core.List.{reverse, append_assoc}
use pos.Prelude.{
  ℕ, zero, suc, ◌-◌, ◌%◌, ◌≤◌, ◌<◌, ◌≡◌, refl, ap, ◌∙◌, true, false, [], ◌∷◌, ◌++◌, length,
  length-append, some, ok, Text, ◌==◌, arith, if◌then◌else◌, text_eq, take, drop, le→leb,
  All-append,
}
use pos.Barcode.{
  is_digit, isdigit, digit_value, digit_char, with_check_digit, weighted_total, is_gtin_length,
  init, is_valid_gtin, Symbology, Reason, scan, unusable, weighed_barcode, internal_barcode,
  weighed_prefix, internal_prefix, padded, int_of,
}
use pos.Barcode.Digits.{
  AllDigits, length-padded, padded-AllDigits, int_of-padded, all-AllDigits, digit_char-IsDigit,
}
use pos.Barcode.CheckDigit.{all-isdigit, check_digit-eq, is_valid_gtin_iff, code_total-snoc}
use pos.Barcode.Parser.{default_rules, parse_gtin, parse_thirteen, parse_weighed, parse}
use pos.Barcode.Parser.Refusals.{strip-digits, parse-gtin}

take-append : (n : ℕ) (s t : Text) → length s ≡ n → take n (s ++ t) ≡ s
take-append zero [] t e = refl
take-append zero (c ∷ s) t e = absurd (omega (arith, e))
take-append (suc n) [] t e = absurd (omega (arith, e))
take-append (suc n) (c ∷ s) t e = ap (c ∷◌) (take-append n s t (omega (arith, e)))

drop-append : (n : ℕ) (s t : Text) → length s ≡ n → drop n (s ++ t) ≡ t
drop-append zero [] t e = refl
drop-append zero (c ∷ s) t e = absurd (omega (arith, e))
drop-append (suc n) [] t e = absurd (omega (arith, e))
drop-append (suc n) (c ∷ s) t e = drop-append n s t (omega (arith, e))

init-snoc : (s : Text) (c : ℕ) → init (s ++ c ∷ []) ≡ s
init-snoc [] c = refl
init-snoc (d ∷ []) c = refl
init-snoc (d ∷ e ∷ s) c = ap (d ∷◌) (init-snoc (e ∷ s) c)

-- The check digit of a payload of digits, and the code that it completes.
abbrev pub digit_for : Text → ℕ
digit_for payload = (10 - weighted_total 0 (reverse payload) % 10) % 10

abbrev pub completed : Text → Text
completed payload = payload ++ digit_char (digit_for payload) ∷ []

completed-AllDigits : (payload : Text) → AllDigits payload → AllDigits (completed payload)
completed-AllDigits payload h =
    All-append (λ c. is_digit c ≡ true) payload (digit_char (digit_for payload) ∷ []) h
      (digit_char-IsDigit (digit_for payload) (omega arith), tt)

completed-isdigit : (payload : Text) → AllDigits payload → isdigit (completed payload) ≡ true
completed-isdigit payload h =
    all-isdigit (completed payload)
      (omega (arith, length-append payload (digit_char (digit_for payload) ∷ [])))
      (all-AllDigits (completed payload) (completed-AllDigits payload h))

AllDigits-isdigit : (s : Text) → AllDigits s → 0 < length s → isdigit s ≡ true
AllDigits-isdigit s h l = all-isdigit s l (all-AllDigits s h)

length-completed : (payload : Text) → length (completed payload) ≡ suc (length payload)
length-completed payload =
    omega (arith, length-append payload (digit_char (digit_for payload) ∷ []))

digit_char-value : (d : ℕ) → digit_value (digit_char d) ≡ d
digit_char-value d = omega arith

completed-valid :
    (payload : Text)
    → AllDigits payload
    → is_gtin_length (suc (length payload)) ≡ true
    → is_valid_gtin (completed payload) ≡ true
completed-valid payload h l =
    let sum = weighted_total 0 (reverse payload) in
    (is_valid_gtin_iff (completed payload) (rw (length-completed payload) l)
        (completed-isdigit payload h)).1
      (rw (code_total-snoc payload (digit_char (digit_for payload))) (omega arith))

with_check_digit-eq :
    (payload : Text)
    → AllDigits payload
    → 0 < length payload
    → with_check_digit payload ≡ ok (completed payload)
unfolding with_check_digit
with_check_digit-eq payload h l = rw (check_digit-eq payload (AllDigits-isdigit payload h l)) refl

-- A payload of digits, one short of a GTIN's length, is completed to a valid GTIN.
pub with_check_digit-valid :
    (payload : Text)
    → AllDigits payload
    → is_gtin_length (suc (length payload)) ≡ true
    → (code : Text) × (with_check_digit payload ≡ ok code) × (is_valid_gtin code ≡ true)
with_check_digit-valid payload h l =
    let some_digits : 0 < length payload = ground arith in
    (completed payload, with_check_digit-eq payload h some_digits, completed-valid payload h l)

-- What `parse` makes of a code of thirteen digits that is completed by its check digit.
parse-completed :
    (payload : Text)
    → AllDigits payload
    → length payload ≡ 12
    → parse (completed payload) default_rules
      ≡ ok (parse_thirteen (completed payload) (completed payload) default_rules)
unfolding parse_gtin
parse-completed payload h l =
    let code = completed payload in
    let n : length code ≡ 13 = omega (arith, length-completed payload, l) in
    let valid = completed-valid payload h (rw l refl) in
    rw (strip-digits code (all-AllDigits code (completed-AllDigits payload h))) (
      parse-gtin code code default_rules (rw n refl) (completed-isdigit payload h)
      ∙ rw (valid, n) refl)

abbrev weighed_payload : ℕ → ℕ → Text
weighed_payload item qty = weighed_prefix ++ (padded 5 item ++ padded 5 qty)

weighed_payload-AllDigits : (item qty : ℕ) → AllDigits (weighed_payload item qty)
weighed_payload-AllDigits item qty = (
  refl,
  (
    refl,
    All-append (λ c. is_digit c ≡ true) (padded 5 item) (padded 5 qty) (padded-AllDigits 5 item)
        (padded-AllDigits 5 qty),
  ),
)

length-weighed_payload : (item qty : ℕ) → length (weighed_payload item qty) ≡ 12
length-weighed_payload item qty =
    omega (
      arith,
      length-append (padded 5 item) (padded 5 qty),
      length-padded 5 item,
      length-padded 5 qty,
    )

-- The two halves of a weighed code, where parse_weighed looks for them.
parse_weighed-completed :
    (raw item qty : Text) (c : ℕ)
    → length item ≡ 5
    → parse_weighed raw (weighed_prefix ++ (item ++ qty) ++ c ∷ []) ≡ (
        if int_of qty == 0
        then unusable raw Symbology.weighed Reason.no_quantity
        else record (scan raw Symbology.weighed item) { qty_milli = some (int_of qty) })
unfolding parse_weighed
parse_weighed-completed raw item qty c l =
    let split : (item ++ qty) ++ c ∷ [] ≡ item ++ (qty ++ c ∷ []) =
      append_assoc item qty (c ∷ []) in
    rw
      (
        split,
        take-append 5 item (qty ++ c ∷ []) l,
        drop-append 5 item (qty ++ c ∷ []) l,
        init-snoc qty c,
      )
      refl

parse_thirteen-weighed :
    (raw code : Text)
    → parse_thirteen raw (weighed_prefix ++ code) default_rules
      ≡ parse_weighed raw (weighed_prefix ++ code)
unfolding parse_thirteen text_eq
parse_thirteen-weighed raw code = refl

parse_thirteen-internal :
    (raw code : Text)
    → parse_thirteen raw (internal_prefix ++ code) default_rules
      ≡ scan raw Symbology.internal (internal_prefix ++ code)
unfolding parse_thirteen text_eq
parse_thirteen-internal raw code = refl

parse_weighed-padded :
    (raw : Text) (item qty c : ℕ)
    → 1 ≤ qty
    → qty ≤ 99_999
    → parse_weighed raw (weighed_prefix ++ (padded 5 item ++ padded 5 qty) ++ c ∷ [])
      ≡ record (scan raw Symbology.weighed (padded 5 item)) { qty_milli = some qty }
parse_weighed-padded raw item qty c h1 hq =
    let read : int_of (padded 5 qty) ≡ qty = int_of-padded 5 qty (omega (arith, hq)) in
    let some_quantity : (qty == 0) ≡ false = ground arith in
    parse_weighed-completed raw (padded 5 item) (padded 5 qty) c (length-padded 5 item)
    ∙ rw (read, some_quantity) refl

-- The code printed for a weighed item reads back as the five digits of the item and the quantity.
pub parse-weighed_barcode :
    (item qty : ℕ)
    → item ≤ 99_999
    → 1 ≤ qty
    → qty ≤ 99_999
    → (code : Text) × (weighed_barcode item qty ≡ ok code)
      × (parse code default_rules
          ≡ ok (record (scan code Symbology.weighed (padded 5 item)) { qty_milli = some qty }))
unfolding weighed_barcode
parse-weighed_barcode item qty hi h1 hq =
    let payload = weighed_payload item qty in
    let digits = weighed_payload-AllDigits item qty in
    let twelve = length-weighed_payload item qty in
    let written : weighed_barcode item qty ≡ ok (completed payload) =
      rw (le→leb item 99_999 hi, le→leb 1 qty h1, le→leb qty 99_999 hq)
        (with_check_digit-eq payload digits (omega (arith, twelve))) in
    (
      completed payload,
      written,
      parse-completed payload digits twelve
          ∙ ap ok (
              parse_thirteen-weighed (completed payload) _
              ∙ parse_weighed-padded (completed payload) item qty (digit_char (digit_for payload))
                  h1 hq),
    )

-- The identity code of a product reads back as itself, for every code of ten digits at most.
pub parse-internal_barcode :
    (item : ℕ)
    → item ≤ 9_999_999_999
    → (code : Text) × (internal_barcode item ≡ ok code)
      × (parse code default_rules ≡ ok (scan code Symbology.internal code))
unfolding internal_barcode
parse-internal_barcode item h =
    let payload = internal_prefix ++ padded 10 item in
    let digits : AllDigits payload = (refl, (refl, padded-AllDigits 10 item)) in
    let twelve : length payload ≡ 12 = omega (arith, length-padded 10 item) in
    let written : internal_barcode item ≡ ok (completed payload) =
      rw (le→leb item 9_999_999_999 h)
        (with_check_digit-eq payload digits (omega (arith, twelve))) in
    (
      completed payload,
      written,
      parse-completed payload digits twelve ∙ ap ok (parse_thirteen-internal (completed payload) _),
    )
