-- ===== src/Tests/Codes.antt =====
-- Codes that a till reads and writes.
use pos.Prelude.{
  ℕ, suc, ◌+◌, ◌%◌, ◌≤◌, ◌≡◌, ◌≢◌, ◌↔◌, refl, List, [], ◌∷◌, ◌++◌, length, Option, none, some,
  Result, ok, err, true, false, arith, codes, Text,
}
use pos.Barcode.{
  BarcodeError, index_error, value_error, out_of_fuel, isdigit, digit_value, is_gtin_length, init,
  last_char, is_valid_gtin, check_digit, with_check_digit, padded, Symbology, Reason, ScanResult,
  scan, unusable, weighed_barcode, internal_barcode,
}
use pos.Barcode.Digits.{AllDigits}
use pos.Barcode.CheckDigit.{code_total, is_valid_gtin_iff}
use pos.Barcode.Gs1.{looks_like_gs1_128, parse_gs1_128}
use pos.Barcode.Gs1.Total.{parse_gs1_128-total}
use pos.Barcode.Parser.{default_rules, strip, symbology_for_length, parse}
use pos.Barcode.Parser.Refusals.{parse-mistyped}
use pos.Barcode.RoundTrip.{parse-weighed_barcode, parse-internal_barcode}

-- The code of a tin of biscuits, and the same with a wrong check digit and a blank.
abbrev biscuits : Text
biscuits = codes "8901030865275"

abbrev misprinted : Text
misprinted = codes "8901030865278 "

biscuits-valid : is_valid_gtin biscuits ≡ true
unfolding is_valid_gtin isdigit check_digit pos.Barcode.weighted_total
biscuits-valid = refl

biscuits-isdigit : isdigit biscuits ≡ true
unfolding isdigit
biscuits-isdigit = refl

is_valid_gtin_iff_example : (is_valid_gtin biscuits ≡ true) ↔ (code_total biscuits % 10 ≡ 0)
is_valid_gtin_iff_example = is_valid_gtin_iff biscuits refl biscuits-isdigit

misprinted-length : is_gtin_length (length (strip misprinted)) ≡ true
unfolding strip pos.Barcode.Parser.is_space
misprinted-length = refl

misprinted-isdigit : isdigit (strip misprinted) ≡ true
unfolding isdigit strip pos.Barcode.Parser.is_space
misprinted-isdigit = refl

misprinted-invalid : is_valid_gtin (strip misprinted) ≡ false
unfolding is_valid_gtin strip pos.Barcode.Parser.is_space isdigit check_digit
    pos.Barcode.weighted_total
misprinted-invalid = refl

misprinted-plain : looks_like_gs1_128 (strip misprinted) ≡ false
unfolding looks_like_gs1_128 strip pos.Barcode.Parser.is_space pos.Prelude.text_eq
misprinted-plain = refl

six-ne-seven : ◌≢◌ {A = ℕ} 54 55
six-ne-seven h = omega (arith, h)

-- "8901030865275" typed as "8901030875275".
parse-mistyped_example :
    (reason : Reason) × (parse (codes "89010308" ++ 55 ∷ codes "5275") default_rules
      ≡ ok (
          unusable
            (codes "89010308" ++ 55 ∷ codes "5275")
            (symbology_for_length (length (codes "89010308" ++ 55 ∷ codes "5275")))
            reason))
parse-mistyped_example =
    parse-mistyped (codes "89010308") (codes "5275") 54 55 biscuits-valid refl six-ne-seven

-- A net weight without its digits: the source raises on an index and on `int` of a separator.
weight_cut : parse_gs1_128 (codes "310") (codes "310") ≡ err index_error
unfolding parse_gs1_128 pos.Barcode.Gs1.gs1_loop pos.Barcode.Gs1.round pos.Prelude.text_eq
    pos.Barcode.Gs1.read_weight
weight_cut = refl

weight_separated : parse (codes "310" ++ 29 ∷ codes "5") default_rules ≡ err value_error
unfolding pos.Barcode.Parser.parse_stripped strip pos.Barcode.Parser.is_space looks_like_gs1_128
    parse_gs1_128 pos.Barcode.Gs1.gs1_loop pos.Barcode.Gs1.round pos.Prelude.text_eq
    pos.Barcode.Gs1.read_weight
weight_separated = refl

-- A separator at the end is a blank, so this is no GS1-128 code.
weight_stripped :
    parse (codes "310" ++ 29 ∷ []) default_rules
    ≡ ok (scan (codes "310" ++ 29 ∷ []) Symbology.unknown (codes "310"))
unfolding pos.Barcode.Parser.parse_stripped strip pos.Barcode.Parser.is_space looks_like_gs1_128
    pos.Prelude.text_eq isdigit
weight_stripped = refl

parse_gs1_128-total_example : parse_gs1_128 biscuits (codes "0108901030865275310") ≢ err out_of_fuel
parse_gs1_128-total_example = parse_gs1_128-total biscuits (codes "0108901030865275310")

digits-AllDigits : AllDigits (codes "890103086527")
digits-AllDigits = (
  refl,
  (refl, (refl, (refl, (refl, (refl, (refl, (refl, (refl, (refl, (refl, (refl, tt))))))))))),
)

parse-weighed_barcode_example :
    (code : Text) × (weighed_barcode 12_345 1250 ≡ ok code)
    × (parse code default_rules
        ≡ ok (record (scan code Symbology.weighed (padded 5 12_345)) { qty_milli = some 1250 }))
parse-weighed_barcode_example =
    parse-weighed_barcode 12_345 1250 (omega arith) (omega arith) (omega arith)

parse-internal_barcode_example :
    (code : Text) × (internal_barcode 42 ≡ ok code)
    × (parse code default_rules ≡ ok (scan code Symbology.internal code))
parse-internal_barcode_example = parse-internal_barcode 42 (omega arith)
