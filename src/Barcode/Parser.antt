-- ===== src/Barcode/Parser.antt =====
-- `StoreRules`, `parse`, `_symbology_for_length` and `_parse_weighed` of app/domain/barcode.py.
pub mod Refusals
use mathlib.Core.List.{reverse}
use pos.Prelude.{
  ℕ, zero, suc, ◌==◌, leb, ltb, Bool, true, false, ◌&&◌, ◌||◌, not, if◌then◌else◌, List, [], ◌∷◌,
  any, map, length, take, drop, Option, none, some, Result, ok, err, ◌>>=◌, Text, text_eq,
}
use pos.Barcode.{
  BarcodeError, isdigit, digit_value, check_digit, is_gtin_length, init, last_char, is_valid_gtin,
  padded, int_of, internal_prefix, weighed_prefix, weighed_item_digits, Symbology, Reason,
  ScanResult, scan, unusable,
}
use pos.Barcode.Gs1.{looks_like_gs1_128, parse_gs1_128}

pub record StoreRules : Type 0 where
  pub internal_prefix : Text
  pub weighed_prefix : Text
  pub allow_invalid_check_digit : Bool

-- `DEFAULT_RULES`
abbrev pub default_rules : StoreRules
default_rules = record {
  internal_prefix = pos.Barcode.internal_prefix;
  weighed_prefix = pos.Barcode.weighed_prefix;
  allow_invalid_check_digit = false;
}

-- `IN_STORE_PREFIXES`
abbrev pub in_store_prefixes : List Text
in_store_prefixes = map (padded 2) (20 ∷ 21 ∷ 22 ∷ 23 ∷ 24 ∷ 25 ∷ 26 ∷ 27 ∷ 28 ∷ 29 ∷ [])

-- `str.isspace` of one character
unfoldable pub is_space : ℕ → Bool
is_space c =
    leb 9 c && leb c 13
    || leb 28 c && leb c 32
    || c == 133
    || c == 160
    || c == 5760
    || leb 8192 c && leb c 8202
    || c == 8232
    || c == 8233
    || c == 8239
    || c == 8287
    || c == 12288

abbrev pub lstrip : Text → Text
lstrip [] = []
lstrip (c ∷ s) = let rest = lstrip s in if is_space c then rest else c ∷ s

-- `raw.strip()`
unfoldable pub strip : Text → Text
strip s = reverse (lstrip (reverse (lstrip s)))

-- `_symbology_for_length`
unfoldable pub symbology_for_length : ℕ → Symbology
symbology_for_length n =
    if n == 8
    then Symbology.ean8
    else (if n == 12
        then Symbology.upc_a
        else (if n == 13
            then Symbology.ean13
            else (if n == 14 then Symbology.itf14 else Symbology.unknown)))

-- `_parse_weighed`
unfoldable pub parse_weighed : Text → Text → ScanResult
parse_weighed raw code =
    let item_code = take weighed_item_digits (drop 2 code) in
    let qty_milli = int_of (init (drop 7 code)) in
    if qty_milli == 0
    then unusable raw Symbology.weighed Reason.no_quantity
    else record (scan raw Symbology.weighed item_code) { qty_milli = some qty_milli }

-- What `parse` makes of a code of thirteen digits.
unfoldable pub parse_thirteen : Text → Text → StoreRules → ScanResult
unfolding parse_weighed
parse_thirteen raw code rules =
    let prefix = take 2 code in
    if text_eq prefix rules.weighed_prefix
    then parse_weighed raw code
    else (if text_eq prefix rules.internal_prefix
        then scan raw Symbology.internal code
        else (if any (text_eq prefix) in_store_prefixes
            then unusable raw Symbology.ean13 (Reason.not_configured prefix)
            else scan raw Symbology.ean13 code))

-- What `parse` makes of a code that is digits of a GTIN's length.
unfoldable pub parse_gtin : Text → Text → StoreRules → Result BarcodeError ScanResult
unfolding parse_thirteen symbology_for_length
parse_gtin raw code rules =
    if not (is_valid_gtin code) && not rules.allow_invalid_check_digit
    then (do
      expected ← check_digit (init code)
      ok (
          unusable raw (symbology_for_length (length code))
            (Reason.wrong_check_digit (digit_value (last_char code)) expected)))
    else ok (
        if length code == 14
        then record (scan raw Symbology.itf14 code) { is_case = true }
        else (if length code == 13
            then parse_thirteen raw code rules
            else scan raw (symbology_for_length (length code)) code))

-- `parse` of a code that is stripped
unfoldable pub parse_stripped : Text → Text → StoreRules → Result BarcodeError ScanResult
unfolding parse_gtin
parse_stripped raw code rules =
    if length code == 0
    then ok (unusable raw Symbology.unknown Reason.no_code)
    else (if looks_like_gs1_128 code
        then parse_gs1_128 raw code
        else (if not (isdigit code)
            then ok (scan raw Symbology.unknown code)
            else (if not (is_gtin_length (length code))
                then ok (scan raw Symbology.unknown code)
                else parse_gtin raw code rules)))

abbrev pub parse : Text → StoreRules → Result BarcodeError ScanResult
parse raw rules = parse_stripped raw (strip raw) rules
