-- ===== src/Barcode.antt =====
-- app/domain/barcode.py: check digits, and the codes that the till reads and writes. A text is a list
-- of code points, and its digits are those of ASCII.
pub mod Digits
pub mod Gs1
pub mod Parser
pub mod CheckDigit
pub mod RoundTrip
use mathlib.Core.List.{reverse}
use pos.Prelude.{
  ℕ, zero, suc, ◌+◌, ◌-◌, ◌*◌, ◌/◌, ◌%◌, ◌^◌, ◌==◌, leb, ltb, Bool, true, false, ◌&&◌, ◌||◌, not,
  if◌then◌else◌, List, [], ◌∷◌, ◌++◌, all, length, Option, none, some, Result, ok, err, ◌>>=◌, ◌>>◌,
  raise_if, Text,
}

pub data BarcodeError : Type 0 where
  not_numeric item_code_range quantity_range : BarcodeError
  -- an index out of range, and `int` of a text that is no number
  index_error value_error : BarcodeError
  -- the fuel of the GS1-128 loop ran out, which Gs1.Total shows that it does not
  out_of_fuel : BarcodeError

abbrev pub is_digit : ℕ → Bool
is_digit c = leb 48 c && leb c 57

-- `text.isdigit()`, which is false of the empty text
unfoldable pub isdigit : Text → Bool
isdigit s = not (length s == 0) && all is_digit s

-- `int(char)` of a digit
abbrev pub digit_value : ℕ → ℕ
digit_value c = c - 48

-- `str(d)` of one digit
abbrev pub digit_char : ℕ → ℕ
digit_char d = d + 48

-- The loop of `check_digit` over the reversed payload, from `index` on.
unfoldable pub weighted_total : ℕ → Text → ℕ
weighted_total index [] = 0
weighted_total index (char ∷ chars) =
    digit_value char * (if index % 2 == 0 then 3 else 1) + weighted_total (index + 1) chars

unfoldable pub check_digit : Text → Result BarcodeError ℕ
check_digit digits = do
  raise_if (not (isdigit digits)) not_numeric
  ok ((10 - weighted_total 0 (reverse digits) % 10) % 10)

unfoldable pub with_check_digit : Text → Result BarcodeError Text
with_check_digit payload = do d ← check_digit payload; ok (payload ++ digit_char d ∷ [])

-- `GTIN_LENGTHS`
abbrev pub is_gtin_length : ℕ → Bool
is_gtin_length n = n == 8 || n == 12 || n == 13 || n == 14

-- `code[:-1]` and `code[-1]` of a text that is not empty.
abbrev pub init : Text → Text
init [] = []
init (c ∷ []) = []
init (c ∷ d ∷ s) = c ∷ init (d ∷ s)

abbrev pub last_char : Text → ℕ
last_char [] = 0
last_char (c ∷ []) = c
last_char (c ∷ d ∷ s) = last_char (d ∷ s)

unfoldable pub is_valid_gtin : Text → Bool
is_valid_gtin code =
    is_gtin_length (length code)
    && isdigit code
    && (elim (check_digit (init code)) [ ok d ↦ d == digit_value (last_char code) | err _ ↦ false ])

-- `f"{n:0{width}d}"` of a number below 10 ^ width.
unfoldable pub padded : ℕ → ℕ → Text
padded zero n = []
padded (suc width) n = padded width (n / 10) ++ digit_char (n % 10) ∷ []

-- `int(text)` of digits
unfoldable pub int_from : ℕ → Text → ℕ
int_from acc [] = acc
int_from acc (c ∷ s) = int_from (acc * 10 + digit_value c) s

abbrev pub int_of : Text → ℕ
int_of = int_from 0

abbrev pub internal_prefix : Text
internal_prefix = 50 ∷ 49 ∷ []

abbrev pub weighed_prefix : Text
weighed_prefix = 50 ∷ 50 ∷ []

abbrev pub weighed_item_digits : ℕ
weighed_item_digits = 5

abbrev pub weighed_qty_digits : ℕ
weighed_qty_digits = 5

abbrev pub max_weighed_item_code : ℕ
max_weighed_item_code = 99_999

abbrev pub max_weighed_qty_milli : ℕ
max_weighed_qty_milli = 99_999

pub data Symbology : Type 0 where
  ean13 ean8 upc_a itf14 gs1_128 internal weighed unknown : Symbology

-- Why a code could not be used.
pub data Reason : Type 0 where
  no_code no_quantity no_gtin : Reason
  wrong_check_digit : ℕ → ℕ → Reason
  not_configured : Text → Reason
  unsupported : Text → Reason

pub record ScanResult : Type 0 where
  pub raw : Text
  pub symbology : Symbology
  pub lookup_key : Option Text
  pub qty_milli : Option ℕ
  pub is_case : Bool
  pub batch : Option Text
  pub expiry : Option Text
  pub error : Option Reason

-- `ScanResult(raw=..., symbology=..., lookup_key=...)`, the other fields by default
abbrev pub scan : Text → Symbology → Text → ScanResult
scan raw symbology key = record {
  raw = raw;
  symbology = symbology;
  lookup_key = some key;
  qty_milli = none;
  is_case = false;
  batch = none;
  expiry = none;
  error = none;
}

-- `_unusable`
abbrev pub unusable : Text → Symbology → Reason → ScanResult
unusable raw symbology reason = record {
  raw = raw;
  symbology = symbology;
  lookup_key = none;
  qty_milli = none;
  is_case = false;
  batch = none;
  expiry = none;
  error = some reason;
}

-- `weighed_barcode`, with the item code and the quantity as numbers that are not negative
unfoldable pub weighed_barcode : ℕ → ℕ → Result BarcodeError Text
unfolding with_check_digit
weighed_barcode code qty_milli = do
  raise_if (not (leb code max_weighed_item_code)) item_code_range
  raise_if (not (leb 1 qty_milli && leb qty_milli max_weighed_qty_milli)) quantity_range
  with_check_digit
      (weighed_prefix ++ (padded weighed_item_digits code ++ padded weighed_qty_digits qty_milli))

unfoldable pub internal_barcode : ℕ → Result BarcodeError Text
unfolding with_check_digit
internal_barcode code = do
  raise_if (not (leb code 9_999_999_999)) item_code_range
  with_check_digit (internal_prefix ++ padded 10 code)
