-- ===== src/Barcode/Gs1.antt =====
-- `_parse_gs1_128` of app/domain/barcode.py. The rest of the code from `position` on stands for the
-- position, and the loop has fuel: Total shows that one more than the length is enough.
pub mod Total
use pos.Prelude.{
  ℕ, zero, suc, ◌-◌, ◌*◌, ◌/◌, ◌^◌, ◌==◌, leb, ltb, Bool, true, false, ◌&&◌, not, if◌then◌else◌,
  List, [], ◌∷◌, any, length, get_elem?, take, drop, Option, none, some, Result, ok, err, ◌>>=◌,
  ◌>>◌, raise_if, Text, text_eq,
}
use pos.Barcode.{
  BarcodeError, not_numeric, index_error, value_error, out_of_fuel, is_digit, isdigit, digit_value,
  int_of, Symbology, Reason, ScanResult, scan, unusable,
}

abbrev pub group_separator : ℕ
group_separator = 29

abbrev pub max_variable : ℕ
max_variable = 20

-- "310", "01", "17", "11", "10" and "21"
abbrev pub net_weight_ai : Text
net_weight_ai = 51 ∷ 49 ∷ 48 ∷ []

abbrev pub gtin_ai : Text
gtin_ai = 48 ∷ 49 ∷ []

abbrev pub expiry_ai : Text
expiry_ai = 49 ∷ 55 ∷ []

abbrev pub production_ai : Text
production_ai = 49 ∷ 49 ∷ []

abbrev pub batch_ai : Text
batch_ai = 49 ∷ 48 ∷ []

abbrev pub serial_ai : Text
serial_ai = 50 ∷ 49 ∷ []

-- `_FIXED_LENGTH_AIS.get(ai)`
unfoldable pub fixed_length : Text → Option ℕ
fixed_length ai =
    if text_eq ai gtin_ai
    then some 14
    else (if text_eq ai expiry_ai
        then some 6
        else (if text_eq ai production_ai then some 6 else none))

-- `ai in _VARIABLE_LENGTH_AIS`
unfoldable pub is_variable : Text → Bool
is_variable ai = if text_eq ai batch_ai then true else text_eq ai serial_ai

-- `code.startswith(prefix)`
abbrev pub starts_with : Text → Text → Bool
starts_with prefix code = text_eq (take (length prefix) code) prefix

-- `_looks_like_gs1_128`
unfoldable pub looks_like_gs1_128 : Text → Bool
looks_like_gs1_128 code =
    if any (λ c. c == group_separator) code
    then true
    else starts_with gtin_ai code && ltb 14 (length code) && isdigit code

-- `_weight_to_milli`
unfoldable pub weight_to_milli : Text → ℕ → Result BarcodeError ℕ
weight_to_milli value decimals = do
  raise_if (not (isdigit value)) not_numeric
  ok (
      if leb decimals 3
      then int_of value * 10 ^ (3 - decimals)
      else int_of value / 10 ^ (decimals - 3))

-- What the loop has read.
pub record Fields : Type 0 where
  pub gtin : Option Text
  pub batch : Option Text
  pub expiry : Option Text
  pub qty_milli : Option ℕ

-- The loop ends with the fields, or at an identifier that it does not support.
pub data Ending : Type 0 where
  done : Fields → Ending
  stopped_at : Text → Ending

-- The length of a variable field: up to the next separator, or else 20 characters at most.
unfoldable pub until_separator : Text → Option ℕ
until_separator [] = none
until_separator (c ∷ s) =
    let rest = until_separator s in
    if c == group_separator then some 0 else (elim rest [ none ↦ none | some n ↦ some (suc n) ])

unfoldable pub field_length : Text → ℕ
unfolding until_separator
field_length s = elim (until_separator s) [ none ↦ max_variable | some n ↦ n ]

-- `int(code[position + 3])`
unfoldable pub decimals_at : Text → Result BarcodeError ℕ
decimals_at rest = elim (get_elem? rest 3) [
  | none ↦ err index_error
  | some c ↦ if is_digit c then ok (digit_value c) else err value_error
]

unfoldable pub store_fixed : Text → Text → Fields → Fields
store_fixed ai value f =
    if text_eq ai gtin_ai
    then record f { gtin = some value }
    else (if text_eq ai expiry_ai then record f { expiry = some value } else f)

unfoldable pub store_variable : Text → Text → Fields → Fields
store_variable ai value f = if text_eq ai batch_ai then record f { batch = some value } else f

-- One round of the loop on a rest that is not empty: the new rest and fields, or the end.
pub data Round : Type 0 where
  go_on : Text → Fields → Round
  stop : Text → Round

unfoldable pub read_weight : Text → Fields → Result BarcodeError Round
unfolding decimals_at weight_to_milli
read_weight rest f = do
  decimals ← decimals_at rest
  qty ← weight_to_milli (take 6 (drop 4 rest)) decimals
  ok (go_on (drop 10 rest) (record f { qty_milli = some qty }))

unfoldable pub read_field : Text → Fields → Round
read_field rest f =
    let ai = take 2 rest in
    let after = drop 2 rest in
    elim (fixed_length ai) [
      | some n ↦ go_on (drop n after) (store_fixed ai (take n after) f)
      | none ↦
          if is_variable ai
          then go_on (drop (field_length after) after)
              (store_variable ai (take (field_length after) after) f)
          else stop ai
    ]

unfoldable pub round : ℕ → Text → Fields → Result BarcodeError Round
round c s f =
    if c == group_separator
    then ok (go_on s f)
    else (if text_eq (take 3 (c ∷ s)) net_weight_ai
        then read_weight (c ∷ s) f
        else ok (read_field (c ∷ s) f))

-- What follows a round, where `loop` is the loop from the next round on.
abbrev pub after_round :
    (Text → Fields → Result BarcodeError Ending)
    → Result BarcodeError Round
    → Result BarcodeError Ending
after_round loop (err e) = err e
after_round loop (ok (stop ai)) = ok (stopped_at ai)
after_round loop (ok (go_on rest f)) = loop rest f

unfoldable pub gs1_loop : ℕ → Text → Fields → Result BarcodeError Ending
gs1_loop fuel [] f = ok (done f)
gs1_loop zero (c ∷ s) f = err out_of_fuel
gs1_loop (suc fuel) (c ∷ s) f = after_round (gs1_loop fuel) (round c s f)

abbrev pub no_fields : Fields
no_fields = record { gtin = none; batch = none; expiry = none; qty_milli = none }

-- `gtin.lstrip("0")`
unfoldable pub strip_zeros : Text → Text
strip_zeros [] = []
strip_zeros (c ∷ s) = let rest = strip_zeros s in if c == 48 then rest else c ∷ s

abbrev pub zero_first : Text → Bool
zero_first [] = false
zero_first (c ∷ s) = c == 48

unfoldable pub gs1_result : Text → Ending → ScanResult
gs1_result raw (stopped_at ai) = unusable raw Symbology.gs1_128 (Reason.unsupported ai)
gs1_result raw (done f) = elim f.gtin [
  | none ↦ unusable raw Symbology.gs1_128 Reason.no_gtin
  | some gtin ↦
      let padded_gtin = length gtin == 14 && zero_first gtin in
      record (scan raw Symbology.gs1_128 (if padded_gtin then strip_zeros gtin else gtin)) {
        qty_milli = f.qty_milli;
        batch = f.batch;
        expiry = f.expiry;
        is_case = length gtin == 14 && not (zero_first gtin);
      }
]

unfoldable pub parse_gs1_128 : Text → Text → Result BarcodeError ScanResult
parse_gs1_128 raw code = do
  ending ← gs1_loop (suc (length code)) code no_fields
  ok (gs1_result raw ending)
