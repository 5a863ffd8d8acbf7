-- ===== src/Receiving.antt =====
-- app/domain/receiving.py: the movements of stock, in integer thousandths of a unit.
pub mod Ledger
use pos.Prelude.{
  ℕ, ℤ, nonneg, ◌+ℤ◌, ◌-ℤ◌, ◌*ℤ◌, ltb_ℤ, eqb_ℤ, ◌==◌, Bool, List, [], ◌∷◌, length, Result, ok, err,
  ◌>>=◌, ◌>>◌, raise_if, Text,
}
use pos.Barcode.Parser.{strip}

pub data ReceivingError : Type 0 where
  zero_movement too_few_packs pack_size_range negative_count nothing_to_correct no_reason :
      ReceivingError

pub data MovementReason : Type 0 where
  receipt count adjustment : MovementReason

pub record Movement : Type 0 where
  pub product_id : Text
  pub delta_milli : ℤ
  pub reason : MovementReason
  pub note : Text

-- `Movement.__post_init__`
unfoldable pub check_movement : Movement → Result ReceivingError Movement
check_movement m = do raise_if (eqb_ℤ m.delta_milli (nonneg 0)) zero_movement; ok m

abbrev pub quantity_scale : ℤ
quantity_scale = nonneg 1000

unfoldable pub units_to_milli : ℤ → ℤ
units_to_milli units = units *ℤ quantity_scale

-- The function `receipt` of the source.
unfoldable pub receive : Text → ℤ → ℤ → Result ReceivingError Movement
unfolding check_movement units_to_milli
receive product_id packs pack_size = do
  raise_if (ltb_ℤ packs (nonneg 1)) too_few_packs
  raise_if (ltb_ℤ pack_size (nonneg 1)) pack_size_range
  check_movement (record {
    product_id = product_id;
    delta_milli = units_to_milli (packs *ℤ pack_size);
    reason = receipt;
    note = [];
  })

-- The function `count`.
unfoldable pub count_stock : Text → ℤ → ℤ → Result ReceivingError Movement
unfolding check_movement
count_stock product_id counted_milli expected_milli = do
  raise_if (ltb_ℤ counted_milli (nonneg 0)) negative_count
  let delta = counted_milli -ℤ expected_milli
  raise_if (eqb_ℤ delta (nonneg 0)) nothing_to_correct
  check_movement
      (record { product_id = product_id; delta_milli = delta; reason = count; note = [] })

-- The function `adjustment`.
unfoldable pub adjust : Text → ℤ → Text → Result ReceivingError Movement
unfolding check_movement
adjust product_id delta_milli note = do
  raise_if (length (strip note) == 0) no_reason
  check_movement (record {
    product_id = product_id;
    delta_milli = delta_milli;
    reason = adjustment;
    note = strip note;
  })
