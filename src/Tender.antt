-- ===== src/Tender.antt =====
-- app/domain/tender.py: what a tender collects of an amount, and the recorded adjustment.
pub mod Rounding
use pos.Prelude.{
  ℤ, nonneg, ◌+ℤ◌, ◌-ℤ◌, ◌*ℤ◌, ltb_ℤ, eqb_ℤ, not, Result, ok, err, ◌>>=◌, ◌>>◌, raise_if,
}
use pos.Money.{Money, zero_money, is_negative, rupee, decimal_div, quantize_to_paise}

pub data TenderMethod : Type 0 where
  cash upi : TenderMethod

pub data TenderError : Type 0 where
  does_not_reconcile negative_outstanding not_covered : TenderError

pub record CashRounding : Type 0 where
  pub outstanding : Money
  pub collected : Money
  pub adjustment : Money

-- `CashRounding(...)` with its `__post_init__`
unfoldable pub new_rounding : Money → Money → Money → Result TenderError CashRounding
new_rounding outstanding collected adjustment = do
  raise_if (not (eqb_ℤ (outstanding +ℤ adjustment) collected)) does_not_reconcile
  ok (record { outstanding = outstanding; collected = collected; adjustment = adjustment })

unfoldable pub round_to_rupee : Money → Money
round_to_rupee amount = quantize_to_paise (decimal_div amount rupee) *ℤ nonneg rupee

unfoldable pub round_cash_tender : Money → Result TenderError CashRounding
round_cash_tender outstanding = do
  raise_if (is_negative outstanding) negative_outstanding
  let collected = round_to_rupee outstanding
  new_rounding outstanding collected (collected -ℤ outstanding)

unfoldable pub no_rounding : Money → Result TenderError CashRounding
no_rounding outstanding = new_rounding outstanding outstanding zero_money

unfoldable pub rounding_for : Money → TenderMethod → Result TenderError CashRounding
unfolding round_cash_tender no_rounding
rounding_for outstanding cash = round_cash_tender outstanding
rounding_for outstanding upi = no_rounding outstanding

unfoldable pub change_due : Money → Money → Result TenderError Money
change_due collected owed = do raise_if (ltb_ℤ collected owed) not_covered; ok (collected -ℤ owed)
