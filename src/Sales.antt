-- ===== src/Sales.antt =====
-- app/data/repositories/sales.py: a posted sale as rows of the tables it is written to. A transaction
-- that fails writes nothing. `integrity_error` is what the constraints of the tables raise; `new_id n` is
-- the n-th identifier that is drawn, and the identifiers drawn violate none.
pub mod Repository
pub mod Found
pub mod Posted
pub mod Balanced
use pos.Prelude.{
  ℕ, suc, ℤ, nonneg, ◌+ℤ◌, neg, leb_ℤ, eqb_ℤ, leb, Bool, true, false, ◌&&◌, ◌||◌, not,
  if◌then◌else◌, List, [], ◌∷◌, ◌++◌, any, keep, map, sum_by, sort_by, Option, none, some, Result,
  ok, err, Text, text_eq, codes,
}
use pos.Money.{Money, zero_money}
use pos.Pricing.{PricedLine, line_discount}
use pos.Tender.{TenderMethod, cash, upi, CashRounding}
use pos.Cart.{Cart, totals, total_before_rounding, item_count, is_none}
use pos.Payments.{AttemptState, approved, unknown, state_eq, PaymentAttempt}
use pos.CartService.{adjustment_of}
use pos.Sync.Outbox.{Outbox, enqueue}

pub data SaleStatus : Type 0 where
  completed requires_review : SaleStatus

pub data ReviewOutcome : Type 0 where
  paid not_paid : ReviewOutcome

pub record SaleRow : Type 0 where
  pub id : Text
  pub store_id : Text
  pub terminal_id : Text
  pub session_id : Option Text
  pub receipt_no : Text
  pub cashier_id : Text
  pub status : SaleStatus
  pub subtotal : Money
  pub discount_total : Money
  pub tax_total : Money
  pub rounding_adjustment : Money
  pub grand_total : Money
  pub client_created_at : ℕ

pub record SaleLineRow : Type 0 where
  pub id : Text
  pub sale_id : Text
  pub line_no : ℕ
  pub product_id : Text
  pub barcode_scanned : Option Text
  pub description : Text
  pub qty_milli : ℤ
  pub unit_price : Money
  pub discount_amount : Money
  pub tax_amount : Money
  pub line_total : Money
  pub tax_code : Text
  pub tax_rate_bp : ℤ

-- A row of `stock_ledger` for the reason 'sale'.
pub record StockRow : Type 0 where
  pub id : Text
  pub store_id : Text
  pub product_id : Text
  pub delta_milli : ℤ
  pub ref_id : Text
  pub occurred_at : ℕ
  pub terminal_id : Text
  pub user_id : Text

pub record AttemptRow : Type 0 where
  pub id : Text
  pub sale_id : Text
  pub method : TenderMethod
  pub amount : Money
  pub state : AttemptState
  pub txn_ref : Option Text
  pub qr_payload : Option Text
  pub started_at : Option ℕ
  pub expires_at : Option ℕ
  pub resolved_at : Option ℕ
  pub failure_reason : Option Text

-- A row of `payments`, whose status is 'approved'; `verified` is also the confirmation method,
-- 'immediate' or 'manual_attestation'.
pub record PaymentRow : Type 0 where
  pub id : Text
  pub sale_id : Text
  pub attempt_id : Text
  pub method : TenderMethod
  pub amount : Money
  pub tender_ref : Option Text
  pub confirmed_by : Text
  pub verified : Bool

pub record ReviewRow : Type 0 where
  pub id : Text
  pub sale_id : Text
  pub outcome : ReviewOutcome
  pub note : Option Text
  pub resolved_by : Text
  pub resolved_at : ℕ

-- `after_json`
pub data After : Type 0 where
  posted : Text → Money → Money → ℕ → SaleStatus → After
  reviewed : ReviewOutcome → Option Text → After

pub record AuditRow : Type 0 where
  pub id : Text
  pub actor_id : Text
  pub action : Text
  pub entity_id : Text
  pub after : After
  pub occurred_at : ℕ

pub record Database : Type 0 where
  pub sales : List SaleRow
  pub sale_lines : List SaleLineRow
  pub stock_ledger : List StockRow
  pub payment_attempts : List AttemptRow
  pub payments : List PaymentRow
  pub reviews : List ReviewRow
  pub audit_log : List AuditRow
  pub outbox : Outbox
  pub client_seq : ℕ
  pub receipt_seq : ℕ
  -- how many identifiers were drawn
  pub drawn : ℕ
  -- the identifiers of `register_sessions`
  pub session_ids : List Text

pub data SalesError : Type 0 where
  integrity_error : SalesError

pub record PostedSale : Type 0 where
  pub sale_id : Text
  pub receipt_no : Text
  pub status : SaleStatus
  pub grand_total : Money
  pub rounding_adjustment : Money
  pub change_due : Money
  pub posted_at : ℕ

-- The arguments of `post_sale`.
pub record Posting : Type 0 where
  pub cart : Cart
  pub cart_id : Text
  pub store_id : Text
  pub terminal_id : Text
  pub cashier_id : Text
  pub receipt_no : Text
  pub attempts : List PaymentAttempt
  pub rounding : Option CashRounding
  pub change_due : Money
  pub client_created_at : ℕ
  pub posted_at : ℕ
  pub session_id : Option Text
  pub in_doubt : Bool

abbrev pub is_cash : TenderMethod → Bool
is_cash cash = true
is_cash upi = false

-- `json.dumps` of texts that hold nothing to escape.
abbrev quoted : Text → Text
quoted text = 34 ∷ text ++ 34 ∷ []

abbrev pub json_pair : Text → Text → Text → Text → Text
json_pair k v l w =
    codes "{"
    ++ quoted k
    ++ codes ": "
    ++ quoted v
    ++ codes ", "
    ++ quoted l
    ++ codes ": "
    ++ quoted w
    ++ codes "}"

-- `Cart.numbered`
abbrev pub zip : List ℕ → List PricedLine → List (ℕ × PricedLine)
zip [] lines = []
zip (n ∷ numbers) [] = []
zip (n ∷ numbers) (p ∷ lines) = (n, p) ∷ zip numbers lines

abbrev pub numbered : Cart → List (ℕ × PricedLine)
numbered cart = zip cart.line_numbers cart.lines

abbrev pub adjustment : Posting → Money
adjustment p = adjustment_of p.rounding

abbrev pub grand_total_of : Posting → Money
grand_total_of p = total_before_rounding p.cart +ℤ adjustment p

abbrev pub status_of : Posting → SaleStatus
status_of p = if p.in_doubt then requires_review else completed
