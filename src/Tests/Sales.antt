-- ===== src/Tests/Sales.antt =====
-- One sale at the counter: half a kilo of rice, paid in cash with a note of a hundred rupees.
use pos.Prelude.{
  ℕ, zero, suc, Bool, arith, ◌≡◌, refl, ◌≢◌, ◌⊎◌, true, false, ℤ, nonneg, ◌+ℤ◌, ◌≤ℤ◌, sum_by, List,
  [], ◌∷◌, ◌++◌, Option, none, some, Result, ok, err, Text, text_eq, codes, if◌then◌else◌,
}
use pos.Money.{Money}
use pos.Tax.{TaxError}
use pos.Tender.{TenderMethod, CashRounding}
use pos.Cart.{total_before_rounding, tax_breakdown}
use pos.Payments.{approved, PaymentAttempt, is_settled}
use pos.CartService.{OpenCart, Till, find_cart, adjustment_of, balance}
use pos.Receipt.{Receipt, reconciles}
use pos.Sales.{Database, integrity_error, Posting}
use pos.Sales.Repository.{is_refused, posted_sale, post_sale, write_sale}
use pos.Sales.Balanced.{IsReferred, IsPosted, post_sale_lem, write_sale-IsPosted}
use pos.Checkout.{tax_error, Shop}
use pos.Checkout.Handlers.{change_of}
use pos.Checkout.Change.{cash_owed, cash_given, money_in, change_of_lem}
use pos.Checkout.Posting.{Settings, post}
use pos.Checkout.Receipts.{receipt_for_cart, receipt_for_sale}
use pos.Checkout.Reconciles.{IsReprint, receipt_for_cart-reconciles, receipt_for_sale-reconciles}
use pos.Shift.{Direction}
use pos.Register.{SessionRow, MovementRow, Register}
use pos.Tests.Baskets.{one_half, one_half-IsValid, waiting}

-- The n-th identifier is a text of n letters.
abbrev letters : ℕ → Text
letters zero = []
letters (suc n) = 120 ∷ letters n

abbrev always : Text → Bool
always product_id = true

abbrev note : PaymentAttempt
note = record waiting {
  method = TenderMethod.cash;
  amount = nonneg 6200;
  state = approved;
  expires_at = none;
  resolved_at = some 120;
  tendered = some (nonneg 10_000);
}

abbrev up_to_rupees : CashRounding
up_to_rupees = record { outstanding = nonneg 6173; collected = nonneg 6200; adjustment = nonneg 27 }

abbrev paid_cart : OpenCart
paid_cart = record {
  id = codes "c1";
  cart = one_half;
  cashier_id = codes "u1";
  store_id = codes "s1";
  opened_at = 50;
  attempts = note ∷ [];
  rounding = some up_to_rupees;
}

abbrev new_database : Database
new_database = record {
  sales = [];
  sale_lines = [];
  stock_ledger = [];
  payment_attempts = [];
  payments = [];
  reviews = [];
  audit_log = [];
  outbox = record { entries = []; failures = []; next_id = 1; next_failure_id = 1 };
  client_seq = 0;
  receipt_seq = 0;
  drawn = 0;
  session_ids = codes "d1" ∷ [];
}

abbrev counter : Shop
counter = record {
  till = record { carts = paid_cart ∷ []; unknown_scans = some []; terminal_code = codes "T1" };
  db = new_database;
}

abbrev corner : Settings
corner = record {
  store_code = codes "S1";
  terminal_code = codes "T1";
  store_name = codes "Corner";
  store_gstin = [];
}

abbrev rice_sale : Posting
rice_sale = record {
  cart = one_half;
  cart_id = codes "c1";
  store_id = codes "s1";
  terminal_id = codes "T1";
  cashier_id = codes "u1";
  receipt_no = codes "S1-T1-000001";
  attempts = note ∷ [];
  rounding = some up_to_rupees;
  change_due = nonneg 3800;
  client_created_at = 50;
  posted_at = 150;
  session_id = some (codes "d1");
  in_doubt = false;
}

new_database-IsReferred : IsReferred new_database
new_database-IsReferred = record { lines = tt; payments = tt }

paid_cart_settled : is_settled (balance paid_cart) ≡ true
unfolding is_settled pos.Prelude.◌-ℤ◌ ◌+ℤ◌ balance pos.Payments.balance_of pos.Pricing.sum_lines
    pos.Payments.approved_total
paid_cart_settled = refl

note_covers : sum_by cash_owed paid_cart.attempts ≤ℤ sum_by cash_given paid_cart.attempts
unfolding ◌+ℤ◌
note_covers = omega arith

change_of_paid : change_of paid_cart ≡ ok (nonneg 3800)
unfolding change_of pos.Checkout.Handlers.cash_loop ◌+ℤ◌ pos.Tender.change_due pos.Prelude.◌-ℤ◌
    pos.Payments.balance_change balance pos.Payments.balance_of pos.Pricing.sum_lines
    pos.Payments.approved_total
change_of_paid = refl

post_sale_lem_example :
    ((is_refused rice_sale new_database ≡ true)
      × (post_sale letters always rice_sale new_database ≡ (err integrity_error, new_database)))
    ⊎ ((db : Database) × (post_sale letters always rice_sale new_database
          ≡ (ok (posted_sale letters always rice_sale), db))
        × IsPosted rice_sale new_database db)
post_sale_lem_example =
    post_sale_lem letters always rice_sale new_database one_half-IsValid new_database-IsReferred

-- Nothing is in the way of the sale.
is_refused-new : is_refused rice_sale new_database ≡ false
unfolding is_refused pos.Sales.Repository.find_sale text_eq pos.Sales.Repository.repeats
    pos.Sales.Repository.clashes
is_refused-new = refl

-- The tables refuse an attempt that stands in the posting twice.
is_refused-twice : is_refused (record rice_sale { attempts = note ∷ note ∷ [] }) new_database ≡ true
unfolding is_refused pos.Sales.Repository.find_sale text_eq pos.Sales.Repository.repeats
    pos.Sales.Repository.clashes
is_refused-twice = refl

-- They refuse a session that is not there.
is_refused-session :
    is_refused (record rice_sale { session_id = some (codes "d2") }) new_database ≡ true
unfolding is_refused pos.Sales.Repository.find_sale text_eq
is_refused-session = refl

-- The sale is stored with the first receipt number and the change.
post-counter :
    (post letters always corner (some (codes "d1")) 150 (codes "c1") counter).0
    ≡ ok (posted_sale letters always rice_sale)
unfolding post pos.CartService.get find_cart text_eq pos.Payments.expire_stale
    pos.Payments.expire_one pos.Payments.is_expired_at is_settled pos.Prelude.◌-ℤ◌ ◌+ℤ◌ balance
    pos.Payments.balance_of pos.Pricing.sum_lines pos.Payments.approved_total
    pos.Checkout.Posting.next_receipt_no pos.Checkout.Handlers.change_for pos.CartService.save_cart
    pos.Barcode.padded pos.CartService.discard pos.CartService.drop_cart
    pos.CartService.expire_attempts pos.Checkout.Handlers.cash_loop change_of
    pos.Checkout.Posting.decimal_from pos.Checkout.Posting.six_digits pos.Payments.balance_change
    pos.Payments.can_transition pos.Payments.check_attempt pos.Payments.needs_review pos.Payments.to
    pos.Prelude.neg pos.Sales.Repository.find_sale pos.Sales.Repository.insert_attempt
    pos.Sales.Repository.insert_attempts pos.Sales.Repository.insert_line
    pos.Sales.Repository.insert_lines pos.Sales.Repository.insert_sale
    pos.Sales.Repository.insert_trail is_refused post_sale write_sale pos.Sync.Outbox.enqueue
    pos.Tender.change_due pos.Sales.Repository.repeats pos.Sales.Repository.clashes
post-counter = refl

change_of_lem_example :
    (change : Money) × (change_of paid_cart ≡ ok change)
    × (nonneg 0 ≤ℤ change)
    × (total_before_rounding one_half +ℤ adjustment_of (some up_to_rupees) +ℤ change
        ≡ sum_by money_in (note ∷ []))
change_of_lem_example = change_of_lem paid_cart paid_cart_settled note_covers

receipt_for_cart-reconciles_example :
    let made =
      receipt_for_cart corner one_half
        (posted_sale letters always rice_sale)
        (note ∷ [])
        (codes "Asha") in
    ((e : TaxError) × (tax_breakdown one_half ≡ err e) × (made ≡ err (tax_error e)))
    ⊎ ((receipt : Receipt) × (made ≡ ok receipt) × (reconciles receipt ≡ true))
receipt_for_cart-reconciles_example =
    receipt_for_cart-reconciles corner letters always rice_sale (codes "Asha") one_half-IsValid

abbrev written : Database
written = write_sale letters always rice_sale new_database

written-IsPosted : IsPosted rice_sale new_database written
unfolding find_cart pos.Sales.Repository.find_sale
written-IsPosted =
    write_sale-IsPosted letters always rice_sale new_database one_half-IsValid
      new_database-IsReferred refl

receipt_for_sale-reconciles_example :
    IsReprint rice_sale (receipt_for_sale corner (λ id. none) (codes "c1") (codes "till") written)
receipt_for_sale-reconciles_example =
    receipt_for_sale-reconciles corner (λ id. none) (codes "till") rice_sale new_database written
      one_half-IsValid written-IsPosted

abbrev day : SessionRow
day = record {
  id = codes "d1";
  terminal_id = codes "T1";
  user_id = codes "u1";
  opened_at = 10;
  opening_float = nonneg 50_000;
  is_open = true;
  store_id = codes "s1";
}

abbrev tea : MovementRow
tea = record {
  id = codes "m1";
  session_id = codes "d1";
  direction = Direction.out_of;
  amount = nonneg 2000;
  reason = codes "tea";
  actor_id = codes "u1";
  approved_by = none;
  occurred_at = 90;
}

-- The evening of a day with one sale and one payout.
abbrev evening : Register
evening = record {
  db = written;
  sessions = day ∷ [];
  movements = tea ∷ [];
  closes = [];
  trail = [];
}
