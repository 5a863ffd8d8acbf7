-- ===== src/Sales/Repository.antt =====
-- The writes and reads of app/data/repositories/sales.py.
use pos.Prelude.{
  ℕ, suc, ◌+ℤ◌, neg, leb_ℤ, eqb_ℤ, leb, Bool, true, false, ◌&&◌, ◌||◌, not, if◌then◌else◌, List, [],
  ◌∷◌, ◌++◌, any, all, ◌==◌, keep, map, sum_by, sort_by, Option, none, some, Result, ok, err, Text,
  text_eq, codes,
}
use pos.Money.{Money}
use pos.Pricing.{PricedLine, line_discount}
use pos.Cart.{totals, item_count, is_none}
use pos.Payments.{approved, unknown, state_eq, PaymentAttempt}
use pos.Sync.Outbox.{enqueue}
use pos.Sales.{
  SaleStatus, requires_review, ReviewOutcome, SaleRow, SaleLineRow, StockRow, AttemptRow,
  PaymentRow, posted, reviewed, Database, SalesError, integrity_error, PostedSale, Posting, is_cash,
  json_pair, numbered, adjustment, grand_total_of, status_of,
}

unfoldable pub find_sale : Text → List SaleRow → Option SaleRow
find_sale sale_id [] = none
find_sale sale_id (s ∷ sales) =
    let rest = find_sale sale_id sales in if text_eq s.id sale_id then some s else rest

abbrev pub has_attempt : List AttemptRow → PaymentAttempt → Bool
has_attempt rows a = any (λ r. text_eq r.id a.id) rows

abbrev pub starts : PaymentAttempt → Bool
starts a = not (is_none a.started_at)

-- An attempt whose identifier is stored, or that a later one of the posting has too.
unfoldable pub clashes : List AttemptRow → List PaymentAttempt → Bool
clashes rows [] = false
clashes rows (a ∷ attempts) =
    let rest = clashes rows attempts in
    has_attempt rows a || any (λ b. text_eq b.id a.id) attempts || rest

unfoldable pub repeats : List ℕ → Bool
repeats [] = false
repeats (n ∷ numbers) = let rest = repeats numbers in any (λ m. m == n) numbers || rest

-- A session that is named is one of `register_sessions`.
abbrev pub is_known_session : List Text → Option Text → Bool
is_known_session ids none = true
is_known_session ids (some session_id) = any (λ id. text_eq id session_id) ids

-- What the tables refuse: the keys of `sales`, `sale_lines` and `payment_attempts`, the time at which an
-- attempt was started, which may not be missing, and the session that the sale refers to.
unfoldable pub is_refused : Posting → Database → Bool
is_refused p db =
    not (is_none (find_sale p.cart_id db.sales))
    || any (λ s. text_eq s.receipt_no p.receipt_no) db.sales
    || not (is_known_session db.session_ids p.session_id)
    || repeats p.cart.line_numbers
    || clashes db.payment_attempts p.attempts
    || not (all starts p.attempts)

-- The row of the INSERT INTO sales
abbrev pub sale_row : Posting → SaleRow
sale_row p = record {
  id = p.cart_id;
  store_id = p.store_id;
  terminal_id = p.terminal_id;
  session_id = p.session_id;
  receipt_no = p.receipt_no;
  cashier_id = p.cashier_id;
  status = status_of p;
  subtotal = (totals p.cart).gross;
  discount_total = (totals p.cart).discount_total;
  tax_total = (totals p.cart).tax_total;
  rounding_adjustment = adjustment p;
  grand_total = grand_total_of p;
  client_created_at = p.client_created_at;
}

unfoldable pub insert_sale : Posting → Database → Database
insert_sale p db = record db { sales = db.sales ++ sale_row p ∷ [] }

-- `_next_client_seq`
abbrev pub next_client_seq : Database → Database
next_client_seq db = record db { client_seq = suc db.client_seq }

module _ (new_id : ℕ → Text) (tracks_stock : Text → Bool) where
  -- One round of the loop over the lines: the line, and the movement of a product with stock.
  unfoldable pub insert_line : Posting → ℕ × PricedLine → Database → Database
  insert_line p (line_no, line) db =
      let row : SaleLineRow = record {
        id = new_id db.drawn;
        sale_id = p.cart_id;
        line_no = line_no;
        product_id = line.line.product_id;
        barcode_scanned = line.line.barcode_scanned;
        description = line.line.description;
        qty_milli = line.line.qty_milli;
        unit_price = line.line.unit_price;
        discount_amount = line_discount line;
        tax_amount = line.tax_amount;
        line_total = line.line_total;
        tax_code = line.line.tax_code.code;
        tax_rate_bp = line.line.tax_code.rate_bp;
      } in
      let db' : Database = record db {
        sale_lines = db.sale_lines ++ row ∷ [];
        drawn = suc db.drawn;
      } in
      let movement : StockRow = record {
        id = new_id db'.drawn;
        store_id = p.store_id;
        product_id = line.line.product_id;
        delta_milli = neg line.line.qty_milli;
        ref_id = p.cart_id;
        occurred_at = p.posted_at;
        terminal_id = p.terminal_id;
        user_id = p.cashier_id;
      } in
      if tracks_stock line.line.product_id
      then record db' { stock_ledger = db'.stock_ledger ++ movement ∷ []; drawn = suc db'.drawn }
      else db'

  unfoldable pub insert_lines : Posting → List (ℕ × PricedLine) → Database → Database
  insert_lines p [] db = db
  insert_lines p (l ∷ lines) db = insert_lines p lines (insert_line p l db)

  -- One round of the loop over the attempts: the attempt, and the payment of one that was approved.
  unfoldable pub insert_attempt : Posting → PaymentAttempt → Database → Database
  insert_attempt p a db =
      let row : AttemptRow = record {
        id = a.id;
        sale_id = p.cart_id;
        method = a.method;
        amount = a.amount;
        state = a.state;
        txn_ref = a.txn_ref;
        qr_payload = a.qr_payload;
        started_at = a.started_at;
        expires_at = a.expires_at;
        resolved_at = a.resolved_at;
        failure_reason = a.failure_reason;
      } in
      let db' : Database = record db { payment_attempts = db.payment_attempts ++ row ∷ [] } in
      let payment : PaymentRow = record {
        id = new_id db.drawn;
        sale_id = p.cart_id;
        attempt_id = a.id;
        method = a.method;
        amount = a.amount;
        tender_ref = a.txn_ref;
        confirmed_by = p.cashier_id;
        verified = is_cash a.method;
      } in
      if state_eq a.state approved
      then record db' { payments = db'.payments ++ payment ∷ []; drawn = suc db'.drawn }
      else db'

  unfoldable pub insert_attempts : Posting → List PaymentAttempt → Database → Database
  insert_attempts p [] db = db
  insert_attempts p (a ∷ attempts) db = insert_attempts p attempts (insert_attempt p a db)

  -- The audit row and the row of the outbox.
  unfoldable pub insert_trail : Posting → Database → Database
  insert_trail p db = record db {
    audit_log =
        db.audit_log
        ++ record {
          id = new_id db.drawn;
          actor_id = p.cashier_id;
          action = codes "sale.post";
          entity_id = p.cart_id;
          after =
              posted p.receipt_no (grand_total_of p) (adjustment p) (item_count p.cart)
                (status_of p);
          occurred_at = p.posted_at;
        }
          ∷ [];
    outbox =
        enqueue (codes "sale") p.cart_id
          (json_pair (codes "sale_id") p.cart_id (codes "receipt_no") p.receipt_no) db.client_seq
          p.posted_at db.outbox;
    drawn = suc db.drawn;
  }

  -- The body of the transaction, in its order.
  unfoldable pub write_sale : Posting → Database → Database
  write_sale p db = insert_trail p (
      insert_attempts p p.attempts
        (insert_lines p (numbered p.cart) (insert_sale p (next_client_seq db))))

  abbrev pub posted_sale : Posting → PostedSale
  posted_sale p = record {
    sale_id = p.cart_id;
    receipt_no = p.receipt_no;
    status = status_of p;
    grand_total = grand_total_of p;
    rounding_adjustment = adjustment p;
    change_due = p.change_due;
    posted_at = p.posted_at;
  }

  -- `post_sale`
  unfoldable pub post_sale : Posting → Database → Result SalesError PostedSale × Database
  post_sale p db =
      if is_refused p db then (err integrity_error, db) else (ok (posted_sale p), write_sale p db)

-- `lines_for` and `payments_for`, less the order of the lines
abbrev pub lines_for : Text → Database → List SaleLineRow
lines_for sale_id db = keep (λ l. text_eq l.sale_id sale_id) db.sale_lines

abbrev pub payments_for : Text → Database → List PaymentRow
payments_for sale_id db = keep (λ r. text_eq r.sale_id sale_id) db.payments

-- The tests of `totals_balance`, of the stored sale, the total of its lines and what was paid.
abbrev pub balances_with : Option SaleRow → Money → Money → Bool
balances_with none line_total paid = false
balances_with (some sale) line_total paid =
    eqb_ℤ (line_total +ℤ sale.rounding_adjustment) sale.grand_total && leb_ℤ sale.grand_total paid

unfoldable pub totals_balance : Text → Database → Bool
totals_balance sale_id db =
    balances_with (find_sale sale_id db.sales) (sum_by (λ l. l.line_total) (lines_for sale_id db))
      (sum_by (λ r. r.amount) (payments_for sale_id db))

abbrev pub is_reviewed : Database → SaleRow → Bool
is_reviewed db sale = any (λ r. text_eq r.sale_id sale.id) db.reviews

abbrev is_in_review : SaleStatus → Bool
is_in_review requires_review = true
is_in_review _ = false

-- `disputed_amount`
abbrev pub disputed : Database → SaleRow → Money
disputed db sale =
    sum_by (λ a. a.amount)
      (keep (λ a. text_eq a.sale_id sale.id && state_eq a.state unknown) db.payment_attempts)

unfoldable pub open_reviews : Database → List (SaleRow × Money)
open_reviews db =
    map (λ sale. (sale, disputed db sale))
      (sort_by (λ a b. leb a.client_created_at b.client_created_at)
        (keep (λ sale. is_in_review sale.status && not (is_reviewed db sale)) db.sales))

-- `resolve_review`, which the keys refuse for a sale that is not there or was reviewed.
unfoldable pub resolve_review :
    (ℕ → Text)
    → Text
    → ReviewOutcome
    → Text
    → ℕ
    → Option Text
    → Database
    → Result SalesError Text × Database
resolve_review new_id sale_id outcome resolved_by resolved_at note db =
    let review_id = new_id db.drawn in
    let db' : Database = next_client_seq (record db { drawn = suc (suc db.drawn) }) in
    if is_none (find_sale sale_id db.sales) || any (λ r. text_eq r.sale_id sale_id) db.reviews
    then (err integrity_error, db)
    else (
      ok review_id,
      record db' {
        reviews =
            db.reviews
            ++ record {
              id = review_id;
              sale_id = sale_id;
              outcome = outcome;
              note = note;
              resolved_by = resolved_by;
              resolved_at = resolved_at;
            }
              ∷ [];
        audit_log =
            db.audit_log
            ++ record {
              id = new_id (suc db.drawn);
              actor_id = resolved_by;
              action = codes "sale.review.resolve";
              entity_id = sale_id;
              after = reviewed outcome note;
              occurred_at = resolved_at;
            }
              ∷ [];
        outbox =
            enqueue (codes "sale_review") review_id
              (json_pair (codes "review_id") review_id (codes "sale_id") sale_id)
              (suc db.client_seq) resolved_at db.outbox;
      },
    )
