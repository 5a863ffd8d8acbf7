-- ===== src/Checkout/Outcomes.antt =====
-- What `post` of app/services/sale_service.py may do to a shop.
use pos.Prelude.{ℕ, suc, ◌≡◌, Bool, true, false, Option, none, some, Result, ok, err, Text}
use pos.Payments.{is_settled}
use pos.Money.{Money}
use pos.CartService.{CartServiceError, OpenCart, Till, balance, get}
use pos.CartService.Store.{basket, SameBaskets, SameOthers}
use pos.Sales.{Database, integrity_error, PostedSale, Posting}
use pos.Sales.Repository.{is_refused, posted_sale, totals_balance}
use pos.Sales.Balanced.{IsPosted}
use pos.Checkout.{
  CheckoutError, cart_service_error, sale_not_settled, no_open_shift, sales_error, Shop,
}
use pos.Checkout.Handlers.{change_for}
use pos.Checkout.Posting.{Settings, next_receipt_no, posting_of}

-- The database after `next_receipt_no`.
abbrev pub numbered_db : Database → Database
numbered_db db = record db { receipt_seq = suc db.receipt_seq }

-- What `change_for` answers in `post`: after `get`, and after the receipt number was drawn.
abbrev pub change_then : ℕ → Text → Shop → Result CheckoutError Money × Shop
change_then now cart_id shop =
    change_for now cart_id
      (record { till = (get cart_id now shop.till).1; db = numbered_db shop.db })

module _ (new_id : ℕ → Text) (tracks_stock : Text → Bool) (settings : Settings) where
  -- `post` comes as far as the receipt number: it got the cart, which is settled, and a shift is open.
  pub record IsDue (shop : Shop) (shift : Option Text) (now : ℕ) (cart_id : Text) (o : OpenCart)
      (session_id : Text) : Type 0 where
    pub there : (get cart_id now shop.till).0 ≡ ok o
    pub settled : is_settled (balance o) ≡ true
    pub opened : shift ≡ some session_id

  -- The posting that `post` makes of the cart: its basket, its attempts and its rounding, with the next
  -- receipt number, the open shift and the change.
  pub data IsPosting (shop : Shop) (shift : Option Text) (now : ℕ) (cart_id : Text)
      : Posting → Type 0 where
    posting :
        (o : OpenCart) (session_id receipt_no : Text) (change : Money)
        → IsDue shop shift now cart_id o session_id
        → (next_receipt_no settings shop).0 ≡ ok receipt_no
        → (change_then now cart_id shop).0 ≡ ok change
        → IsPosting shop shift now cart_id
            (posting_of new_id tracks_stock settings o receipt_no session_id change now)

  -- Why `post` raises, and the counter of receipt numbers after it.
  pub data Cause (shop : Shop) (shift : Option Text) (now : ℕ) (cart_id : Text)
      : CheckoutError → ℕ → Type 0 where
    not_there :
        (e : CartServiceError)
        → (get cart_id now shop.till).0 ≡ err e
        → Cause shop shift now cart_id (cart_service_error e) shop.db.receipt_seq
    not_settled :
        (o : OpenCart)
        → (get cart_id now shop.till).0 ≡ ok o
        → is_settled (balance o) ≡ false
        → Cause shop shift now cart_id sale_not_settled shop.db.receipt_seq
    not_open :
        (o : OpenCart)
        → (get cart_id now shop.till).0 ≡ ok o
        → is_settled (balance o) ≡ true
        → shift ≡ none
        → Cause shop shift now cart_id no_open_shift shop.db.receipt_seq
    no_change :
        (o : OpenCart) (session_id : Text) (e : CheckoutError)
        → IsDue shop shift now cart_id o session_id
        → (change_then now cart_id shop).0 ≡ err e
        → Cause shop shift now cart_id e (suc shop.db.receipt_seq)
    tables_refuse :
        (p : Posting)
        → IsPosting shop shift now cart_id p
        → is_refused p (numbered_db shop.db) ≡ true
        → Cause shop shift now cart_id (sales_error integrity_error) (suc shop.db.receipt_seq)

  -- What `post` makes of a shop.
  pub data Outcome (shop : Shop) (shift : Option Text) (now : ℕ) (cart_id : Text)
      : Result CheckoutError PostedSale × Shop → Type 0 where
    refuses :
        (e : CheckoutError) (till : Till) (n : ℕ)
        → Cause shop shift now cart_id e n
        → SameBaskets shop.till till
        → Outcome shop shift now cart_id
            (err e, record { till = till; db = record shop.db { receipt_seq = n } })
    posts :
        (p : Posting) (till : Till) (db : Database)
        → IsPosting shop shift now cart_id p
        → p.cart_id ≡ cart_id
        → basket cart_id shop.till ≡ some p.cart
        → IsPosted p (numbered_db shop.db) db
        → totals_balance cart_id db ≡ true
        → basket cart_id till ≡ none
        → SameOthers cart_id shop.till till
        → Outcome shop shift now cart_id
            (ok (posted_sale new_id tracks_stock p), record { till = till; db = db })
