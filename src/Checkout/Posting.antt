-- ===== src/Checkout/Posting.antt =====
-- `post` of app/services/sale_service.py, and the receipt numbers of
-- app/data/repositories/terminal.py.
use pos.Prelude.{
  ℕ, zero, suc, ◌^◌, ◌/◌, ◌%◌, ltb, Bool, not, if◌then◌else◌, [], ◌∷◌, ◌++◌, Option, none, some,
  Result, ok, raise_if, map_err, Text, codes,
}
use pos.Money.{Money}
use pos.Barcode.{padded, digit_char}
use pos.Payments.{is_settled, needs_review}
use pos.CartService.{OpenCart, balance, get, discard}
use pos.CartService.Monad.{◌>>=◌, ◌>>◌, call, done, raise}
use pos.Sales.{
  Database, SaleStatus, completed, requires_review, PostedSale, Posting, SaleRow, SaleLineRow,
  PaymentRow, numbered, is_cash,
}
use pos.Sales.Repository.{post_sale}
use pos.Checkout.{sale_not_settled, no_open_shift, sales_error}
use pos.Checkout.Handlers.{Operation, on_carts, change_for}

pub record Settings : Type 0 where
  pub store_code : Text
  pub terminal_code : Text
  pub store_name : Text
  pub store_gstin : Text

-- `str(n)`, with one round more than the number has digits.
unfoldable pub decimal_from : ℕ → ℕ → Text
decimal_from zero n = []
decimal_from (suc fuel) n =
    let rest = decimal_from fuel (n / 10) in
    (if ltb n 10 then [] else rest) ++ digit_char (n % 10) ∷ []

-- `f"{n:06d}"`
unfoldable pub six_digits : ℕ → Text
unfolding decimal_from
six_digits n = if ltb n (10 ^ 6) then padded 6 n else decimal_from (suc n) n

-- `next_receipt_no`, whose counter is committed by itself
unfoldable pub next_receipt_no : Settings → Operation Text
next_receipt_no settings shop =
    let n = suc shop.db.receipt_seq in
    (
      ok (settings.store_code ++ codes "-" ++ settings.terminal_code ++ codes "-" ++ six_digits n),
      record shop { db = record shop.db { receipt_seq = n } },
    )

-- A call of the repository.
abbrev pub on_sales :
    {A : Type 0} → (Database → Result pos.Sales.SalesError A × Database) → Operation A
on_sales write shop =
    let (result, db) = write shop.db in (map_err sales_error result, record shop { db = db })

abbrev pub shift_or_raise : Option Text → Operation Text
shift_or_raise none = raise no_open_shift
shift_or_raise (some shift) = done shift

module _ (new_id : ℕ → Text) (tracks_stock : Text → Bool) (settings : Settings) where
  abbrev pub posting_of : OpenCart → Text → Text → Money → ℕ → Posting
  posting_of o receipt_no shift change now = record {
    cart = o.cart;
    cart_id = o.id;
    store_id = o.store_id;
    terminal_id = settings.terminal_code;
    cashier_id = o.cashier_id;
    receipt_no = receipt_no;
    attempts = o.attempts;
    rounding = o.rounding;
    change_due = change;
    client_created_at = o.opened_at;
    posted_at = now;
    session_id = some shift;
    in_doubt = needs_review o.attempts;
  }

  -- The transaction of `post`, and what follows it.
  abbrev pub store_sale : OpenCart → Text → Text → Text → ℕ → Money → Operation PostedSale
  store_sale o cart_id receipt_no shift now change = do
    sale ← on_sales (post_sale new_id tracks_stock (posting_of o receipt_no shift change now))
    on_carts (discard cart_id)
    done sale

  -- `post` of the cart that it got; `shift` is what `open_shift` answers, none where it raises.
  abbrev pub post_cart : Option Text → ℕ → Text → OpenCart → Operation PostedSale
  post_cart shift now cart_id o = do
    call (raise_if (not (is_settled (balance o))) sale_not_settled)
    session_id ← shift_or_raise shift
    receipt_no ← next_receipt_no settings
    change ← change_for now cart_id
    store_sale o cart_id receipt_no session_id now change

  unfoldable pub post : Option Text → ℕ → Text → Operation PostedSale
  post shift now cart_id = on_carts (get cart_id now) >>= post_cart shift now cart_id
