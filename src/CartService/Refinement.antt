-- ===== src/CartService/Refinement.antt =====
-- The handlers of app/services/cart_service.py against the operations of a basket: each changes one
-- basket by one operation, or none.
use pos.Prelude.{
  ℕ, ◌≡◌, ◌∙◌, ◌||◌, not, Bool, true, false, List, Option, none, some, Result, ok, err, Text, arith,
  codes,
}
use pos.Money.{is_positive}
use pos.Cart.{Cart, is_nil}
use pos.Cart.History.{Step}
use pos.Payments.{PaymentAttempt, PaymentError, approved_total, pending_of, expire_stale}
use pos.CartService.Monad.{continue, ◌>>=◌}
use pos.CartService.{CartServiceError, OpenCart, Till, Handler, find_cart, get}
use pos.CartService.Store.{basket, SameBaskets, SameOthers, Got, refused, got, get-Got}
use pos.CartService.Handlers.{check_unlocked}

-- A payment was approved, or one is pending.
abbrev pub holds_money : List PaymentAttempt → Bool
holds_money attempts = is_positive (approved_total attempts) || not (is_nil (pending_of attempts))

abbrev pub held : Result PaymentError (List PaymentAttempt) → Bool
held (err e) = true
held (ok attempts) = holds_money attempts

abbrev pub frozen_cart : Option OpenCart → ℕ → Bool
frozen_cart none now = true
frozen_cart (some o) now = held (expire_stale (codes "attempt expired") now o.attempts)

-- Whether there is no such cart, or money is held against it once the overdue attempts expired.
abbrev pub is_frozen : Text → ℕ → Till → Bool
is_frozen id now till = frozen_cart (find_cart id till.carts) now

-- What a handler does: it raises and changes no basket, or it changes one by one operation.
pub data Effect (id : Text) (now : ℕ) (before : Till)
    : Result CartServiceError OpenCart × Till → Type 0 where
  refuses :
      (e : CartServiceError) (after : Till)
      → SameBaskets before after
      → Effect id now before (err e, after)
  edits :
      (c : Cart) (o : OpenCart) (after : Till)
      → is_frozen id now before ≡ false
      → basket id before ≡ some c
      → Step c o.cart
      → basket id after ≡ some o.cart
      → SameOthers id before after
      → Effect id now before (ok o, after)

-- The same of what follows `get`, on the cart that it returned.
pub data Body (o : OpenCart) (before : Till)
    : Result CartServiceError OpenCart × Till → Type 0 where
  refuses :
      (e : CartServiceError) (after : Till)
      → SameBaskets before after
      → Body o before (err e, after)
  edits :
      (new : OpenCart) (after : Till)
      → check_unlocked o.attempts ≡ ok tt
      → Step o.cart new.cart
      → basket o.id after ≡ some new.cart
      → SameOthers o.id before after
      → Body o before (ok new, after)

unlocked-open :
    (attempts : List PaymentAttempt)
    → check_unlocked attempts ≡ ok tt
    → holds_money attempts ≡ false
unfolding check_unlocked
unlocked-open attempts h = ground arith

Body-Effect :
    (id : Text) (now : ℕ) (till after : Till) (found o : OpenCart)
    {p : Result CartServiceError OpenCart × Till}
    → find_cart id till.carts ≡ some found
    → expire_stale (codes "attempt expired") now found.attempts ≡ ok o.attempts
    → o.id ≡ id
    → basket id till ≡ some o.cart
    → SameBaskets till after
    → Body o after p
    → Effect id now till p
Body-Effect id now till after found o at expired same was kept (Body.refuses e last k) =
    Effect.refuses e last (λ key. k key ∙ kept key)
Body-Effect id now till after found o at expired same was kept
      (Body.edits new last unlocked step made k) =
    Effect.edits o.cart new last (rw (at, expired) (unlocked-open o.attempts unlocked)) was step
      (rw same at made) (λ key other. k key (rw same other) ∙ kept key)

continue-Effect :
    (id : Text) (now : ℕ) (till : Till) (next : OpenCart → Handler OpenCart)
    → ((o : OpenCart) (t : Till) → Body o t (next o t))
    → {p : Result CartServiceError OpenCart × Till} → Got id now till p
    → Effect id now till (continue next p)
continue-Effect id now till next b (refused e after k) = Effect.refuses e after k
continue-Effect id now till next b (got found o after at expired same was kept) =
    Body-Effect id now till after found o at expired same was kept (b o after)

pub get-Effect :
    (id : Text) (now : ℕ) (till : Till) (next : OpenCart → Handler OpenCart)
    → ((o : OpenCart) (t : Till) → Body o t (next o t))
    → Effect id now till ((get id now >>= next) till)
get-Effect id now till next b = continue-Effect id now till next b (get-Got id now till)
