-- ===== src/CartService/Store.antt =====
-- The dict of carts of app/services/cart_service.py as a map from identifiers to baskets.
use pos.Prelude.{
  ℕ, ◌≡◌, refl, sym, ap, ◌∙◌, inl, inr, Bool-cases, true, false, if◌then◌else◌, List, [], ◌∷◌,
  Option, Option-cases, none, some, Result, Result-cases, ok, err, Text, text_eq, text_eq→eq,
  text_eq_refl, codes,
}
use mathlib.Core.Option.{some-injective}
use pos.Cart.{Cart}
use pos.Payments.{expire_stale}
use pos.CartService.{
  CartServiceError, cart_not_found, payment_error, OpenCart, Till, find_cart, save_cart, drop_cart,
  discard, save, expire_attempts, get,
}

abbrev pub cart_in : Option OpenCart → Option Cart
cart_in none = none
cart_in (some o) = some o.cart

-- The basket of an identifier, if there is one.
abbrev pub basket : Text → Till → Option Cart
basket key till = cart_in (find_cart key till.carts)

-- No basket is changed, added or taken away.
abbrev pub SameBaskets : Till → Till → Type 0
SameBaskets before after = (key : Text) → basket key after ≡ basket key before

-- No basket but that of `id` is.
abbrev pub SameOthers : Text → Till → Till → Type 0
SameOthers id before after =
    (key : Text) → text_eq id key ≡ false → basket key after ≡ basket key before

find_cart-id :
    (key : Text) (carts : List OpenCart) {o : OpenCart} → find_cart key carts ≡ some o → o.id ≡ key
unfolding find_cart
find_cart-id key [] h = cc
find_cart-id key (p ∷ carts) {o} h = elim (Bool-cases (text_eq p.id key)) [
  | inl e ↦ rw (← some-injective p o (rw e at h)) (text_eq→eq p.id key e)
  | inr e ↦ find_cart-id key carts (rw e at h)
]

differ : (a b c : Text) → text_eq a b ≡ false → text_eq a c ≡ true → text_eq b c ≡ false
differ a b c ab ac = elim (Bool-cases (text_eq b c)) [
  | inr bc ↦ bc
  | inl bc ↦
      let same : a ≡ b = text_eq→eq a c ac ∙ sym (text_eq→eq b c bc) in
      cc (rw same at ab, text_eq_refl b)
]

find_cart-save_cart :
    (o : OpenCart) (key : Text) (carts : List OpenCart)
    → find_cart key (save_cart o carts) ≡ (if text_eq o.id key then some o else find_cart key carts)
unfolding find_cart save_cart
find_cart-save_cart o key [] = refl
find_cart-save_cart o key (p ∷ carts) = elim (Bool-cases (text_eq p.id o.id)) [
  | inl e ↦ elim (Bool-cases (text_eq o.id key)) [
    | inl k ↦ rw (e, k) refl
    | inr k ↦
        let other : text_eq p.id key ≡ false = rw (text_eq→eq p.id o.id e) k in
        rw (e, k, other) refl
  ]
  | inr e ↦ elim (Bool-cases (text_eq p.id key)) [
    | inl k ↦
        let other : text_eq o.id key ≡ false = differ p.id o.id key e k in rw (e, k, other) refl
    | inr k ↦ rw (e, k) (find_cart-save_cart o key carts)
  ]
]

find_cart-drop_cart :
    (id key : Text) (carts : List OpenCart)
    → find_cart key (drop_cart id carts) ≡ (if text_eq id key then none else find_cart key carts)
unfolding find_cart drop_cart
find_cart-drop_cart id key [] = elim (Bool-cases (text_eq id key)) [
  | inl k ↦ rw k refl
  | inr k ↦ rw k refl
]
find_cart-drop_cart id key (p ∷ carts) = elim (Bool-cases (text_eq p.id id)) [
  | inl e ↦ elim (Bool-cases (text_eq id key)) [
    | inl k ↦ rw e (find_cart-drop_cart id key carts ∙ rw k refl)
    | inr k ↦
        let other : text_eq p.id key ≡ false = rw (text_eq→eq p.id id e) k in
        rw (e, other) (find_cart-drop_cart id key carts ∙ rw k refl)
  ]
  | inr e ↦ elim (Bool-cases (text_eq p.id key)) [
    | inl k ↦ let other : text_eq id key ≡ false = differ p.id id key e k in rw (e, k, other) refl
    | inr k ↦ rw (e, k) (find_cart-drop_cart id key carts)
  ]
]

-- A cart that is discarded is gone.
pub basket-discard : (id : Text) (till : Till) → basket id (discard id till).1 ≡ none
unfolding discard
basket-discard id till = rw (find_cart-drop_cart id id till.carts, text_eq_refl id) refl

-- Every other basket stays.
pub discard-SameOthers : (id : Text) (till : Till) → SameOthers id till (discard id till).1
unfolding discard
discard-SameOthers id till key other = rw (find_cart-drop_cart id key till.carts, other) refl

-- Storing a cart sets the basket of its identifier, and no other.
pub basket-save :
    (o : OpenCart) (key : Text) (till : Till)
    → basket key (save o till).1 ≡ (if text_eq o.id key then some o.cart else basket key till)
basket-save o key till = elim (Bool-cases (text_eq o.id key)) [
  | inl k ↦ rw (find_cart-save_cart o key till.carts, k) refl
  | inr k ↦ rw (find_cart-save_cart o key till.carts, k) refl
]

pub save-SameOthers : (o : OpenCart) (till : Till) → SameOthers o.id till (save o till).1
save-SameOthers o till key other = basket-save o key till ∙ rw other refl

-- A cart that is found and stored again with its basket leaves every basket as it is.
save-SameBaskets :
    (o : OpenCart) (till : Till) → basket o.id till ≡ some o.cart → SameBaskets till (save o till).1
save-SameBaskets o till h key = elim (Bool-cases (text_eq o.id key)) [
  | inl k ↦
      basket-save o key till ∙ rw k (sym h ∙ ap (λ id. basket id till) (text_eq→eq o.id key k))
  | inr k ↦ save-SameOthers o till key k
]

-- What `get` does: it raises, or finds the cart and lets its attempts expire. No basket changes.
pub data Got (id : Text) (now : ℕ) (till : Till)
    : Result CartServiceError OpenCart × Till → Type 0 where
  refused :
      (e : CartServiceError) (after : Till)
      → SameBaskets till after
      → Got id now till (err e, after)
  got :
      (before o : OpenCart) (after : Till)
      → find_cart id till.carts ≡ some before
      → expire_stale (codes "attempt expired") now before.attempts ≡ ok o.attempts
      → o.id ≡ id
      → basket id till ≡ some o.cart
      → SameBaskets till after
      → Got id now till (ok o, after)

pub get-Got : (id : Text) (now : ℕ) (till : Till) → Got id now till (get id now till)
unfolding get expire_attempts
get-Got id now till = elim (Option-cases (find_cart id till.carts)) [
  | inl e ↦ rw (get, e) (refused cart_not_found till (λ key. refl))
  | inr (before, e) ↦
      elim (Result-cases (expire_stale (codes "attempt expired") now before.attempts)) [
        | inl (x, f) ↦ rw (get, e, f) (refused (payment_error x) till (λ key. refl))
        | inr (attempts, f) ↦
            let o : OpenCart = record before { attempts = attempts } in
            let same : before.id ≡ id = find_cart-id id till.carts e in
            let was : basket id till ≡ some before.cart = rw e refl in
            rw (get, e, f)
              (got before o (save o till).1 e f same was (save-SameBaskets o till (rw same was)))
      ]
]

pub get-SameBaskets : (id : Text) (now : ℕ) (till : Till) → SameBaskets till (get id now till).1
get-SameBaskets id now till = same (get-Got id now till)
  where
    same : {q : Result CartServiceError OpenCart × Till} → Got id now till q → SameBaskets till q.1
    same (refused e after h) = h
    same (got before o after found unexpired its here h) = h
