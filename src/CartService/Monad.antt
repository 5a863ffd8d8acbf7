-- ===== src/CartService/Monad.antt =====
-- Statements that read and write a store and may raise: what was written before an exception stays
-- written, as it does on the objects of a Python program.
use pos.Prelude.{Result, ok, err}

abbrev pub Action {ℓ} : Type ℓ → Type ℓ → Type ℓ → Type ℓ
Action S E A = S → Result E A × S

module _ {ℓ} {S E : Type ℓ} where
  abbrev pub continue : {A B : Type ℓ} → (A → Action S E B) → Result E A × S → Result E B × S
  continue next (err raised, store) = (err raised, store)
  continue next (ok value, store) = next value store

  infixl 5 ◌>>=◌ ◌>>◌
  abbrev pub ◌>>=◌ : {A B : Type ℓ} → Action S E A → (A → Action S E B) → Action S E B
  (first >>= next) store = continue next (first store)

  abbrev pub ◌>>◌ : {A B : Type ℓ} → Action S E A → Action S E B → Action S E B
  (first >> next) store = continue (λ _. next) (first store)

  -- A call that only returns or raises.
  abbrev pub call : {A : Type ℓ} → Result E A → Action S E A
  call result store = (result, store)

  abbrev pub done : {A : Type ℓ} → A → Action S E A
  done value store = (ok value, store)

  abbrev pub raise : {A : Type ℓ} → E → Action S E A
  raise raised store = (err raised, store)
