-- ===== src/Cart/History.antt =====
-- Any sequence of successful operations on a basket: app/domain/cart.py.
use pos.Prelude.{
  ℕ, ◌≤◌, ◌<◌, ◌==◌, ◌≡◌, refl, ℤ, Bool, true, false, Bool-cases, Option-cases, Option, none, some,
  inl, inr, ok, err, arith, sym, ap, ==_iff, ◌∙◌, Result, Result-cases, err-ne-ok, ok-injective,
}
use pos.Pricing.{Discount, LineInput, PricedLine, PricingError, price_line}
use pos.Cart.{
  Cart, mergeable_from, append_line, add_quantity, pricing_error, add, void_line, change_quantity,
  apply_discount,
}
use pos.Cart.Invariant.{IsValid, find}
use pos.Cart.Replacement.{Replaces, replace_line-Replaces}
use pos.Cart.Operations.{void_line_lem, append_line_lem, add-merge}

-- One operation that returned.
pub data Step : Cart → Cart → Type 0 where
  adding : {c d : Cart} (line : LineInput) (merge : Bool) → add line merge c ≡ ok d → Step c d
  voiding : {c d : Cart} (n : ℕ) → void_line n c ≡ ok d → Step c d
  requantifying : {c d : Cart} (n : ℕ) (qty : ℤ) → change_quantity n qty c ≡ ok d → Step c d
  discounting :
      {c d : Cart} (n : ℕ) (discount : Discount) → apply_discount n discount c ≡ ok d → Step c d

pub data Reach (c : Cart) : Cart → Type 0 where
  here : Reach c c
  next : {d e : Cart} → Reach c d → Step d e → Reach c e

-- What any operation leaves true: numbers are never handed out twice.
pub record Keeps (c d : Cart) : Type 0 where
  pub valid : IsValid d
  pub next_grows : c.next_line_no ≤ d.next_line_no
  pub no_reuse : (n : ℕ) → n < c.next_line_no → find n c ≡ none → find n d ≡ none

some-ne-none {ℓ κ} : {A : Type ℓ} {G : Type κ} {o : Option A} {a : A} → o ≡ some a → o ≡ none → G
some-ne-none e f = cc

Replaces-Keeps :
    {c d : Cart} (n : ℕ) (build : PricedLine → Result PricingError LineInput)
    → Replaces n build c d
    → Keeps c d
Replaces-Keeps {c} {d} n build r = record {
  valid = r.valid;
  next_grows = omega (arith, r.same_next);
  no_reuse = λ m below gone. elim (Bool-cases (n == m)) [
    | inl e ↦ some-ne-none r.was (ap (λ k. find k c) ((==_iff n m).0 e) ∙ gone)
    | inr e ↦ r.found m ∙ rw e gone
  ];
}

append_line-err :
    (line : LineInput) (c : Cart) {e : PricingError}
    → price_line line ≡ err e
    → append_line line c ≡ err (pricing_error e)
unfolding append_line
append_line-err line c h = rw h refl

add-append_false : (line : LineInput) (c : Cart) → add line false c ≡ append_line line c
unfolding add
add-append_false line c = refl

add-append_none :
    (line : LineInput) (c : Cart)
    → mergeable_from 0 line c.lines ≡ none
    → add line true c ≡ append_line line c
unfolding add
add-append_none line c h = ground arith

append_line-Keeps :
    (line : LineInput) (c : Cart) {d : Cart} → IsValid c → append_line line c ≡ ok d → Keeps c d
append_line-Keeps line c v h = elim (Result-cases (price_line line)) [
  | inl (e, failed) ↦ err-ne-ok (sym (append_line-err line c failed) ∙ h)
  | inr (p, priced) ↦
      let (d', made, valid, grown, found) = append_line_lem line c v priced in
      rw (ok-injective (sym h ∙ made)) (record {
        valid = valid;
        next_grows = omega (arith, grown);
        no_reuse = λ m below gone. found m ∙ ground arith;
      })
]

add-Keeps :
    (line : LineInput) (merge : Bool) (c : Cart) {d : Cart}
    → IsValid c
    → add line merge c ≡ ok d
    → Keeps c d
add-Keeps line false c v h = append_line-Keeps line c v (sym (add-append_false line c) ∙ h)
add-Keeps line true c v h = elim (Option-cases (mergeable_from 0 line c.lines)) [
  | inl e ↦ append_line-Keeps line c v (sym (add-append_none line c e) ∙ h)
  | inr (i, e) ↦
      let (n, old, was, fits, r) = add-merge line c v e h in Replaces-Keeps n (add_quantity line) r
]

void_line-Keeps : (n : ℕ) (c : Cart) {d : Cart} → IsValid c → void_line n c ≡ ok d → Keeps c d
void_line-Keeps n c v h = elim (Option-cases (find n c)) [
  | inl e ↦ err-ne-ok (sym ((void_line_lem n c v).0 e) ∙ h)
  | inr (p, e) ↦
      let (d', made, valid, same, found) = (void_line_lem n c v).1 p e in
      rw (ok-injective (sym h ∙ made)) (record {
        valid = valid;
        next_grows = omega (arith, same);
        no_reuse = λ m below gone. found m ∙ ground arith;
      })
]

pub Step-Keeps : {c d : Cart} → IsValid c → Step c d → Keeps c d
unfolding change_quantity apply_discount
Step-Keeps {c} v (adding line merge h) = add-Keeps line merge c v h
Step-Keeps {c} v (voiding n h) = void_line-Keeps n c v h
Step-Keeps {c} v (requantifying n qty h) = Replaces-Keeps n _ (replace_line-Replaces n _ c v h)
Step-Keeps {c} v (discounting n discount h) = Replaces-Keeps n _ (replace_line-Replaces n _ c v h)

-- Whatever is done to a well-formed basket, it stays well formed, and a line number that was handed
-- out and whose line is gone never names a line again.
pub Reach-Keeps : {c d : Cart} → IsValid c → Reach c d → Keeps c d
Reach-Keeps v here = record { valid = v; next_grows = omega arith; no_reuse = λ n below gone. gone }
Reach-Keeps v (next r step) =
    let before = Reach-Keeps v r in
    let after = Step-Keeps before.valid step in
    record {
      valid = after.valid;
      next_grows = omega (arith, before.next_grows, after.next_grows);
      no_reuse = λ n below gone.
          after.no_reuse n (omega (arith, before.next_grows)) (before.no_reuse n below gone);
    }
