-- ===== src/Sales/Balanced.antt =====
-- A sale that `post_sale` of app/data/repositories/sales.py stores adds up, is queued for the cloud,
-- and leaves every other sale as it was.
use pos.Prelude.{
  ℕ, suc, ◌+ℤ◌, leb_ℤ, eqb_ℤ_refl, +ℤ-zero, zero-+ℤ, sum_by, ◌≡◌, ◌≢◌, refl, sym, ap, subst, ◌∙◌,
  inl, inr, ◌⊎◌, Bool, Bool-cases, true, false, List, [], ◌∷◌, ◌++◌, All, Option-cases, none, some,
  ok, err, Text, text_eq, text_eq_refl, text_eq→eq, codes,
}
use pos.Payments.{approved_total}
use pos.Payments.Balance.{approved_amount, approved_total-eq-sum_by}
use pos.Cart.{total_before_rounding}
use pos.Cart.Invariant.{IsValid}
use pos.Sync.Outbox.{backlog}
use pos.Sync.Outbox.Entries.{keys, keys-enqueue}
use pos.Sync.Outbox.Waiting.{backlog-enqueue}
use pos.Sales.{Database, integrity_error, Posting, json_pair, numbered, grand_total_of}
use pos.Sales.Repository.{
  find_sale, sale_row, is_refused, insert_sale, next_client_seq, insert_lines, insert_attempts,
  insert_trail, write_sale, post_sale, posted_sale, balances_with, totals_balance,
}
use pos.Sales.Found.{find_sale-append, find_sale-append_other, sum_keep-none, zip-total, lines-net}
use pos.Sales.Posted.{
  lines_total, paid_total, amount_if, insert_lines-beside, insert_lines-total,
  insert_attempts-total, insert_attempts-rows, insert_lines-All, insert_attempts-All,
}

-- Every line and every payment belongs to a sale that is there.
pub record IsReferred (db : Database) : Type 0 where
  pub lines : All (λ l. find_sale l.sale_id db.sales ≢ none) db.sale_lines
  pub payments : All (λ r. find_sale r.sale_id db.sales ≢ none) db.payments

-- What posting `p` makes of a database.
pub record IsPosted (p : Posting) (db db' : Database) : Type 0 where
  pub sale : find_sale p.cart_id db'.sales ≡ some (sale_row p)
  pub lines : lines_total p.cart_id db'.sale_lines ≡ total_before_rounding p.cart
  pub paid : paid_total p.cart_id db'.payments ≡ approved_total p.attempts
  pub balances : totals_balance p.cart_id db' ≡ leb_ℤ (grand_total_of p) (approved_total p.attempts)
  pub others :
      (sale_id : Text)
      → text_eq p.cart_id sale_id ≡ false
      → totals_balance sale_id db' ≡ totals_balance sale_id db
  pub queued :
      keys db'.outbox
      ≡ keys db.outbox
        ++ (db.outbox.next_id, (codes "sale", p.cart_id, codes "insert", suc db.client_seq)) ∷ []
  pub waits : backlog db'.outbox ≡ suc (backlog db.outbox)
  pub referred : IsReferred db'

is_refused-fresh :
    (p : Posting) (db : Database) → is_refused p db ≡ false → find_sale p.cart_id db.sales ≡ none
unfolding is_refused
is_refused-fresh p db h = elim (Option-cases (find_sale p.cart_id db.sales)) [
  | inl e ↦ e
  | inr (row, e) ↦ cc (let h' = rw e at h in h')
]

module _ (new_id : ℕ → Text) (tracks_stock : Text → Bool) (p : Posting) (db : Database)
    (valid : IsValid p.cart) (referred : IsReferred db)
    (fresh : find_sale p.cart_id db.sales ≡ none) where
  abbrev db₁ : Database
  db₁ = insert_sale p (next_client_seq db)

  abbrev db₂ : Database
  db₂ = insert_lines new_id tracks_stock p (numbered p.cart) db₁

  abbrev db₃ : Database
  db₃ = insert_attempts new_id tracks_stock p p.attempts db₂

  same_sales : db₃.sales ≡ db₁.sales
  same_sales =
      (insert_attempts-rows new_id tracks_stock p p.attempts db₂).sales
      ∙ (insert_lines-beside new_id tracks_stock p (numbered p.cart) db₁).sales

  found_new : find_sale p.cart_id db₃.sales ≡ some (sale_row p)
  unfolding insert_sale
  found_new =
      ap (find_sale p.cart_id) same_sales
      ∙ find_sale-append p.cart_id db.sales (sale_row p) fresh
      ∙ rw (text_eq_refl p.cart_id) refl

  found_other :
      (sale_id : Text)
      → text_eq p.cart_id sale_id ≡ false
      → find_sale sale_id db₃.sales ≡ find_sale sale_id db.sales
  unfolding insert_sale
  found_other sale_id h =
      ap (find_sale sale_id) same_sales ∙ find_sale-append_other sale_id db.sales _ h

  lines_after :
      (sale_id : Text)
      → lines_total sale_id db₃.sale_lines
        ≡ lines_total sale_id db.sale_lines
          +ℤ amount_if (text_eq p.cart_id sale_id) (total_before_rounding p.cart)
  unfolding insert_sale
  lines_after sale_id =
      ap (lines_total sale_id) (insert_attempts-rows new_id tracks_stock p p.attempts db₂).lines
      ∙ insert_lines-total new_id tracks_stock p (numbered p.cart) db₁ sale_id
      ∙ ap (λ t. lines_total sale_id db.sale_lines +ℤ amount_if (text_eq p.cart_id sale_id) t)
          (zip-total p.cart.line_numbers p.cart.lines valid.numbered ∙ lines-net p.cart.lines)

  paid_after :
      (sale_id : Text)
      → paid_total sale_id db₃.payments
        ≡ paid_total sale_id db.payments
          +ℤ amount_if (text_eq p.cart_id sale_id) (approved_total p.attempts)
  unfolding insert_sale
  paid_after sale_id =
      insert_attempts-total new_id tracks_stock p p.attempts db₂ sale_id
      ∙ ap
          (λ t.
            paid_total sale_id t
            +ℤ amount_if (text_eq p.cart_id sale_id) (sum_by approved_amount p.attempts))
          (insert_lines-beside new_id tracks_stock p (numbered p.cart) db₁).payments
      ∙ ap (λ t. paid_total sale_id db.payments +ℤ amount_if (text_eq p.cart_id sale_id) t)
          (sym (approved_total-eq-sum_by p.attempts))

  -- What this sale comes to and what was paid for it, once it is stored.
  this_lines : lines_total p.cart_id db₃.sale_lines ≡ total_before_rounding p.cart
  this_lines =
      lines_after p.cart_id
      ∙ rw
          (
            text_eq_refl p.cart_id,
            sum_keep-none (λ l. l.sale_id) (λ l. l.line_total) p.cart_id db.sales db.sale_lines
                fresh referred.lines,
          )
          (zero-+ℤ (total_before_rounding p.cart))

  this_paid : paid_total p.cart_id db₃.payments ≡ approved_total p.attempts
  this_paid =
      paid_after p.cart_id
      ∙ rw
          (
            text_eq_refl p.cart_id,
            sum_keep-none (λ r. r.sale_id) (λ r. r.amount) p.cart_id db.sales db.payments fresh
                referred.payments,
          )
          (zero-+ℤ (approved_total p.attempts))

  this_balances :
      totals_balance p.cart_id db₃ ≡ leb_ℤ (grand_total_of p) (approved_total p.attempts)
  unfolding totals_balance
  this_balances =
      ap
        (λ s.
          balances_with s (lines_total p.cart_id db₃.sale_lines)
            (paid_total p.cart_id db₃.payments))
        found_new
      ∙ rw (this_lines, this_paid, eqb_ℤ_refl (grand_total_of p)) refl

  other_balances :
      (sale_id : Text)
      → text_eq p.cart_id sale_id ≡ false
      → totals_balance sale_id db₃ ≡ totals_balance sale_id db
  unfolding totals_balance
  other_balances sale_id h =
      let lines : lines_total sale_id db₃.sale_lines ≡ lines_total sale_id db.sale_lines =
        lines_after sale_id ∙ rw h (+ℤ-zero (lines_total sale_id db.sale_lines)) in
      let paid : paid_total sale_id db₃.payments ≡ paid_total sale_id db.payments =
        paid_after sale_id ∙ rw h (+ℤ-zero (paid_total sale_id db.payments)) in
      ap
        (λ s.
          balances_with s (lines_total sale_id db₃.sale_lines) (paid_total sale_id db₃.payments))
        (found_other sale_id h)
      ∙ rw (lines, paid) refl

  -- A sale that was there is there.
  stays : (sale_id : Text) → find_sale sale_id db.sales ≢ none → find_sale sale_id db₃.sales ≢ none
  stays sale_id h e = elim (Bool-cases (text_eq p.cart_id sale_id)) [
    | inl same ↦
        h (ap (λ i. find_sale i db.sales) (sym (text_eq→eq p.cart_id sale_id same)) ∙ fresh)
    | inr other ↦ h (sym (found_other sale_id other) ∙ e)
  ]

  stays_all :
      {A : Type 0} (sale_of : A → Text) (rows : List A)
      → All (λ r. find_sale (sale_of r) db.sales ≢ none) rows
      → All (λ r. find_sale (sale_of r) db₃.sales ≢ none) rows
  stays_all sale_of [] h = tt
  stays_all sale_of (r ∷ rows) (h, hs) = (stays (sale_of r) h, stays_all sale_of rows hs)

  abbrev payload : Text
  payload = json_pair (codes "sale_id") p.cart_id (codes "receipt_no") p.receipt_no

  same_queue : db₃.outbox ≡ db.outbox
  unfolding insert_sale
  same_queue =
      (insert_attempts-rows new_id tracks_stock p p.attempts db₂).outbox
      ∙ (insert_lines-beside new_id tracks_stock p (numbered p.cart) db₁).outbox

  next_seq : db₃.client_seq ≡ suc db.client_seq
  unfolding insert_sale
  next_seq =
      (insert_attempts-rows new_id tracks_stock p p.attempts db₂).client_seq
      ∙ (insert_lines-beside new_id tracks_stock p (numbered p.cart) db₁).client_seq

  abbrev IsThere : Text → Type 0
  IsThere sale_id = find_sale sale_id db₃.sales ≢ none

  this_IsThere : IsThere p.cart_id
  this_IsThere e = cc (sym found_new ∙ e)

  lines_referred : All (λ l. IsThere l.sale_id) db₃.sale_lines
  unfolding insert_sale
  lines_referred =
      subst (All (λ l. IsThere l.sale_id))
        (sym (insert_attempts-rows new_id tracks_stock p p.attempts db₂).lines)
        (insert_lines-All new_id tracks_stock p IsThere (numbered p.cart) db₁ this_IsThere
          (stays_all (λ l. l.sale_id) db.sale_lines referred.lines))

  payments_referred : All (λ r. IsThere r.sale_id) db₃.payments
  unfolding insert_sale
  payments_referred =
      insert_attempts-All new_id tracks_stock p IsThere p.attempts db₂ this_IsThere (
        subst (All (λ r. IsThere r.sale_id))
          (sym (insert_lines-beside new_id tracks_stock p (numbered p.cart) db₁).payments)
          (stays_all (λ r. r.sale_id) db.payments referred.payments))

  pub write_sale-IsPosted : IsPosted p db (write_sale new_id tracks_stock p db)
  unfolding write_sale insert_trail totals_balance
  write_sale-IsPosted = record {
    sale = found_new;
    lines = this_lines;
    paid = this_paid;
    balances = this_balances;
    others = other_balances;
    queued =
        keys-enqueue (codes "sale") p.cart_id payload db₃.client_seq p.posted_at db₃.outbox
        ∙ ap
            (λ o.
              keys o ++ (o.next_id, (codes "sale", p.cart_id, codes "insert", db₃.client_seq)) ∷ [])
            same_queue
        ∙ ap
            (λ n.
              keys db.outbox
              ++ (db.outbox.next_id, (codes "sale", p.cart_id, codes "insert", n)) ∷ [])
            next_seq;
    waits =
        backlog-enqueue (codes "sale") p.cart_id payload db₃.client_seq p.posted_at db₃.outbox
        ∙ ap (λ o. suc (backlog o)) same_queue;
    referred = record { lines = lines_referred; payments = payments_referred };
  }

-- `post_sale` writes nothing and raises exactly when the tables refuse the posting: the sale, its receipt
-- number or one of its attempts is there, an attempt or a line number stands in it twice, an attempt was
-- never started, or the session it names is not there; otherwise it stores a sale whose lines come to the
-- total of its basket, whose payments come to what was approved, and which balances exactly when that
-- covers the grand total. The one row that it adds to the outbox waits, with the next number; every
-- other sale balances as before.
pub post_sale_lem :
    (new_id : ℕ → Text) (tracks_stock : Text → Bool) (p : Posting) (db : Database)
    → IsValid p.cart
    → IsReferred db
    → ((is_refused p db ≡ true) × (post_sale new_id tracks_stock p db ≡ (err integrity_error, db)))
      ⊎ ((db' : Database) × (post_sale new_id tracks_stock p db
            ≡ (ok (posted_sale new_id tracks_stock p), db'))
          × IsPosted p db db')
unfolding post_sale
post_sale_lem new_id tracks_stock p db valid referred = elim (Bool-cases (is_refused p db)) [
  | inl e ↦ inl (e, rw e refl)
  | inr e ↦ inr (
    write_sale new_id tracks_stock p db,
    rw e refl,
    write_sale-IsPosted new_id tracks_stock p db valid referred (is_refused-fresh p db e),
  )
]
