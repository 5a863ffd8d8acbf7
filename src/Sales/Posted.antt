-- ===== src/Sales/Posted.antt =====
-- What `post_sale` of app/data/repositories/sales.py leaves in the tables.
use pos.Prelude.{
  ℕ, ℤ, nonneg, ◌+ℤ◌, +ℤ_assoc, +ℤ-zero, sum_by, ◌≡◌, refl, sym, ap, ◌∙◌, inl, inr, Bool,
  Bool-cases, true, false, List, [], ◌∷◌, ◌++◌, keep, All, All-append, Text, text_eq, int_laws,
}
use pos.Money.{Money}
use pos.Pricing.{PricedLine}
use pos.Payments.{PaymentAttempt, approved, state_eq}
use pos.Payments.Balance.{approved_amount}
use pos.Sales.{SaleLineRow, PaymentRow, Database, Posting}
use pos.Sales.Repository.{insert_line, insert_lines, insert_attempt, insert_attempts}

-- What the stored lines of a sale come to, and what was paid for it.
abbrev pub lines_total : Text → List SaleLineRow → Money
lines_total sale_id rows = sum_by (λ l. l.line_total) (keep (λ l. text_eq l.sale_id sale_id) rows)

abbrev pub paid_total : Text → List PaymentRow → Money
paid_total sale_id rows = sum_by (λ r. r.amount) (keep (λ r. text_eq r.sale_id sale_id) rows)

abbrev pub amount_if : Bool → Money → Money
amount_if true amount = amount
amount_if false amount = nonneg 0

amount_if-add :
    (here : Bool) (a b : Money) → amount_if here a +ℤ amount_if here b ≡ amount_if here (a +ℤ b)
amount_if-add true a b = refl
amount_if-add false a b = omega int_laws

amount_if-zero : (here : Bool) → amount_if here (nonneg 0) ≡ nonneg 0
amount_if-zero true = refl
amount_if-zero false = refl

sum_keep-append :
    {A : Type 0} (q : A → Bool) (f : A → ℤ) (rows : List A) (row : A)
    → sum_by f (keep q (rows ++ row ∷ [])) ≡ sum_by f (keep q rows) +ℤ amount_if (q row) (f row)
sum_keep-append q f [] row = elim (Bool-cases (q row)) [
  | inl e ↦ rw e (omega int_laws)
  | inr e ↦ rw e (omega int_laws)
]
sum_keep-append q f (r ∷ rows) row = elim (Bool-cases (q r)) [
  | inl e ↦ rw (e, sum_keep-append q f rows row) (sym (+ℤ_assoc (f r) (sum_by f (keep q rows)) _))
  | inr e ↦ rw e (sum_keep-append q f rows row)
]

module _ (new_id : ℕ → Text) (tracks_stock : Text → Bool) (p : Posting) where
  abbrev pub is_this : Text → Bool
  is_this sale_id = text_eq p.cart_id sale_id

  insert_line-total :
      (l : ℕ × PricedLine) (db : Database) (sale_id : Text)
      → lines_total sale_id (insert_line new_id tracks_stock p l db).sale_lines
        ≡ lines_total sale_id db.sale_lines +ℤ amount_if (is_this sale_id) l.1.line_total
  unfolding insert_line
  insert_line-total (n, line) db sale_id = elim (Bool-cases (tracks_stock line.line.product_id)) [
    | inl e ↦
        rw e (sum_keep-append (λ r. text_eq r.sale_id sale_id) (λ r. r.line_total) db.sale_lines _)
    | inr e ↦
        rw e (sum_keep-append (λ r. text_eq r.sale_id sale_id) (λ r. r.line_total) db.sale_lines _)
  ]

  -- The tables that the loop over the lines does not write.
  pub record SameBeside (db db' : Database) : Type 0 where
    pub sales : db'.sales ≡ db.sales
    pub payments : db'.payments ≡ db.payments
    pub attempts : db'.payment_attempts ≡ db.payment_attempts
    pub outbox : db'.outbox ≡ db.outbox
    pub client_seq : db'.client_seq ≡ db.client_seq

  insert_line-beside :
      (l : ℕ × PricedLine) (db : Database) → SameBeside db (insert_line new_id tracks_stock p l db)
  unfolding insert_line
  insert_line-beside (n, line) db = elim (Bool-cases (tracks_stock line.line.product_id)) [
    | inl e ↦ rw e (record {
      sales = refl;
      payments = refl;
      attempts = refl;
      outbox = refl;
      client_seq = refl;
    })
    | inr e ↦ rw e (record {
      sales = refl;
      payments = refl;
      attempts = refl;
      outbox = refl;
      client_seq = refl;
    })
  ]

  pub insert_lines-beside :
      (ls : List (ℕ × PricedLine)) (db : Database)
      → SameBeside db (insert_lines new_id tracks_stock p ls db)
  unfolding insert_lines
  insert_lines-beside [] db = record {
    sales = refl;
    payments = refl;
    attempts = refl;
    outbox = refl;
    client_seq = refl;
  }
  insert_lines-beside (l ∷ ls) db =
      let a = insert_line-beside l db in
      let b = insert_lines-beside ls (insert_line new_id tracks_stock p l db) in
      record {
        sales = b.sales ∙ a.sales;
        payments = b.payments ∙ a.payments;
        attempts = b.attempts ∙ a.attempts;
        outbox = b.outbox ∙ a.outbox;
        client_seq = b.client_seq ∙ a.client_seq;
      }

  pub insert_lines-total :
      (ls : List (ℕ × PricedLine)) (db : Database) (sale_id : Text)
      → lines_total sale_id (insert_lines new_id tracks_stock p ls db).sale_lines
        ≡ lines_total sale_id db.sale_lines
          +ℤ amount_if (is_this sale_id) (sum_by (λ l. l.1.line_total) ls)
  unfolding insert_lines
  insert_lines-total [] db sale_id = sym (
      ap (lines_total sale_id db.sale_lines +ℤ◌) (amount_if-zero (is_this sale_id))
      ∙ +ℤ-zero (lines_total sale_id db.sale_lines))
  insert_lines-total (l ∷ ls) db sale_id =
      insert_lines-total ls (insert_line new_id tracks_stock p l db) sale_id
      ∙ ap (◌+ℤ amount_if (is_this sale_id) (sum_by (λ x. x.1.line_total) ls))
          (insert_line-total l db sale_id)
      ∙ +ℤ_assoc (lines_total sale_id db.sale_lines) _ _
      ∙ ap (lines_total sale_id db.sale_lines +ℤ◌)
          (amount_if-add (is_this sale_id) l.1.line_total (sum_by (λ x. x.1.line_total) ls))

  insert_attempt-total :
      (a : PaymentAttempt) (db : Database) (sale_id : Text)
      → paid_total sale_id (insert_attempt new_id tracks_stock p a db).payments
        ≡ paid_total sale_id db.payments +ℤ amount_if (is_this sale_id) (approved_amount a)
  unfolding insert_attempt
  insert_attempt-total a db sale_id = elim (Bool-cases (state_eq a.state approved)) [
    | inl e ↦ rw e (sum_keep-append (λ r. text_eq r.sale_id sale_id) (λ r. r.amount) db.payments _)
    | inr e ↦ rw e (
        sym (
          ap (paid_total sale_id db.payments +ℤ◌) (amount_if-zero (is_this sale_id))
          ∙ +ℤ-zero (paid_total sale_id db.payments)))
  ]

  pub insert_attempts-total :
      (as' : List PaymentAttempt) (db : Database) (sale_id : Text)
      → paid_total sale_id (insert_attempts new_id tracks_stock p as' db).payments
        ≡ paid_total sale_id db.payments +ℤ amount_if (is_this sale_id) (sum_by approved_amount as')
  unfolding insert_attempts
  insert_attempts-total [] db sale_id = sym (
      ap (paid_total sale_id db.payments +ℤ◌) (amount_if-zero (is_this sale_id))
      ∙ +ℤ-zero (paid_total sale_id db.payments))
  insert_attempts-total (a ∷ as') db sale_id =
      insert_attempts-total as' (insert_attempt new_id tracks_stock p a db) sale_id
      ∙ ap (◌+ℤ amount_if (is_this sale_id) (sum_by approved_amount as'))
          (insert_attempt-total a db sale_id)
      ∙ +ℤ_assoc (paid_total sale_id db.payments) _ _
      ∙ ap (paid_total sale_id db.payments +ℤ◌)
          (amount_if-add (is_this sale_id) (approved_amount a) (sum_by approved_amount as'))

  -- The tables that the loop over the attempts does not write.
  pub record SameRows (db db' : Database) : Type 0 where
    pub sales : db'.sales ≡ db.sales
    pub lines : db'.sale_lines ≡ db.sale_lines
    pub outbox : db'.outbox ≡ db.outbox
    pub client_seq : db'.client_seq ≡ db.client_seq

  insert_attempt-rows :
      (a : PaymentAttempt) (db : Database) → SameRows db (insert_attempt new_id tracks_stock p a db)
  unfolding insert_attempt
  insert_attempt-rows a db = elim (Bool-cases (state_eq a.state approved)) [
    | inl e ↦ rw e (record { sales = refl; lines = refl; outbox = refl; client_seq = refl })
    | inr e ↦ rw e (record { sales = refl; lines = refl; outbox = refl; client_seq = refl })
  ]

  pub insert_attempts-rows :
      (as' : List PaymentAttempt) (db : Database)
      → SameRows db (insert_attempts new_id tracks_stock p as' db)
  unfolding insert_attempts
  insert_attempts-rows [] db = record {
    sales = refl;
    lines = refl;
    outbox = refl;
    client_seq = refl;
  }
  insert_attempts-rows (a ∷ as') db =
      let x = insert_attempt-rows a db in
      let y = insert_attempts-rows as' (insert_attempt new_id tracks_stock p a db) in
      record {
        sales = y.sales ∙ x.sales;
        lines = y.lines ∙ x.lines;
        outbox = y.outbox ∙ x.outbox;
        client_seq = y.client_seq ∙ x.client_seq;
      }

  -- What holds of this sale and of every row before holds of every row after.
  insert_line-All :
      (Q : Text → Type 0) (l : ℕ × PricedLine) (db : Database)
      → Q p.cart_id
      → All (λ r. Q r.sale_id) db.sale_lines
      → All (λ r. Q r.sale_id) (insert_line new_id tracks_stock p l db).sale_lines
  unfolding insert_line
  insert_line-All Q (n, line) db q h = elim (Bool-cases (tracks_stock line.line.product_id)) [
    | inl e ↦ rw e (All-append (λ r. Q r.sale_id) db.sale_lines _ h (q, tt))
    | inr e ↦ rw e (All-append (λ r. Q r.sale_id) db.sale_lines _ h (q, tt))
  ]

  pub insert_lines-All :
      (Q : Text → Type 0) (ls : List (ℕ × PricedLine)) (db : Database)
      → Q p.cart_id
      → All (λ r. Q r.sale_id) db.sale_lines
      → All (λ r. Q r.sale_id) (insert_lines new_id tracks_stock p ls db).sale_lines
  unfolding insert_lines
  insert_lines-All Q [] db q h = h
  insert_lines-All Q (l ∷ ls) db q h =
      insert_lines-All Q ls (insert_line new_id tracks_stock p l db) q (insert_line-All Q l db q h)

  insert_attempt-All :
      (Q : Text → Type 0) (a : PaymentAttempt) (db : Database)
      → Q p.cart_id
      → All (λ r. Q r.sale_id) db.payments
      → All (λ r. Q r.sale_id) (insert_attempt new_id tracks_stock p a db).payments
  unfolding insert_attempt
  insert_attempt-All Q a db q h = elim (Bool-cases (state_eq a.state approved)) [
    | inl e ↦ rw e (All-append (λ r. Q r.sale_id) db.payments _ h (q, tt))
    | inr e ↦ rw e h
  ]

  pub insert_attempts-All :
      (Q : Text → Type 0) (as' : List PaymentAttempt) (db : Database)
      → Q p.cart_id
      → All (λ r. Q r.sale_id) db.payments
      → All (λ r. Q r.sale_id) (insert_attempts new_id tracks_stock p as' db).payments
  unfolding insert_attempts
  insert_attempts-All Q [] db q h = h
  insert_attempts-All Q (a ∷ as') db q h =
      insert_attempts-All Q as' (insert_attempt new_id tracks_stock p a db) q
        (insert_attempt-All Q a db q h)
