-- ===== src/Register/Accepted.antt =====
-- The payments that a shift reads, through the JOIN of app/data/repositories/shifts.py, are of its sales.
use pos.Prelude.{
  ◌≡◌, ◌⊎◌, inl, inr, refl, ap, ◌∙◌, Bool-cases, true, false, any, all, keep, map, List, [], ◌∷◌,
  some, Text, text_eq, text_eq→eq,
}
use pos.Tender.{TenderMethod}
use pos.Shift.{SaleRow, put_sale, by_id, find_sale, counts}
use pos.Shift.Acceptance.{accepted_for, is_accepted}
use pos.Sales as Sales
use pos.Register.Reads.{sales_in, sale_read, sales_for, payment_read, method_read, payments_for}

abbrev Found : Text → List SaleRow → Type 0
Found key sales = (s : SaleRow) × (find_sale key sales ≡ some s)

beyond :
    (key : Text) (x : SaleRow) (sales : List SaleRow)
    → text_eq x.sale_id key ≡ false
    → Found key (x ∷ sales)
    → Found key sales
unfolding find_sale
beyond key x sales e (s, h) = (s, rw e at h)

put_sale-Found :
    (key : Text) (sale : SaleRow) (sales : List SaleRow)
    → (text_eq sale.sale_id key ≡ true) ⊎ Found key sales
    → Found key (put_sale sale sales)
unfolding put_sale find_sale
put_sale-Found key sale [] (inl e) = (sale, rw e refl)
put_sale-Found key sale [] (inr (s, e)) = cc
put_sale-Found key sale (x ∷ sales) h = elim (Bool-cases (text_eq x.sale_id sale.sale_id)) [
  | inl e ↦ elim (Bool-cases (text_eq sale.sale_id key)) [
    | inl f ↦ rw (e, f) (sale, refl)
    | inr f ↦
        rw (e, f)
          (elim h [
            | inl g ↦ cc
            | inr g ↦
                beyond key x sales
                  (ap (λ i. text_eq i key) (text_eq→eq x.sale_id sale.sale_id e) ∙ f) g
          ])
  ]
  | inr e ↦ elim (Bool-cases (text_eq x.sale_id key)) [
    | inl f ↦ rw (e, f) (x, refl)
    | inr f ↦
        rw (e, f)
          (put_sale-Found key sale sales
            (elim h [ inl g ↦ inl g | inr g ↦ inr (beyond key x sales f g) ]))
  ]
]

by_id-Found :
    (key : Text) (kept sales : List SaleRow)
    → (any (λ s. text_eq s.sale_id key) sales ≡ true) ⊎ Found key kept
    → Found key (by_id kept sales)
unfolding by_id
by_id-Found key kept [] (inl e) = cc
by_id-Found key kept [] (inr f) = f
by_id-Found key kept (sale ∷ sales) (inr f) =
    by_id-Found key (put_sale sale kept) sales (inr (put_sale-Found key sale kept (inr f)))
by_id-Found key kept (sale ∷ sales) (inl h) = elim (Bool-cases (text_eq sale.sale_id key)) [
  | inl e ↦ by_id-Found key (put_sale sale kept) sales (inr (put_sale-Found key sale kept (inl e)))
  | inr e ↦ by_id-Found key (put_sale sale kept) sales (inl (rw e at h))
]

any-read :
    (reviews : List Sales.ReviewRow) (key : Text) (rows : List Sales.SaleRow)
    → any (λ s. text_eq s.id key) rows ≡ true
    → any (λ s. text_eq s.sale_id key) (map (sale_read reviews) rows) ≡ true
any-read reviews key [] h = cc
any-read reviews key (s ∷ rows) h = elim (Bool-cases (text_eq s.id key)) [
  | inl e ↦ rw e refl
  | inr e ↦ rw e (any-read reviews key rows (rw e at h))
]

accepted : (sale : SaleRow) (m : TenderMethod) → accepted_for (some sale) (method_read m) ≡ true
accepted sale TenderMethod.cash = elim (Bool-cases (counts sale)) [
  | inl e ↦ rw e refl
  | inr e ↦ rw e refl
]
accepted sale TenderMethod.upi = elim (Bool-cases (counts sale)) [
  | inl e ↦ rw e refl
  | inr e ↦ rw e refl
]

all_accepted :
    (reviews : List Sales.ReviewRow) (rows : List Sales.SaleRow) (payments : List Sales.PaymentRow)
    → all
        (is_accepted (by_id [] (map (sale_read reviews) rows)))
        (map payment_read (keep (λ p. any (λ s. text_eq s.id p.sale_id) rows) payments))
      ≡ true
all_accepted reviews rows [] = refl
all_accepted reviews rows (p ∷ payments) =
    elim (Bool-cases (any (λ s. text_eq s.id p.sale_id) rows)) [
      | inr e ↦ rw e (all_accepted reviews rows payments)
      | inl e ↦
          let (sale, found) =
            by_id-Found p.sale_id [] (map (sale_read reviews) rows)
              (inl (any-read reviews p.sale_id rows e)) in
          rw (e, found, accepted sale p.method) (all_accepted reviews rows payments)
    ]

pub sales_accepted :
    (session_id : Text) (db : Sales.Database)
    → all (is_accepted (by_id [] (sales_for session_id db))) (payments_for session_id db) ≡ true
unfolding sales_for payments_for
sales_accepted session_id db = all_accepted db.reviews (sales_in session_id db.sales) db.payments
