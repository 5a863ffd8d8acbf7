-- ===== src/Shift.antt =====
-- app/domain/shift.py: the figures of a shift. The rows hold what the source's `Literal` and `str`
-- fields can say; any other word is one constructor `other_…`. `counting`, a set, is the rows of
-- `by_id` that count, since only a sum and a length read it.
pub mod Figures
pub mod Acceptance
use pos.Prelude.{
  ℕ, ℤ, nonneg, ◌+ℤ◌, ◌-ℤ◌, ◌&&◌, Bool, true, false, if◌then◌else◌, List, [], ◌∷◌, length, map,
  keep, Option, none, some, Result, ok, err, ◌>>=◌, Text, text_eq,
}
use pos.Money.{Money, total, zero_money}

pub data ShiftError : Type 0 where
  unknown_sale no_line unknown_direction : ShiftError

pub data SaleStatus : Type 0 where
  completed requires_review voided other_status : SaleStatus

pub data ReviewOutcome : Type 0 where
  paid not_paid other_outcome : ReviewOutcome

pub record SaleRow : Type 0 where
  pub sale_id : Text
  pub status : SaleStatus
  pub grand_total : Money
  pub rounding_adjustment : Money
  pub review_outcome : Option ReviewOutcome

pub data PaymentMethod : Type 0 where
  cash upi other_method : PaymentMethod

pub record PaymentRow : Type 0 where
  pub sale_id : Text
  pub method : PaymentMethod
  pub amount : Money
  pub verified : Bool

pub data Direction : Type 0 where
  into out_of other_direction : Direction

pub record CashMovementRow : Type 0 where
  pub direction : Direction
  pub amount : Money

pub record ShiftFigures : Type 0 where
  pub opening_float : Money
  pub cash_sales : Money
  pub upi_attested : Money
  pub upi_verified : Money
  pub cash_in : Money
  pub cash_out : Money
  pub rounding : Money
  pub under_review_count : ℕ
  pub under_review_total : Money
  pub sales_count : ℕ

unfoldable pub expected_cash : ShiftFigures → Money
expected_cash f = f.opening_float +ℤ f.cash_sales +ℤ f.cash_in -ℤ f.cash_out

unfoldable pub takings : ShiftFigures → Money
takings f = f.cash_sales +ℤ f.upi_attested +ℤ f.upi_verified

unfoldable pub variance : ShiftFigures → Money → Money
unfolding expected_cash
variance f counted_cash = counted_cash -ℤ expected_cash f

-- `_counts`, by what it reads of the sale
unfoldable pub counts_as : SaleStatus → Option ReviewOutcome → Bool
counts_as completed outcome = true
counts_as requires_review (some paid) = true
counts_as requires_review _ = false
counts_as voided outcome = false
counts_as other_status outcome = false

abbrev pub counts : SaleRow → Bool
counts sale = counts_as sale.status sale.review_outcome

-- `sale.status == "requires_review" and sale.review_outcome is None`
unfoldable pub awaits_review : SaleStatus → Option ReviewOutcome → Bool
awaits_review requires_review none = true
awaits_review _ _ = false

-- `by_id[sale.sale_id] = sale`: a key keeps its place.
unfoldable pub put_sale : SaleRow → List SaleRow → List SaleRow
put_sale sale [] = sale ∷ []
put_sale sale (s ∷ sales) =
    let rest = put_sale sale sales in
    if text_eq s.sale_id sale.sale_id then sale ∷ sales else s ∷ rest

-- The comprehension that builds `by_id`.
unfoldable pub by_id : List SaleRow → List SaleRow → List SaleRow
unfolding put_sale
by_id kept [] = kept
by_id kept (sale ∷ sales) = by_id (put_sale sale kept) sales

unfoldable pub find_sale : Text → List SaleRow → Option SaleRow
find_sale key [] = none
find_sale key (s ∷ sales) =
    let rest = find_sale key sales in if text_eq s.sale_id key then some s else rest

-- The three totals of the payment loop.
pub record Taken : Type 0 where
  pub cash_sales : Money
  pub upi_attested : Money
  pub upi_verified : Money

-- The loop's body for a payment that counts.
unfoldable pub add_payment : PaymentMethod → Money → Bool → Taken → Result ShiftError Taken
add_payment cash amount verified t = ok (record t { cash_sales = t.cash_sales +ℤ amount })
add_payment upi amount true t = ok (record t { upi_verified = t.upi_verified +ℤ amount })
add_payment upi amount false t = ok (record t { upi_attested = t.upi_attested +ℤ amount })
add_payment other_method amount verified t = err no_line

unfoldable pub take_payment : List SaleRow → PaymentRow → Taken → Result ShiftError Taken
unfolding find_sale add_payment counts_as
take_payment sales p t = elim (find_sale p.sale_id sales) [
  | none ↦ err unknown_sale
  | some sale ↦ if counts sale then add_payment p.method p.amount p.verified t else ok t
]

unfoldable pub take_payments : List SaleRow → List PaymentRow → Taken → Result ShiftError Taken
unfolding take_payment
take_payments sales [] t = ok t
take_payments sales (p ∷ payments) t =
    take_payment sales p t >>= λ u. take_payments sales payments u

-- `cash_in` and `cash_out`
pub record Moved : Type 0 where
  pub cash_in : Money
  pub cash_out : Money

unfoldable pub move_cash : Direction → Money → Moved → Result ShiftError Moved
move_cash into amount m = ok (record m { cash_in = m.cash_in +ℤ amount })
move_cash out_of amount m = ok (record m { cash_out = m.cash_out +ℤ amount })
move_cash other_direction amount m = err unknown_direction

unfoldable pub move_all : List CashMovementRow → Moved → Result ShiftError Moved
unfolding move_cash
move_all [] m = ok m
move_all (x ∷ movements) m = move_cash x.direction x.amount m >>= λ n. move_all movements n

abbrev pub nothing_taken : Taken
nothing_taken = record {
  cash_sales = zero_money;
  upi_attested = zero_money;
  upi_verified = zero_money;
}

abbrev pub nothing_moved : Moved
nothing_moved = record { cash_in = zero_money; cash_out = zero_money }

unfoldable pub under_review : List SaleRow → List SaleRow
under_review sales = keep (λ s. awaits_review s.status s.review_outcome) sales

-- The record that `figures` returns.
unfoldable pub figures_of : Money → List SaleRow → Taken → Moved → ShiftFigures
unfolding under_review
figures_of opening_float rows taken moved = record {
  opening_float = opening_float;
  cash_sales = taken.cash_sales;
  upi_attested = taken.upi_attested;
  upi_verified = taken.upi_verified;
  cash_in = moved.cash_in;
  cash_out = moved.cash_out;
  rounding = total (map (λ s. s.rounding_adjustment) (keep counts rows));
  under_review_count = length (under_review rows);
  under_review_total = total (map (λ s. s.grand_total) (under_review rows));
  sales_count = length (keep counts rows);
}

unfoldable pub figures :
    Money → List SaleRow → List PaymentRow → List CashMovementRow → Result ShiftError ShiftFigures
unfolding by_id take_payments move_all figures_of
figures opening_float sales payments movements =
    let rows = by_id [] sales in
    do
      taken ← take_payments rows payments nothing_taken
      moved ← move_all movements nothing_moved
      ok (figures_of opening_float rows taken moved)
