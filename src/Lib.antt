-- ===== src/Lib.antt =====
-- A model of the till of a small shop, app/, and the theorems that make its core correct.
--
-- The program keeps a basket of priced lines, takes payments for it in cash or by UPI, prints a
-- receipt with a tax block, and closes shifts. Money is whole paise, quantities are thousandths,
-- rates are basis points. The parts and how they build on each other:
--
-- - Prelude: integers with a sign over the native numbers, lists, texts as lists of code points,
--   stable sorting, results of calls that raise. An exception is a constructor of its module's
--   type of errors; its message is not kept.
-- - Money (app/domain/money.py): amounts, rounding half up, `allocate`. A Decimal is the exact
--   quotient of two integers; Money/Rounding shows why the 28 digits of the context change nothing.
-- - Tax (app/domain/tax.py): tax inside an amount, its halves, the summary block by `breakdown`.
-- - Pricing (app/domain/pricing.py): discounts and `price_line`, over Money and Tax.
-- - Tender (app/domain/tender.py): what cash collects of an amount.
-- - Cart (app/domain/cart.py): the basket. Two lists of one length are the lines and their numbers;
--   Cart/Search reads them as a finite map, Cart/History runs any sequence of operations.
-- - Payments (app/domain/payments.py): attempts as a state machine, expiry, the balance.
-- - Barcode (app/domain/barcode.py): check digits, the parser, the codes that the till prints.
--   Barcode/Gs1 is the loop over a GS1-128 code, on fuel: one round more than the code has
--   characters is enough, since every round takes one or more. Digits are those of ASCII.
-- - Shift (app/domain/shift.py): the figures that close a shift.
-- - Promotions (app/domain/promotions.py), Receiving (app/domain/receiving.py) and Lockout
--   (app/domain/lockout.py): offers as discounts, movements of stock, and how long a PIN is locked.
--   A moment is a number; a set of identifiers is a list.
-- - CartService (app/services/cart_service.py): the open carts of a till as a store, and the handlers
--   that change them. CartService/Monad is state with exceptions: what was written before an
--   exception stays written. CartService/Refinement, Requests and Discounts relate it to Cart and
--   Pricing.
-- - Receipt (app/domain/receipt.py): what is printed, and the check of its figures.
-- - Sales (app/data/repositories/sales.py): a sale as rows of the tables it is written to, and what is
--   read back. A table is a list of rows. A transaction is one function of the database: when it
--   raises, the database is as before. What the tables refuse is asked before anything is written:
--   their keys, the session that a sale refers to, and the time an attempt was started, which may not
--   be missing. `new_id n` is the n-th identifier drawn, which no row has yet, and `tracks_stock` what
--   the catalogue says of a product; both are arguments.
-- - Checkout (app/services/sale_service.py over app/services/payment_providers.py, and the counter of
--   app/data/repositories/terminal.py): payments, change, the posting of a cart, the receipts. A Shop is
--   the till of CartService with the database of Sales.
-- - Sync/Outbox (app/data/repositories/outbox.py): the queue of what is not in the cloud yet, and the
--   failures set aside from it. Sync/Backoff (app/sync/backoff.py): the waits.
-- - Sync/Pusher (app/sync/pusher.py): `drain`. What is outside of the program, the HTTP client, the
--   tokens, the clock and the payloads, is the record Cloud over a world of any type. Sync/Pusher/Server
--   says what the server documents: it accepts every item of a request that it answers with a status
--   below 400, and keeps what it accepted. `drain` runs on fuel, one round more than there are rows
--   that wait and one for the refresh of the token: every other round takes a row out of the queue or
--   returns. Sync/Pusher/History is the queue over days, as a step relation.
-- - Sync/Engine (app/sync/engine.py): one pass of the sync loop over the queue, what the register
--   shows after it, and the wait for the next.
-- - Permissions (app/domain/permissions.py), Identity (app/domain/identity.py, and the grants of
--   SessionStore) and Auth (app/services/auth_service.py over app/data/repositories/users.py): what a
--   role may do, sessions, sign-in, wrong PINs, and a permission that a supervisor lends. The check of a
--   PIN against its hash is a parameter, and what the cloud answered is an argument. The letters of a
--   code are those of ASCII. Seconds count time here and in Lockout.
-- - Register (app/services/shift_service.py over app/data/repositories/shifts.py): a shift is opened, cash
--   is moved, and the close stores the figures of Shift over the rows of Sales.
-- - Tests: concrete runs.
--
-- A function of the source has the name it has there, a method the name of its method, except where
-- the name is taken: `new_…` and `check_…` are constructors with their checks. The checks that a
-- value is an `int` are met by the types. Not modelled: the services for administration and stock, the
-- other repositories and their SQL, the pull from the cloud with the payloads and the renewal of
-- tokens, the HTTP interface, rendering, password hashing, and the TypeScript and SQL of the other side.
pub mod Prelude
pub mod Money
pub mod Tax
pub mod Pricing
pub mod Tender
pub mod Cart
pub mod Payments
pub mod Barcode
pub mod Shift
pub mod Sync
pub mod Receipt
pub mod Sales
pub mod Checkout
pub mod Promotions
pub mod Receiving
pub mod Lockout
pub mod Permissions
pub mod Identity
pub mod Auth
pub mod Register
pub mod CartService
pub mod Tests
