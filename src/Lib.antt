-- ===== src/Lib.antt =====
-- A restaurant takes orders from tables by QR code, prices them, gates large ones, passes them to
-- the kitchen, keeps a ledger of payments for them, and takes bookings. This library models the
-- server's core, the services of server/src/services with the utilities of server/src/utils that
-- they stand on.
--
-- The parts, and the files that model them:
--
-- Base - lists of rows, tests and conditionals that all parts share. Errors -
-- server/src/utils/AppError.ts and the results of code that throws.
--
-- Money (server/src/utils/money.ts): decimal texts and minor units. Money.Digits reads and prints
-- the texts, Money has toMinorUnits, fromMinorUnits and applyPercent. Offer
-- (server/src/utils/offer.ts): the price after an offer, on top of Money.
--
-- Status (head of server/src/services/order.service.ts, server/src/validations/order.validation.ts):
-- the workflow of an order.
--
-- Store (server/prisma/schema.prisma): the rows, the database as a record of tables, and the queries
-- and writes. A transaction is a function from a database to a result with a new database; a throw
-- leaves the old one. What a service announces after the commit is a list of effects. Transactions
-- run one after the other.
--
-- Orders (server/src/services/order.service.ts): Pricing has priceItems, loadCharges and
-- computeTotals; Gates openBalanceMinor and evaluateHold; Place placeOrder; Change
-- applyStatusChange, updateStatus, serveOrder, cancelOrder, rejectOrder and cancelHeldOrderByToken;
-- Release releaseAfterPayment, approveOrder and addItems. Queue has getOrderById and
-- getKitchenQueue. Validity states the invariant of the order tables.
--
-- Payments (server/src/services/payment.service.ts and server/src/utils/paymentProvider.ts):
-- Provider has the demo gateway, Razorpay and the choice between them; Reconcile
-- reconcileAfterPayment, which calls releaseAfterPayment of Orders; Online initiateOnlinePayment and
-- confirmOnlinePayment; Counter recordCashAdvance, recordCashPayment, settleOrderPayment and
-- refundPayment; Webhook handleRazorpayWebhook. Ledger is about what a payment counts, and Validity
-- about the order tables as money lands.
--
-- Reservations (server/src/services/reservation.service.ts): Capacity counts seats and suggests
-- times, Booking makes and changes bookings; Occupancy, Kept, Moved and Ended are about the seats
-- held at each instant.
--
-- Tables (server/src/services/table.service.ts): the tables and their QR codes. Calls has every call
-- that changes them and its step, Codes is about codes that were rotated, and Kept about the orders
-- that stand at a table.
--
-- Menu (server/src/services/food.service.ts, category.service.ts and server/src/utils/slug.ts): Slug
-- makes the slugs, Foods and Categories have the writes, Validity states what a consistent menu is,
-- and Kept that every write keeps it. Pagination (server/src/utils/pagination.ts): Pages is about
-- all pages of a listing together.
--
-- Client (client/src/lib/money.ts, lib/offer.ts, context/CartContext.tsx): Amounts, Offers, Advance
-- and Cart are the logic of the client; Agreement, Preview, Quote and Filled relate it to the
-- server's Money, Offer, Orders and Menu.
--
-- Access (server/src/middleware/authenticate.ts and authorize.ts,
-- server/src/services/auth.service.ts, user.service.ts and role.service.ts): Rows has the accounts,
-- Guard the guards of the routes, Sessions, Users and Roles the services, Calls every call that
-- changes the accounts as one data type with its step; Tokens, Revoked and Administered are about
-- sequences of calls.
--
-- System puts the services of Orders and Payments together: Call has one constructor for each of
-- them, perform answers a call, and run a sequence. Advances, Moves, Settles and Steps follow the
-- status of each order through a call, and Life through a sequence, as a log of its status after
-- each call; Kept is about the invariant, Refused about errors, and Served about how an order gets
-- done.
--
-- Examples has concrete databases, and the theorems at them.
--
-- Numbers: an id, a token, a phone number or a reference is only compared, and is a natural number;
-- a Decimal(10,2) column is its number of minor units; an instant is its number of milliseconds.
-- Numbers of the source stay below 2^53, where the doubles of the source are exact; the quotients by
-- 100 in evaluateHold are not, and their type and comparisons are a parameter (Orders.Gates.Double),
-- with the laws that hold for exact quotients as hypotheses where a theorem needs them. Loops run
-- over lists, so they need no fuel; only the printing of a number has some, the number itself, which
-- is at least the number of its digits.
--
-- Parameters are the keyed hash of node:crypto, the reading of JSON, random references, instants,
-- and what the gateway answers.
--
-- Signed tokens, hashes of passwords and of tokens, and the printing of Decimal columns are
-- parameters too (Access.Sessions.Crypto, decimal_text); a theorem that needs it assumes that a
-- token is read as one payload and that a price is printed as its own amount.
--
-- Not modelled: the other queries that only read, the payloads of events and of the audit trail,
-- HTTP and sockets, the markup of the client, settings and content, notifications, reports, exports
-- and invoices. Calls that run at the same time are calls one after the other here; the refresh of a
-- session is not atomic in the source.
pub mod Base
pub mod Errors
pub mod Money
pub mod Offer
pub mod Status
pub mod Store
pub mod Orders
pub mod Payments
pub mod Reservations
pub mod Menu
pub mod Client
pub mod Access
pub mod Tables
pub mod System
pub mod Pagination
pub mod Examples
