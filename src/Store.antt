-- ===== src/Store.antt =====
-- The rows that the order and payment services read and write (server/prisma/schema.prisma), the
-- database as a record of tables, and transactions over it. An id, a token or a phone number is only
-- compared, and is a number; a Decimal(10,2) column is its number of minor units, which the texts of
-- `Money` stand for (`Money.RoundTrip`); an instant is its number of milliseconds. Prisma hands out
-- `next_id` and the Postgres sequence hands out `order_seq`.
mod Rows
pub mod Tx
pub use Rows.*
pub use Tx.*
