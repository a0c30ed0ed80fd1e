-- ===== src/Examples.antt =====
-- Concrete databases: a house with one dish and one table, and the same house with an order that waits
-- for its advance; and the theorems at these inputs.
pub mod Data
mod OrderTests
mod PaymentTests
mod BookingTests
mod PriceTests
mod SystemTests
mod MenuTests
mod ClientTests
mod AccessTests
mod QueueTests
mod TableTests
