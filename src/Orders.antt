-- ===== src/Orders.antt =====
-- server/src/services/order.service.ts, by its parts: pricing, the walk-out gates, placing an order,
-- releasing a held one, changing its status and adding to it.
pub mod Pricing
pub mod Gates
pub mod Queue
pub mod Place
pub mod Change
pub mod Release
pub mod Validity
