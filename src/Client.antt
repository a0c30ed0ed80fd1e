-- ===== src/Client.antt =====
-- The logic of client/src that a guest relies on: the amounts, the offers and the cart.
pub mod Amounts
pub mod Offers
pub mod Cart
pub mod Advance
pub mod Agreement
pub mod Preview
pub mod Quote
pub mod Filled
