-- ===== src/Payments.antt =====
-- server/src/services/payment.service.ts and the gateways of server/src/utils/paymentProvider.ts: the
-- ledger of payments and how it moves the orders.
pub mod Provider
pub mod Reconcile
pub mod Ledger
pub mod Online
pub mod Counter
pub mod Webhook
pub mod Validity
