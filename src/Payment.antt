-- ===== src/Payment.antt =====
-- internal/domain/payment: the payment aggregate and its service.
pub mod Errors
pub mod Status
pub mod Aggregate
pub mod Ports
pub mod Service
pub mod Calls
pub mod Refunds
pub mod History
mod Examples
