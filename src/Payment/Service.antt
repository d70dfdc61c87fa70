-- ===== src/Payment/Service.antt =====
-- internal/domain/payment/domain.go: the payment service over its ports.
pub mod Create
pub mod Refund
pub mod Stripe
pub mod Native
pub mod Refinement
pub mod Missing
pub mod Settlement
pub mod Redelivery
pub mod Memory
mod Examples
