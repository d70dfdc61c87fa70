-- ===== src/Order/Service.antt =====
-- internal/domain/order/domain.go: the order service over its ports.
pub mod Create
pub mod Transitions
pub mod Refinement
pub mod Invoices
pub mod Expiry
pub mod Created
mod Examples
