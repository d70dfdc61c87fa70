-- ===== src/App.antt =====
-- internal/app: the adapters between the services, and how the application wires payments.
pub mod OrderReader
pub mod BillingReader
pub mod Payments
pub mod Settled
mod Examples
