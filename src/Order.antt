-- ===== src/Order.antt =====
-- internal/domain/order: the order aggregate and its service.
pub mod Errors
pub mod Money
pub mod Status
pub mod Item
pub mod Aggregate
pub mod Calls
pub mod Lifecycle
pub mod Totals
pub mod History
pub mod Model
pub mod Ports
pub mod Service
mod Examples
