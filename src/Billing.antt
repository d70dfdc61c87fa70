-- ===== src/Billing.antt =====
-- internal/domain/billing: subscriptions, credits and quotas.
pub mod Errors
pub mod Status
pub mod Plan
pub mod Subscription
pub mod Calls
pub mod Credits
pub mod Cancellation
pub mod Ports
pub mod Service
mod Examples
