-- ===== src/Billing/Service.antt =====
-- internal/domain/billing/domain.go: the billing service over its ports.
pub mod Quota
pub mod Account
pub mod Refinement
pub mod Limits
