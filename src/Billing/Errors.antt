-- ===== src/Billing/Errors.antt =====
-- internal/domain/billing/errors.go, with the errors that the aggregate and the ports add.
use uniedit_server.Common.{ℤ, String}

pub data BillingError : Type 0 where
  plan_not_found plan_not_active : BillingError
  subscription_not_found subscription_exists subscription_canceled : BillingError
  quota_exceeded token_limit_reached request_limit_reached : BillingError
  insufficient_credits invalid_credits_amount : BillingError
  empty_user_id empty_plan_id no_plan_loaded : BillingError
  -- Errors of the aggregate that it makes itself: the last has the balance and the amount.
  already_canceled not_canceled not_positive : BillingError
  short_of_credits : ℤ → ℤ → BillingError
  from_port : String → BillingError
