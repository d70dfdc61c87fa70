-- ===== src/Order/Errors.antt =====
-- The errors that the order aggregate returns and those of its service (internal/domain/order).
use uniedit_server.Common.{String}

pub data OrderError : Type 0 where
  empty_user_id empty_order_no invalid_order_type : OrderError
  empty_description nonpositive_quantity : OrderError
  currency_mismatch not_pending invalid_transition : OrderError
  order_not_found not_paid not_cancelable not_refundable invoice_not_found : OrderError
  minimum_topup_amount free_plan_not_orderable plan_not_found plan_not_active : OrderError
  from_port : String → OrderError
