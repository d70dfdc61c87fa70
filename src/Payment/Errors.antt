-- ===== src/Payment/Errors.antt =====
-- internal/domain/payment/errors.go, and the errors that wrap one of a port.
use uniedit_server.Common.{String}

pub data PaymentError : Type 0 where
  already_succeeded not_succeeded invalid_refund_amount : PaymentError
  invalid_status_transition order_not_pending forbidden provider_not_available : PaymentError
  no_charge_id unsupported_provider invalid_payment_id : PaymentError
  from_port : String → PaymentError
