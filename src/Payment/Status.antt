-- ===== src/Payment/Status.antt =====
-- internal/domain/payment/status.go (internal/model/payment.go repeats it): the states of a payment.
use uniedit_server.Common.{
  ◌≡◌, Bool, true, false, ◌||◌, String, Eq, ◌==◌, ◌↔◌, arith, eq_iff, str_eq,
}

-- `other s` is a string that is none of the constants.
pub data PaymentStatus : Type 0 where
  pending processing succeeded failed canceled refunded : PaymentStatus
  other : String → PaymentStatus

abbrev status_eq : PaymentStatus → PaymentStatus → Bool
status_eq pending pending = true
status_eq processing processing = true
status_eq succeeded succeeded = true
status_eq failed failed = true
status_eq canceled canceled = true
status_eq refunded refunded = true
status_eq (other s) (other t) = str_eq s t
status_eq _ _ = false

pub status_eq_iff : (s t : PaymentStatus) → (status_eq s t ≡ true) ↔ (s ≡ t)
status_eq_iff (other s) (other t) = ground (arith, eq_iff s t)
status_eq_iff s t = ground arith

instance abbrev pub PaymentStatus_Eq : Eq PaymentStatus
PaymentStatus_Eq = record { is_eq = status_eq; is_eq_iff = status_eq_iff }

unfoldable pub is_terminal : PaymentStatus → Bool
is_terminal s = s == succeeded || s == failed || s == canceled || s == refunded

unfoldable pub is_succeeded : PaymentStatus → Bool
is_succeeded s = s == succeeded

unfoldable pub can_transition_to : PaymentStatus → PaymentStatus → Bool
can_transition_to pending target =
    target == processing || target == succeeded || target == failed || target == canceled
can_transition_to processing target = target == succeeded || target == failed || target == canceled
can_transition_to succeeded target = target == refunded
can_transition_to failed target = false
can_transition_to canceled target = false
can_transition_to refunded target = false
can_transition_to (other s) target = false

pub data PaymentMethod : Type 0 where
  card alipay wechat : PaymentMethod
  other_method : String → PaymentMethod

-- `PaymentMethod.IsNative`.
unfoldable pub is_native : PaymentMethod → Bool
is_native alipay = true
is_native wechat = true
is_native _ = false
