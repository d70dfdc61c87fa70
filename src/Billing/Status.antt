-- ===== src/Billing/Status.antt =====
-- internal/domain/billing/status.go (internal/model/billing.go repeats it): plans' and subscriptions'
-- enumerations.
use uniedit_server.Common.{
  ◌≡◌, Bool, true, false, ◌||◌, String, Eq, ◌==◌, ◌↔◌, arith, eq_iff, str_eq,
}

-- `other s` is a string that is none of the constants; so for the other two.
pub data SubscriptionStatus : Type 0 where
  trialing active past_due canceled incomplete : SubscriptionStatus
  other : String → SubscriptionStatus

abbrev status_eq : SubscriptionStatus → SubscriptionStatus → Bool
status_eq trialing trialing = true
status_eq active active = true
status_eq past_due past_due = true
status_eq canceled canceled = true
status_eq incomplete incomplete = true
status_eq (other s) (other t) = str_eq s t
status_eq _ _ = false

pub status_eq_iff : (s t : SubscriptionStatus) → (status_eq s t ≡ true) ↔ (s ≡ t)
status_eq_iff (other s) (other t) = ground (arith, eq_iff s t)
status_eq_iff s t = ground arith

instance abbrev pub SubscriptionStatus_Eq : Eq SubscriptionStatus
SubscriptionStatus_Eq = record { is_eq = status_eq; is_eq_iff = status_eq_iff }

-- `SubscriptionStatus.IsActive`.
unfoldable pub status_is_active : SubscriptionStatus → Bool
status_is_active s = s == active || s == trialing

pub data PlanType : Type 0 where
  free pro team enterprise : PlanType
  other_plan : String → PlanType

pub data BillingCycle : Type 0 where
  monthly yearly : BillingCycle
  other_cycle : String → BillingCycle
