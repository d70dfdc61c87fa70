-- ===== src/Billing/Cancellation.antt =====
-- A cancellation of a subscription and its reactivation.
use uniedit_server.Common.{◌≡◌, ℕ, Bool, false, if◌then◌else◌, none, arith}
use uniedit_server.Billing.Status.{active, SubscriptionStatus_Eq}
use uniedit_server.Billing.Subscription.{Subscription, cancel, reactivate, is_canceled}

-- Reactivating an active subscription that was just canceled, at once or for the end of its
-- period, succeeds and gives back the subscription as it was, but for the time of its update and,
-- after a cancellation at once, for its plan, which stays the free one.
pub reactivate-cancel :
    (s : Subscription) (immediately : Bool) (now later : ℕ)
    → s.status ≡ active
    → s.cancel_at_period_end ≡ false
    → s.canceled_at ≡ none
    → reactivate (cancel s immediately now).0 later
      ≡ (record s { plan_id = if immediately then "free" else s.plan_id; updated_at = later }, none)
unfolding cancel reactivate is_canceled
reactivate-cancel s immediately now later a b c = ground arith
