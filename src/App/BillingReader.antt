-- ===== src/App/BillingReader.antt =====
-- internal/app/app.go: `billingReaderAdapter`, subscriptions as the payment service reads them.
use uniedit_server.Common.{ℕ, ℤ, String, Option, some, Port, ◌>>=◌, give}
use uniedit_server.Billing.Errors.{BillingError}
use uniedit_server.Billing.Status.{
  SubscriptionStatus, trialing, active, past_due, canceled, incomplete, other,
}
use uniedit_server.Billing.Subscription.{Subscription}
use uniedit_server.Billing.Ports.{Ports}
use uniedit_server.Billing.Service.Account.{get_subscription, add_credits}
use uniedit_server.Payment.Ports.{PaymentSubscriptionInfo}
use uniedit_server.App.OrderReader.{as_port}

-- `string(sub.Status)`.
abbrev status_text : SubscriptionStatus → String
status_text trialing = "trialing"
status_text active = "active"
status_text past_due = "past_due"
status_text canceled = "canceled"
status_text incomplete = "incomplete"
status_text (other s) = s

unfoldable pub subscription_info : Subscription → PaymentSubscriptionInfo
subscription_info s = record {
  user_id = s.user_id;
  plan_id = s.plan_id;
  status = status_text s.status;
  stripe_customer_id = s.stripe_customer_id;
}

module _ {W F : Type 0} (text : BillingError → String) (d : Ports W F) where
  unfoldable pub read_subscription : ℕ → Port W (Option PaymentSubscriptionInfo)
  read_subscription user_id =
      as_port text (do s ← get_subscription d user_id; give (some (subscription_info s)))

  unfoldable pub credit : ℕ → ℕ → ℤ → String → Port W (Unit {0})
  credit now user_id amount source = as_port text (add_credits d now user_id amount)
