-- ===== src/Billing/Subscription.antt =====
-- internal/domain/billing/subscription.go: a subscription with its credits. A method that mutates
-- `*Subscription` returns the new record with its error; `time.Now()` is the argument `now`.
use uniedit_server.Common.{
  ℕ, ℤ, pos, String, String_Eq, ℕ_Eq, Bool, true, false, not, ◌&&◌, ◌==◌, if◌then◌else◌, lt_ℤ, le_ℤ,
  add64, sub64, Option, none, some, Result, ok, err,
}
use uniedit_server.Billing.Status.{
  SubscriptionStatus, active, canceled, SubscriptionStatus_Eq, status_is_active,
}
use uniedit_server.Billing.Plan.{Plan}
use uniedit_server.Billing.Errors.{
  BillingError, empty_user_id, empty_plan_id, already_canceled, not_canceled, not_positive,
  short_of_credits,
}

pub record Subscription : Type 0 where
  pub id : ℕ
  pub user_id : ℕ
  pub plan_id : String
  pub status : SubscriptionStatus
  pub stripe_customer_id : String
  pub stripe_subscription_id : String
  pub current_period_start : ℕ
  pub current_period_end : ℕ
  pub cancel_at_period_end : Bool
  pub canceled_at : Option ℕ
  pub credits_balance : ℤ
  pub created_at : ℕ
  pub updated_at : ℕ
  pub plan : Option Plan

-- `end_of_month` stands for the calendar of the time library.
unfoldable pub new_subscription : (ℕ → ℕ) → ℕ → ℕ → ℕ → String → Result BillingError Subscription
new_subscription end_of_month new_id now user_id plan_id =
    if user_id == 0
    then err empty_user_id
    else if plan_id == ""
    then err empty_plan_id
    else ok (record {
      id = new_id;
      user_id = user_id;
      plan_id = plan_id;
      status = active;
      stripe_customer_id = "";
      stripe_subscription_id = "";
      current_period_start = now;
      current_period_end = end_of_month now;
      cancel_at_period_end = false;
      canceled_at = none;
      credits_balance = pos 0;
      created_at = now;
      updated_at = now;
      plan = none;
    })

unfoldable pub is_active : Subscription → Bool
is_active s = status_is_active s.status

unfoldable pub is_canceled : Subscription → Bool
is_canceled s = s.status == canceled

unfoldable pub cancel : Subscription → Bool → ℕ → Subscription × Option BillingError
cancel s immediately now =
    if is_canceled s
    then (s, some already_canceled)
    else let t = record s { canceled_at = some now; updated_at = now } in
      (
        if immediately
            then record t { status = canceled; plan_id = "free" }
            else record t { cancel_at_period_end = true },
        none,
      )

unfoldable pub reactivate : Subscription → ℕ → Subscription × Option BillingError
reactivate s now =
    if not (is_canceled s) && not s.cancel_at_period_end then (s, some not_canceled) else (
      record s {
        cancel_at_period_end = false;
        canceled_at = none;
        status = active;
        updated_at = now;
      },
      none,
    )

unfoldable pub add_credits : Subscription → ℤ → ℕ → Subscription × Option BillingError
add_credits s amount now =
    if le_ℤ amount (pos 0)
    then (s, some not_positive)
    else (record s { credits_balance = add64 s.credits_balance amount; updated_at = now }, none)

unfoldable pub deduct_credits : Subscription → ℤ → ℕ → Subscription × Option BillingError
deduct_credits s amount now =
    if le_ℤ amount (pos 0)
    then (s, some not_positive)
    else if lt_ℤ s.credits_balance amount
    then (s, some (short_of_credits s.credits_balance amount))
    else (record s { credits_balance = sub64 s.credits_balance amount; updated_at = now }, none)

unfoldable pub has_sufficient_credits : Subscription → ℤ → Bool
has_sufficient_credits s amount = le_ℤ amount s.credits_balance

unfoldable pub update_from_stripe :
    Subscription → SubscriptionStatus → ℕ → ℕ → Bool → ℕ → Subscription
update_from_stripe s status period_start period_end cancel_at_period_end now = record s {
  status = status;
  current_period_start = period_start;
  current_period_end = period_end;
  cancel_at_period_end = cancel_at_period_end;
  updated_at = now;
}

unfoldable pub set_stripe_ids : Subscription → String → String → ℕ → Subscription
set_stripe_ids s customer_id subscription_id now = record s {
  stripe_customer_id = customer_id;
  stripe_subscription_id = subscription_id;
  updated_at = now;
}

unfoldable pub set_plan : Subscription → Plan → ℕ → Subscription
set_plan s plan now = record s { plan = some plan; plan_id = plan.id; updated_at = now }

unfoldable pub renew_period : Subscription → ℕ → ℕ → ℕ → Subscription
renew_period s start end now = record s {
  current_period_start = start;
  current_period_end = end;
  updated_at = now;
}
