-- ===== src/Billing/Service/Account.antt =====
-- internal/domain/billing/domain.go: subscriptions and credits through the database. `uuid.New()` and
-- `time.Now()` are arguments, and calls of the logger are left out.
use uniedit_server.Common.{
  ℕ, ℤ, pos, String, Bool, true, false, not, if◌then◌else◌, ltb, lt_ℤ, le_ℤ, add64, sub64, Option,
  none, some, Result, ok, Service, ◌>>=◌, ◌>>◌, give, require, try, call, found,
}
use uniedit_server.Billing.Status.{SubscriptionStatus, active, canceled}
use uniedit_server.Billing.Plan.{Plan}
use uniedit_server.Billing.Subscription.{Subscription, is_canceled}
use uniedit_server.Billing.Errors.{
  BillingError, plan_not_found, plan_not_active, subscription_not_found, subscription_exists,
  subscription_canceled, insufficient_credits, invalid_credits_amount, from_port,
}
use uniedit_server.Billing.Ports.{Ports}

-- `err == nil && existing != nil`.
abbrev pub exists : Result String (Option Subscription) → Bool
exists (ok (some s)) = true
exists _ = false

module _ {W F : Type 0} (d : Ports W F) where
  unfoldable pub get_plan : String → Service W BillingError Plan
  get_plan plan_id = do plan ← call from_port (d.get_plan_by_id plan_id); found plan plan_not_found

  unfoldable pub get_subscription : ℕ → Service W BillingError Subscription
  get_subscription user_id = do
    sub ← call from_port (d.get_by_user_id_with_plan user_id)
    found sub subscription_not_found

  unfoldable pub create_subscription :
      (ℕ → ℕ) → ℕ → ℕ → ℕ → String → Service W BillingError (Option Subscription)
  create_subscription end_of_month new_id now user_id plan_id = do
    existing ← try (d.get_by_user_id user_id)
    require (not (exists existing)) subscription_exists
    plan ← found (← call from_port (d.get_plan_by_id plan_id)) plan_not_found
    require plan.active plan_not_active
    call from_port (
        d.create (record {
          id = new_id;
          user_id = user_id;
          plan_id = plan_id;
          status = active;
          stripe_customer_id = "";
          stripe_subscription_id = "";
          current_period_start = now;
          current_period_end = end_of_month now;
          cancel_at_period_end = false;
          canceled_at = none;
          credits_balance = pos 0;
          created_at = now;
          updated_at = now;
          plan = none;
        }))
    call from_port (d.get_by_user_id_with_plan user_id)

  unfoldable pub cancel_subscription : ℕ → ℕ → Bool → Service W BillingError Subscription
  cancel_subscription now user_id immediately = do
    sub ← found (← call from_port (d.get_by_user_id_with_plan user_id)) subscription_not_found
    require (not (is_canceled sub)) subscription_canceled
    let t = record sub { canceled_at = some now; updated_at = now }
    let u =
        if immediately
        then record t { status = canceled; plan_id = "free" }
        else record t { cancel_at_period_end = true }
    call from_port (d.update u)
    give u

  unfoldable pub get_balance : ℕ → Service W BillingError ℤ
  get_balance user_id = do
    sub ← found (← call from_port (d.get_by_user_id user_id)) subscription_not_found
    give sub.credits_balance

  unfoldable pub add_credits : ℕ → ℕ → ℤ → Service W BillingError (Unit {0})
  add_credits now user_id amount = do
    require (not (le_ℤ amount (pos 0))) invalid_credits_amount
    sub ← found (← call from_port (d.get_by_user_id user_id)) subscription_not_found
    call from_port (
        d.update
          (record sub { credits_balance = add64 sub.credits_balance amount; updated_at = now }))

  unfoldable pub deduct_credits : ℕ → ℕ → ℤ → Service W BillingError (Unit {0})
  deduct_credits now user_id amount = do
    require (not (le_ℤ amount (pos 0))) invalid_credits_amount
    sub ← found (← call from_port (d.get_by_user_id user_id)) subscription_not_found
    require (not (lt_ℤ sub.credits_balance amount)) insufficient_credits
    call from_port (
        d.update
          (record sub { credits_balance = sub64 sub.credits_balance amount; updated_at = now }))

  unfoldable pub update_subscription_from_stripe :
      ℕ → String → SubscriptionStatus → ℕ → ℕ → Bool → Service W BillingError (Unit {0})
  update_subscription_from_stripe now stripe_id status period_start period_end
        cancel_at_period_end =
      do
        sub ← found (← call from_port (d.get_by_stripe_id stripe_id)) subscription_not_found
        call from_port (
            d.update (record sub {
              status = status;
              current_period_start = period_start;
              current_period_end = period_end;
              cancel_at_period_end = cancel_at_period_end;
              updated_at = now;
            }))
        if ltb sub.current_period_start period_start
            then (do _ ← try (d.reset_tokens sub.user_id sub.current_period_start); give tt)
            else give tt
