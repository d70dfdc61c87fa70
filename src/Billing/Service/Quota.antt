-- ===== src/Billing/Service/Quota.antt =====
-- internal/domain/billing/domain.go: the checks and the counters of the quotas. `time.Now()` is the
-- argument `now`, and calls of the logger are left out.
use uniedit_server.Common.{
  ℕ, ℤ, pos, none, false, negsuc, String, if◌then◌else◌, lt_ℤ, eq_ℤ, add64, sub64, Result, ok, err,
  Service, Reply, returns, ◌>>=◌, ◌>>◌, give, require, try, call, found,
}
use uniedit_server.Billing.Plan.{Plan, is_unlimited_tokens, is_unlimited_requests}
use uniedit_server.Billing.Subscription.{Subscription, is_active}
use uniedit_server.Billing.Errors.{
  BillingError, subscription_not_found, quota_exceeded, token_limit_reached, request_limit_reached,
  no_plan_loaded, from_port,
}
use uniedit_server.Billing.Ports.{Ports, QuotaStatus, RecordUsageInput, UsageRecord}

-- A result whose error is dropped: the number is then 0.
abbrev pub or_zero : Result String ℤ → ℤ
or_zero (ok n) = n
or_zero (err e) = pos 0

module _ {W F : Type 0} (d : Ports W F) where
  -- The counter of the cache, or, if the cache fails, the one of the database.
  unfoldable pub tokens_used : ℕ → Subscription → Service W BillingError ℤ
  tokens_used user_id sub = do
    cached ← try (d.get_tokens_used user_id sub.current_period_start)
    elim cached [
      | ok n ↦ give n
      | err e ↦ do
        stored ← try (d.get_monthly_tokens user_id sub.current_period_start)
        give (or_zero stored)
    ]

  unfoldable pub requests_today : ℕ → ℕ → Service W BillingError ℤ
  requests_today user_id now = do
    cached ← try (d.get_requests_today user_id)
    elim cached [
      | ok n ↦ give n
      | err e ↦ do stored ← try (d.get_daily_requests user_id now); give (or_zero stored)
    ]

  unfoldable pub get_quota_status : ℕ → ℕ → Service W BillingError QuotaStatus
  get_quota_status now user_id = do
    sub ← found (← call from_port (d.get_by_user_id_with_plan user_id)) subscription_not_found
    plan ← found sub.plan no_plan_loaded
    used ← tokens_used user_id sub
    requests ← requests_today user_id now
    let left = sub64 plan.monthly_tokens used
    give (record {
      plan = plan.name;
      tokens_used = used;
      tokens_limit = plan.monthly_tokens;
      tokens_remaining =
          if eq_ℤ plan.monthly_tokens (negsuc 0)
          then negsuc 0
          else if lt_ℤ left (pos 0)
          then pos 0
          else left;
      requests_today = requests;
      requests_limit = plan.daily_requests;
      reset_at = sub.current_period_end;
    })

  unfoldable pub check_tokens : ℕ → Subscription → Plan → Service W BillingError (Unit {0})
  check_tokens user_id sub plan = if is_unlimited_tokens plan then give tt else (do
    used ← tokens_used user_id sub
    require (lt_ℤ used plan.monthly_tokens) token_limit_reached)

  unfoldable pub check_requests : ℕ → ℕ → Plan → Service W BillingError (Unit {0})
  check_requests now user_id plan = if is_unlimited_requests plan then give tt else (do
    requests ← requests_today user_id now
    require (lt_ℤ requests plan.daily_requests) request_limit_reached)

  unfoldable pub check_quota : ℕ → ℕ → Service W BillingError (Unit {0})
  check_quota now user_id = do
    sub ← found (← call from_port (d.get_by_user_id_with_plan user_id)) quota_exceeded
    require (is_active sub) quota_exceeded
    plan ← found sub.plan no_plan_loaded
    check_tokens user_id sub plan
    check_requests now user_id plan

  unfoldable pub consume_quota : ℕ → ℤ → Service W BillingError (Unit {0})
  consume_quota user_id tokens = do
    sub ← found (← call from_port (d.get_by_user_id user_id)) subscription_not_found
    _ ← try (d.increment_tokens user_id sub.current_period_start sub.current_period_end tokens)
    _ ← try (d.increment_requests user_id)
    give tt

  -- An error of `ConsumeQuota` is logged and dropped.
  abbrev dropped : Reply BillingError (Unit {0}) × W → Reply BillingError (Unit {0}) × W
  dropped (r, w) = (returns tt, w)

  -- The row of a use; its id is the database's.
  abbrev usage_record : ℕ → ℕ → RecordUsageInput F → ℤ → UsageRecord F
  usage_record now user_id input total = record {
    id = pos 0;
    user_id = user_id;
    api_key_id = none;
    timestamp = now;
    request_id = input.request_id;
    task_type = input.task_type;
    provider_id = input.provider_id;
    model_id = input.model_id;
    input_tokens = input.input_tokens;
    output_tokens = input.output_tokens;
    total_tokens = total;
    cost_usd = input.cost_usd;
    latency_ms = input.latency_ms;
    success = input.success;
    cache_hit = false;
  }

  unfoldable pub record_usage : ℕ → ℕ → RecordUsageInput F → Service W BillingError (Unit {0})
  record_usage now user_id input = do
    let total = add64 input.input_tokens input.output_tokens
    call from_port (d.create_usage (usage_record now user_id input total))
    if input.success then (λ w. dropped (consume_quota user_id total w)) else give tt
