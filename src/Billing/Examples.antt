-- ===== src/Billing/Examples.antt =====
-- The theorems of billing, on one subscription with its ports in memory.
use uniedit_server.Common.{
  ◌≡◌, refl, ℕ, ℤ, pos, negsuc, ◌+ℤ◌, ◌≤ℤ◌, ◌<ℤ◌, String, String_Eq, true, false, none, some,
  Option, List, [], ◌∷◌, Result, ok, err, returns, fails_with, arith,
}
use uniedit_server.Billing.Status.{active, monthly, status_is_active, pro, SubscriptionStatus_Eq}
use uniedit_server.Billing.Plan.{Plan, is_unlimited_tokens, is_unlimited_requests}
use uniedit_server.Billing.Errors.{invalid_credits_amount, subscription_not_found}
use uniedit_server.Billing.Subscription.{
  Subscription, deduct_credits, cancel, reactivate, is_active,
}
use uniedit_server.Billing.Subscription
use uniedit_server.Billing.Calls.{Call, adds, deducts, run}
use uniedit_server.Billing.Credits.{run_books}
use uniedit_server.Billing.Ports.{Ports, QuotaStatus}
use uniedit_server.Billing.Service.Account
use uniedit_server.Billing.Service.Account.{cancel_subscription}
use uniedit_server.Billing.Service.Quota.{
  get_quota_status, check_quota, check_tokens, check_requests, tokens_used, requests_today,
}
use uniedit_server.Billing.Service.Refinement.{stored, credits_refine}
use uniedit_server.Billing.Service.Limits.{expected, check_quota-expected}

abbrev pro_plan : Plan
pro_plan = record {
  id = "pro";
  plan_type = pro;
  name = "Pro";
  description = "";
  billing_cycle = monthly;
  price_usd = pos 2000;
  stripe_price_id = "";
  features = [];
  active = true;
  display_order = pos 2;
  monthly_tokens = pos 1000;
  daily_requests = negsuc 0;
  max_api_keys = pos 5;
  monthly_chat_tokens = pos 0;
  monthly_image_credits = pos 0;
  monthly_video_minutes = pos 0;
  monthly_embedding_tokens = pos 0;
  git_storage_mb = pos 0;
  lfs_storage_mb = pos 0;
  max_team_members = pos 0;
  created_at = 1;
  updated_at = 1;
}

abbrev member : Subscription
member = record {
  id = 3;
  user_id = 5;
  plan_id = "pro";
  status = active;
  stripe_customer_id = "";
  stripe_subscription_id = "";
  current_period_start = 100;
  current_period_end = 200;
  cancel_at_period_end = false;
  canceled_at = none;
  credits_balance = pos 40;
  created_at = 90;
  updated_at = 100;
  plan = some pro_plan;
}

abbrev answer : Option ℤ → Result String ℤ
answer none = err "down"
answer (some n) = ok n

-- A database with at most one subscription, over given counters of the cache.
abbrev memory : Option ℤ → Ports (Option Subscription) ℕ
memory counter = record {
  get_plan_by_id = λ id w. (ok (some pro_plan), w);
  create = λ s w. (ok tt, some s);
  get_by_user_id = λ id w. (ok w, w);
  get_by_user_id_with_plan = λ id w. (ok w, w);
  get_by_stripe_id = λ id w. (ok w, w);
  update = λ s w. (ok tt, some s);
  create_usage = λ r w. (ok tt, w);
  get_monthly_tokens = λ id start w. (answer counter, w);
  get_daily_requests = λ id now w. (answer counter, w);
  get_tokens_used = λ id start w. (answer counter, w);
  increment_tokens = λ id start end n w. (ok n, w);
  get_requests_today = λ id w. (answer counter, w);
  increment_requests = λ id w. (ok (pos 1), w);
  reset_tokens = λ id start w. (ok tt, w);
}

abbrev ports : Ports (Option Subscription) ℕ
ports = memory (some (pos 700))

abbrev down : Ports (Option Subscription) ℕ
down = memory none

check_quota_passes : check_quota ports 150 5 (some member) ≡ (returns tt, some member)
unfolding check_quota tokens_used requests_today check_tokens check_requests is_unlimited_tokens
    is_unlimited_requests is_active status_is_active
check_quota_passes = refl

abbrev bookings : List (Call × ℕ)
bookings = (adds (pos 100), 110) ∷ (deducts (pos 500), 111) ∷ (deducts (pos 30), 112) ∷ []

run_books_example :
    ((run member bookings).0.credits_balance ≡ pos 40 +ℤ (run member bookings).1)
    × (pos 0 ≤ℤ (run member bookings).0.credits_balance)
run_books_example = run_books member bookings (omega arith, omega arith)

credits_refine_example :
    (pos 25 ≤ℤ pos 0
      → (Account.add_credits ports 120 5 (pos 25) (some member)
          ≡ (fails_with invalid_credits_amount, some member))
        × (Account.deduct_credits ports 120 5 (pos 25) (some member)
            ≡ (fails_with invalid_credits_amount, some member)))
    × ((s : Subscription)
        → pos 0 <ℤ pos 25
        → ports.get_by_user_id 5 (some member) ≡ (ok (some s), some member)
        → (Account.add_credits ports 120 5 (pos 25) (some member)
            ≡ stored ports (Subscription.add_credits s (pos 25) 120) (some member))
          × (Account.deduct_credits ports 120 5 (pos 25) (some member)
              ≡ stored ports (deduct_credits s (pos 25) 120) (some member)))
    × (pos 0 <ℤ pos 25
        → ports.get_by_user_id 5 (some member) ≡ (ok none, some member)
        → (Account.add_credits ports 120 5 (pos 25) (some member)
            ≡ (fails_with subscription_not_found, some member))
          × (Account.deduct_credits ports 120 5 (pos 25) (some member)
              ≡ (fails_with subscription_not_found, some member)))
credits_refine_example = credits_refine ports 120 5 (pos 25) (some member) (some member)

check_quota-expected_example :
    (q : QuotaStatus) × (get_quota_status ports 150 5 (some member) ≡ (returns q, some member))
    × (check_quota ports 150 5 (some member) ≡ (expected q, some member))
unfolding tokens_used requests_today is_active status_is_active
check_quota-expected_example =
    check_quota-expected ports 150 5 member pro_plan (some member) (pos 700) (pos 700)
      (record { sub_found = refl; tokens_lem = refl; requests_lem = refl }) refl refl
      (omega arith, omega arith) (omega arith, omega arith) (omega arith) (omega arith)
