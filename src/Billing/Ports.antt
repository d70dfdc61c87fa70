-- ===== src/Billing/Ports.antt =====
-- internal/port/outbound/billing.go: what the billing service asks of the world `W`. A cost in
-- dollars (float64) is a value of `F`, which the service only passes on.
use uniedit_server.Common.{ℕ, ℤ, String, Bool, Option, Port}
use uniedit_server.Billing.Plan.{Plan}
use uniedit_server.Billing.Subscription.{Subscription}

pub record RecordUsageInput (F : Type 0) : Type 0 where
  pub request_id : String
  pub task_type : String
  pub provider_id : ℕ
  pub model_id : String
  pub input_tokens : ℤ
  pub output_tokens : ℤ
  pub cost_usd : F
  pub latency_ms : ℤ
  pub success : Bool

pub record UsageRecord (F : Type 0) : Type 0 where
  pub id : ℤ
  pub user_id : ℕ
  pub api_key_id : Option ℕ
  pub timestamp : ℕ
  pub request_id : String
  pub task_type : String
  pub provider_id : ℕ
  pub model_id : String
  pub input_tokens : ℤ
  pub output_tokens : ℤ
  pub total_tokens : ℤ
  pub cost_usd : F
  pub latency_ms : ℤ
  pub success : Bool
  pub cache_hit : Bool

pub record QuotaStatus : Type 0 where
  pub plan : String
  pub tokens_used : ℤ
  pub tokens_limit : ℤ
  pub tokens_remaining : ℤ
  pub requests_today : ℤ
  pub requests_limit : ℤ
  pub reset_at : ℕ

-- The fields of `billingDomain`.
pub record Ports (W F : Type 0) : Type 0 where
  pub get_plan_by_id : String → Port W (Option Plan)
  pub create : Subscription → Port W (Unit {0})
  pub get_by_user_id : ℕ → Port W (Option Subscription)
  pub get_by_user_id_with_plan : ℕ → Port W (Option Subscription)
  pub get_by_stripe_id : String → Port W (Option Subscription)
  pub update : Subscription → Port W (Unit {0})
  pub create_usage : UsageRecord F → Port W (Unit {0})
  pub get_monthly_tokens : ℕ → ℕ → Port W ℤ
  pub get_daily_requests : ℕ → ℕ → Port W ℤ
  pub get_tokens_used : ℕ → ℕ → Port W ℤ
  pub increment_tokens : ℕ → ℕ → ℕ → ℤ → Port W ℤ
  pub get_requests_today : ℕ → Port W ℤ
  pub increment_requests : ℕ → Port W ℤ
  pub reset_tokens : ℕ → ℕ → Port W (Unit {0})
