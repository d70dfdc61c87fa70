-- ===== src/Billing/Plan.antt =====
-- internal/model/billing.go: a plan with its quotas, where -1 means unlimited.
use uniedit_server.Common.{ℕ, ℤ, pos, negsuc, eq_ℤ, String, Bool, List, if◌then◌else◌}
use uniedit_server.Billing.Status.{PlanType, BillingCycle}

pub record Plan : Type 0 where
  pub id : String
  pub plan_type : PlanType
  pub name : String
  pub description : String
  pub billing_cycle : BillingCycle
  pub price_usd : ℤ
  pub stripe_price_id : String
  pub features : List String
  pub active : Bool
  pub display_order : ℤ
  pub monthly_tokens : ℤ
  pub daily_requests : ℤ
  pub max_api_keys : ℤ
  pub monthly_chat_tokens : ℤ
  pub monthly_image_credits : ℤ
  pub monthly_video_minutes : ℤ
  pub monthly_embedding_tokens : ℤ
  pub git_storage_mb : ℤ
  pub lfs_storage_mb : ℤ
  pub max_team_members : ℤ
  pub created_at : ℕ
  pub updated_at : ℕ

unfoldable pub is_unlimited_tokens : Plan → Bool
is_unlimited_tokens p = eq_ℤ p.monthly_tokens (negsuc 0)

unfoldable pub is_unlimited_requests : Plan → Bool
is_unlimited_requests p = eq_ℤ p.daily_requests (negsuc 0)

unfoldable pub get_effective_chat_token_limit : Plan → ℤ
get_effective_chat_token_limit p =
    if eq_ℤ p.monthly_chat_tokens (pos 0) then p.monthly_tokens else p.monthly_chat_tokens
