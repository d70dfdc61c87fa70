-- ===== src/Ai/Ports.antt =====
-- internal/port/outbound/ai.go: what the modelled operations ask of the world `W`, with the accounts and
-- groups of internal/model/ai.go as far as they are read.
use uniedit_server.Common.{ℕ, ℤ, String, Bool, true, false, Option, List, Result, Port}
use uniedit_server.Ai.Model.{AiProvider, AiModel}

pub data AiHealthStatus : Type 0 where
  healthy degraded unhealthy : AiHealthStatus
  other_health : String → AiHealthStatus

unfoldable pub can_serve_requests : AiHealthStatus → Bool
can_serve_requests healthy = true
can_serve_requests degraded = true
can_serve_requests _ = false

pub record AiProviderAccount : Type 0 where
  pub id : ℕ
  pub provider_id : ℕ
  pub encrypted_api_key : String
  pub priority : ℤ
  pub health_status : AiHealthStatus
  pub consecutive_failures : ℤ

pub record AiModelGroup : Type 0 where
  pub id : String
  pub models : List String

pub record Ports (W F : Type 0) : Type 0 where
  pub find_provider : ℕ → Port W (Option AiProvider)
  pub find_enabled_providers : Port W (List AiProvider)
  pub find_model : String → Port W (Option (AiModel F))
  pub find_enabled_models : Port W (List (AiModel F))
  pub find_by_capabilities : List String → Port W (List (AiModel F))
  pub find_group : String → Port W (Option AiModelGroup)
  -- The adapter for a provider, as a handle, and its check of the provider with a key.
  pub get_for_provider : AiProvider → Port W ℕ
  pub health_check : ℕ → AiProvider → String → Port W (Unit {0})
  pub delete_models : ℕ → Port W (Unit {0})
  pub delete_provider : ℕ → Port W (Unit {0})

-- `AIProviderAccountDatabasePort`, which may be nil.
pub record AccountPorts (W F : Type 0) : Type 0 where
  pub find_available_by_provider : ℕ → Port W (List AiProviderAccount)
  pub find_account : ℕ → Port W (Option AiProviderAccount)
  pub update_health : ℕ → AiHealthStatus → ℤ → Port W (Unit {0})
  pub increment_usage : ℕ → ℤ → ℤ → F → Port W (Unit {0})
  pub delete_accounts : ℕ → Port W (Unit {0})

-- `AICryptoPort`, which may be nil.
pub record Crypto : Type 0 where
  pub decrypt : String → Result String String
