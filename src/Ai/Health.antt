-- ===== src/Ai/Health.antt =====
-- internal/domain/ai/domain.go: the health of providers and accounts, in the memory of the domain and in the
-- database. Ids of accounts are numbers, so that parsing one never fails; the optional cache of the health
-- of providers is left out.
use uniedit_server.Common.{
  ℕ, ℕ_Eq, ℤ, pos, le_ℤ, add64, Bool, true, false, ◌==◌, if◌then◌else◌, Option, none, some, List,
  [], ◌∷◌, Result, ok, err, Service, raise, give, try, call, found, ◌>>=◌, ◌>>◌, String,
}
use uniedit_server.Ai.Model.{AiProvider}
use uniedit_server.Ai.Ports.{
  Ports, AccountPorts, AiProviderAccount, AiHealthStatus, healthy, degraded, unhealthy,
  can_serve_requests,
}
use uniedit_server.Ai.Routing.{AiError, provider_not_found, adapter_not_found, from_port}

-- `healthStatus` and `accountHealth`, latest entry first.
pub record Memory : Type 0 where
  pub health_status : List (ℕ × Bool)
  pub account_health : List (ℕ × AiHealthStatus)

abbrev pub entry : {A : Type 0} → ℕ → List (ℕ × A) → Option A
entry id [] = none
entry id ((i, a) ∷ entries) = let rest = entry id entries in if i == id then some a else rest

unfoldable pub is_provider_healthy : Memory → ℕ → Bool
is_provider_healthy m id = elim (entry id m.health_status) [ none ↦ false | some b ↦ b ]

unfoldable pub is_account_healthy : Memory → ℕ → Bool
is_account_healthy m id = elim (entry id m.account_health) [
  | none ↦ false
  | some s ↦ can_serve_requests s
]

abbrev pub update_provider_health : ℕ → Bool → Memory → Memory
update_provider_health id b m = record m { health_status = (id, b) ∷ m.health_status }

abbrev pub update_account_health : ℕ → AiHealthStatus → Memory → Memory
update_account_health id s m = record m { account_health = (id, s) ∷ m.account_health }

-- `err == nil`.
abbrev pub succeeded : {A : Type 0} → Result String A → Bool
succeeded (ok a) = true
succeeded (err m) = false

-- `AIFailuresToUnhealthy` is 5 and `AIFailuresToDegrade` is 2.
abbrev pub new_status : ℤ → AiHealthStatus → AiHealthStatus
new_status failures s =
    if le_ℤ (pos 5) failures then unhealthy else if le_ℤ (pos 2) failures then degraded else s

module _ {W F : Type 0} (d : Ports W F) where
  unfoldable pub provider_health_check : ℕ → Memory → Service W AiError (Bool × Memory)
  provider_health_check id m = do
    p ← found (← call from_port (d.find_provider id)) provider_not_found
    adapter ← call from_port (d.get_for_provider p)
    r ← try (d.health_check adapter p p.api_key)
    give (succeeded r, update_provider_health id (succeeded r) m)

  abbrev pub check_with : AiProvider → Result String ℕ → Service W AiError Bool
  check_with p (err e) = give false
  check_with p (ok adapter) = do r ← try (d.health_check adapter p p.api_key); give (succeeded r)

  unfoldable pub check_providers : List AiProvider → Memory → Service W AiError Memory
  check_providers [] m = give m
  check_providers (p ∷ providers) m = do
    adapter ← try (d.get_for_provider p)
    b ← check_with p adapter
    check_providers providers (update_provider_health p.id b m)

  unfoldable pub run_health_check : Memory → Service W AiError Memory
  run_health_check m = do
    r ← try d.find_enabled_providers
    elim r [ err e ↦ give m | ok providers ↦ check_providers providers m ]

module _ {W F : Type 0} where
  unfoldable pub delete_provider :
      Ports W F → Option (AccountPorts W F) → ℕ → Service W AiError (Unit {0})
  delete_provider d none id = do
    call from_port (d.delete_models id)
    call from_port (d.delete_provider id)
  delete_provider d (some a) id = do
    call from_port (d.delete_models id)
    call from_port (a.delete_accounts id)
    call from_port (d.delete_provider id)

  unfoldable pub reset_account_health : Option (AccountPorts W F) → ℕ → Service W AiError (Unit {0})
  reset_account_health none id = raise adapter_not_found
  reset_account_health (some a) id = call from_port (a.update_health id healthy (pos 0))

  abbrev pub marked_success : AccountPorts W F → ℕ → ℤ → F → Memory → Service W AiError Memory
  marked_success a id tokens cost m = do
    ignored ← try (a.increment_usage id (pos 1) tokens cost)
    give (update_account_health id healthy m)

  -- The tokens of the usage, 0 for none, and the cost.
  unfoldable pub mark_request_success :
      Option (AccountPorts W F) → Option ℕ → ℤ → F → Memory → Service W AiError Memory
  mark_request_success (some a) (some id) tokens cost m = marked_success a id tokens cost m
  mark_request_success _ _ tokens cost m = give m

  abbrev pub failed_once :
      AccountPorts W F → ℕ → AiProviderAccount → Memory → Service W AiError Memory
  failed_once a id account m =
      let failures = add64 account.consecutive_failures (pos 1) in
      let status = new_status failures account.health_status in
      (do
        ignored ← try (a.update_health id status failures)
        give (update_account_health id status m))

  -- An error of the lookup, and an account that is not found, change nothing.
  abbrev pub marked_failure :
      AccountPorts W F
      → ℕ
      → Result String (Option AiProviderAccount)
      → Memory
      → Service W AiError Memory
  marked_failure a id (ok (some account)) m = failed_once a id account m
  marked_failure a id _ m = give m

  unfoldable pub mark_request_failure :
      Option (AccountPorts W F) → Option ℕ → Memory → Service W AiError Memory
  mark_request_failure (some a) (some id) m = do
    r ← try (a.find_account id)
    marked_failure a id r m
  mark_request_failure _ _ m = give m
