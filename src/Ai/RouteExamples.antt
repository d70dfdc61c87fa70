-- ===== src/Ai/RouteExamples.antt =====
-- The route of a request, and the health of an account over its requests, at concrete calls.
use uniedit_server.Common.{
  sym, Result, err, String, arith, ok, Option, some, none, ◌≡◌, refl, ℕ, ℤ, pos, lt_ℤ, le_ℤ, add64,
  mul64, Bool, true, false, All, List, [], ◌∷◌, length, if◌then◌else◌, panics, wrap64, ◌+ℤ◌, suc,
  ◌∙◌, ap, Reply, returns, fails_with,
}
use uniedit_server.Ai.Model.{
  AiProvider, has_all_capabilities, required_capabilities, has_capability, add_score,
}
use uniedit_server.Ai.Chain.{
  execute, default_strategy_chain, run_strategies, new_strategy_chain, AiRoutingResult,
}
use uniedit_server.Ai.Strategies.{
  preference_filter, health_filter, capability_filter, context_filter, or_largest, required_context,
  preference_score, context_score, window_bonus, cost_score, cost_of, cost_bonus, jittered,
}
use uniedit_server.Ai.Ports.{
  Ports, AccountPorts, AiProviderAccount, AiHealthStatus, healthy, degraded, Crypto,
}
use uniedit_server.Ai.Health.{Memory, is_account_healthy}
use uniedit_server.Ai.Recovery.{AccountTable, success, failure, run, run-health_after}
use uniedit_server.Ai.Routing.{
  route, get_candidates, find_models, candidates_of, resolve_api_key, select_account, select_from,
}
use uniedit_server.Ai.Routes.{Fixed, Usable, Able, Keyed, route_lem}
use uniedit_server.Ai.Examples.{whole, insertion, provider, small_model, large_model, tools_wanted}

-- Two providers, a model each, and one account whose key is encrypted.
abbrev found_provider : ℕ → Option AiProvider
found_provider id = some (provider id)

abbrev world_ports : Ports (Unit {0}) ℤ
world_ports = record {
  find_provider = λ id w. (ok (found_provider id), w);
  find_model = λ id w. (ok none, w);
  find_enabled_models = λ w. (ok (small_model ∷ large_model ∷ []), w);
  find_by_capabilities = λ cs w. (ok (small_model ∷ large_model ∷ []), w);
  find_group = λ id w. (ok none, w);
  find_enabled_providers = λ w. (ok [], w);
  get_for_provider = λ p w. (ok 0, w);
  health_check = λ a p k w. (ok tt, w);
  delete_models = λ id w. (ok tt, w);
  delete_provider = λ id w. (ok tt, w);
}

abbrev account : AiProviderAccount
account = record {
  id = 7;
  provider_id = 2;
  encrypted_api_key = "encrypted";
  priority = pos 1;
  health_status = healthy;
  consecutive_failures = pos 0;
}

abbrev account_ports : AccountPorts (Unit {0}) ℤ
account_ports = record {
  find_available_by_provider = λ id w. (ok (account ∷ []), w);
  find_account = λ id w. (ok (some account), w);
  update_health = λ id s n w. (ok tt, w);
  increment_usage = λ id n t c w. (ok tt, w);
  delete_accounts = λ id w. (ok tt, w);
}

abbrev crypto : Crypto
crypto = record { decrypt = λ k. ok "decrypted" }

abbrev routed : AiRoutingResult ℤ
routed = record {
  provider = provider 2;
  model = large_model;
  score = pos 163900;
  reason = "context window; cost optimization; load balancing";
  account_id = some 7;
  api_key = "decrypted";
}

-- What was answered, or the other where that is an error.
abbrev answer_or : {A : Type 0} → A → Result String A → A
answer_or a (ok b) = b
answer_or a (err m) = a

-- What a table of accounts, where there is one, lists.
abbrev listed_by : Option (AccountPorts (Unit {0}) ℤ) → ℕ → List AiProviderAccount
listed_by none id = []
listed_by (some p) id = answer_or [] (p.find_available_by_provider id tt).0

abbrev world-Fixed : Fixed world_ports (some account_ports)
world-Fixed = record {
  providers = found_provider;
  accounts = λ id. account ∷ [];
  provider_row = λ id o w w' e. ap (λ r. answer_or none r.0) (sym e);
  account_rows =
      λ p id l w w' i e. ap (λ r. answer_or [] r.0) (sym e) ∙ ap (λ o. listed_by o id) (sym i);
}

route_lem_example :
    Usable found_provider routed.provider routed.model
    × Able tools_wanted routed.model
    × Keyed (λ id. account ∷ []) (some crypto) routed
unfolding route get_candidates find_models candidates_of resolve_api_key select_account select_from
    execute run_strategies default_strategy_chain new_strategy_chain preference_filter health_filter
    capability_filter context_filter required_context required_capabilities has_all_capabilities
    has_capability preference_score context_score window_bonus cost_score cost_of cost_bonus
    jittered add_score or_largest add64 mul64 wrap64 ◌+ℤ◌ uniedit_server.Common.◌*ℤ◌
route_lem_example =
    route_lem world_ports whole world-Fixed insertion (some crypto) (λ n. pos 0) [] tools_wanted
      routed tt tt refl

-- One account in a table: its status and its failures.
abbrev row_of : AiHealthStatus → ℤ → AiProviderAccount
row_of s n = record account { health_status = s; consecutive_failures = n }

abbrev one_row : AccountPorts (ℕ → Option (AiHealthStatus × ℤ)) ℤ
one_row = record {
  find_available_by_provider = λ id w. (ok [], w);
  find_account = λ id w. (ok (elim (w id) [ none ↦ none | some r ↦ some (row_of r.0 r.1) ]), w);
  update_health = λ id s n w. (ok tt, λ i. some (s, n));
  increment_usage = λ id n t c w. (ok tt, λ i. some (healthy, pos 0));
  delete_accounts = λ id w. (ok tt, w);
}

one_row_table : AccountTable one_row (λ w. w)
one_row_table = record {
  find_row = λ id s n w h. (row_of s n, rw h refl, refl, refl);
  health_row = λ id s n w. refl;
  usage_row = λ id n t c w. refl;
}

run-health_after_example :
    (m' : Memory) × (w' : ℕ → Option (AiHealthStatus × ℤ)) × (run one_row 7
        (success (pos 10) (pos 1) ∷ failure ∷ failure ∷ [])
        (record { health_status = []; account_health = [] })
        (λ id. some (healthy, pos 0))
      ≡ (returns m', w'))
    × (w' 7 ≡ some (degraded, pos 2))
    × (is_account_healthy m' 7 ≡ true)
run-health_after_example =
    run-health_after one_row one_row_table 7 (success (pos 10) (pos 1)) (failure ∷ failure ∷ [])
      (record { health_status = []; account_health = [] }) (λ id. some (healthy, pos 0))
      (omega arith) refl
