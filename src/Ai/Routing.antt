-- ===== src/Ai/Routing.antt =====
-- internal/domain/ai/domain.go: the route of a request to a model, a provider and a key. The health of the
-- providers, which the domain keeps in memory, is an argument.
use uniedit_server.Common.{
  ℕ, pos, lt_ℤ, Bool, false, not, any, ◌||◌, ◌==◌, if◌then◌else◌, String, String_Eq, List, [], ◌∷◌,
  ◌++◌, Option, none, some, Result, ok, err, Reply, returns, fails_with, panics, Service, ◌>>=◌,
  ◌>>◌, give, require, try, call, found,
}
use uniedit_server.Ai.Model.{
  Floats, AiProvider, AiModel, AiRoutingContext, AiScoredCandidate, required_capabilities,
}
use uniedit_server.Ai.Strategies.{is_empty}
use uniedit_server.Ai.Chain.{Sort, AiRoutingResult, ChainError, execute, default_strategy_chain}
use uniedit_server.Ai.Ports.{Ports, AccountPorts, AiProviderAccount, Crypto}

pub data AiError : Type 0 where
  group_not_found no_available_models empty_messages empty_input : AiError
  provider_not_found adapter_not_found : AiError
  from_chain : ChainError → AiError
  from_port : String → AiError

abbrev pub new_context : AiRoutingContext
new_context = record {
  task_type = "chat";
  estimated_tokens = pos 0;
  require_stream = false;
  require_tools = false;
  require_vision = false;
  require_json = false;
  min_context_window = pos 0;
  optimize = "";
  preferred_models = [];
  provider_health = [];
  group_id = "";
}

-- What `buildRoutingContext` reads of a chat request: whether each message has images, and how many tools.
pub record AiChatRequest : Type 0 where
  pub model : String
  pub has_images : List Bool
  pub tools : List String
  pub stream : Bool

-- `req.Model != "" && req.Model != "auto"`.
abbrev pub asked_for : String → List String
asked_for m = if m == "" || m == "auto" then [] else m ∷ []

unfoldable pub build_routing_context : AiChatRequest → AiRoutingContext
build_routing_context req = record new_context {
  require_stream = req.stream;
  require_vision = any (λ b. b) req.has_images;
  require_tools = not (is_empty req.tools);
  preferred_models = asked_for req.model;
}

-- The context of `Embed`.
unfoldable pub embed_context : String → AiRoutingContext
embed_context model = record new_context {
  task_type = "embedding";
  preferred_models = asked_for model;
}

module _ {F : Type 0} where
  abbrev pub new_candidate : Floats F → AiProvider → AiModel F → AiScoredCandidate F
  new_candidate f p m = record {
    provider = p;
    model = m;
    score = f.of_int (pos 0);
    score_breakdown = [];
    reasons = [];
  }

  -- `err == nil && m != nil && m.Enabled`.
  abbrev pub with_enabled_model :
      Result String (Option (AiModel F)) → List (AiModel F) → List (AiModel F)
  with_enabled_model (ok (some m)) models = if m.enabled then m ∷ models else models
  with_enabled_model _ models = models

  -- `err != nil || provider == nil || !provider.Enabled`.
  abbrev pub with_candidate :
      Floats F
      → AiModel F
      → Result String (Option AiProvider)
      → List (AiScoredCandidate F)
      → List (AiScoredCandidate F)
  with_candidate f m (ok (some p)) candidates =
      if p.enabled then new_candidate f p m ∷ candidates else candidates
  with_candidate f m _ candidates = candidates

-- The first account of the highest priority.
unfoldable pub select_from : AiProviderAccount → List AiProviderAccount → AiProviderAccount
select_from best [] = best
select_from best (a ∷ accounts) =
    select_from (if lt_ℤ best.priority a.priority then a else best) accounts

unfoldable pub select_account : List AiProviderAccount → Option AiProviderAccount
select_account [] = none
select_account (a ∷ accounts) = some (select_from a accounts)

-- An error of the lookup leaves no account.
abbrev pub listed : Result String (List AiProviderAccount) → List AiProviderAccount
listed (ok accounts) = accounts
listed (err m) = []

module _ {F : Type 0} where
  abbrev pub with_provider_key : AiRoutingResult F → AiRoutingResult F
  with_provider_key r = record r { api_key = r.provider.api_key }

  -- The decrypted key of the account, or the key of the provider.
  abbrev pub with_account_key :
      AiRoutingResult F → AiProviderAccount → Result String String → AiRoutingResult F
  with_account_key r a (ok key) = record r { account_id = some a.id; api_key = key }
  with_account_key r a (err m) = with_provider_key r

  abbrev pub with_key :
      Option Crypto → AiRoutingResult F → Option AiProviderAccount → AiRoutingResult F
  with_key none r a = with_provider_key r
  with_key (some c) r none = with_provider_key r
  with_key (some c) r (some a) = with_account_key r a (c.decrypt a.encrypted_api_key)

  abbrev pub as_service :
      {W : Type 0} → Reply ChainError (AiRoutingResult F) → Service W AiError (AiRoutingResult F)
  as_service (returns r) w = (returns r, w)
  as_service (fails_with e) w = (fails_with (from_chain e), w)
  as_service panics w = (panics, w)

-- `health` are the entries of `healthStatus`, which are written over those of the context.
abbrev pub inject : List (ℕ × Bool) → AiRoutingContext → AiRoutingContext
inject health ctx = record ctx { provider_health = health ++ ctx.provider_health }

module _ {W F : Type 0} (d : Ports W F) (f : Floats F) where
  unfoldable pub group_models : List String → Service W AiError (List (AiModel F))
  group_models [] = give []
  group_models (id ∷ ids) = do
    m ← try (d.find_model id)
    models ← group_models ids
    give (with_enabled_model m models)

  unfoldable pub candidates_of : List (AiModel F) → Service W AiError (List (AiScoredCandidate F))
  candidates_of [] = give []
  candidates_of (m ∷ models) =
      let rest = candidates_of models in
      if m.enabled
      then (do
        p ← try (d.find_provider m.provider_id)
        candidates ← rest
        give (with_candidate f m p candidates))
      else rest

  unfoldable pub find_models : AiRoutingContext → Service W AiError (List (AiModel F))
  find_models ctx =
      if ctx.group_id == ""
      then if is_empty (required_capabilities ctx)
        then call from_port d.find_enabled_models
        else call from_port (d.find_by_capabilities (required_capabilities ctx))
      else (do
        group ← found (← call from_port (d.find_group ctx.group_id)) group_not_found
        group_models group.models)

  unfoldable pub get_candidates : AiRoutingContext → Service W AiError (List (AiScoredCandidate F))
  get_candidates ctx = do models ← find_models ctx; candidates_of models

  unfoldable pub resolve_api_key :
      Option (AccountPorts W F)
      → Option Crypto
      → AiRoutingResult F
      → Service W AiError (AiRoutingResult F)
  resolve_api_key none c r = give (with_provider_key r)
  resolve_api_key (some a) c r = do
    accounts ← try (a.find_available_by_provider r.provider.id)
    give (with_key c r (select_account (listed accounts)))

  unfoldable pub route :
      Sort
      → Option (AccountPorts W F)
      → Option Crypto
      → (ℕ → F)
      → List (ℕ × Bool)
      → AiRoutingContext
      → Service W AiError (AiRoutingResult F)
  route s a c random health ctx = do
    candidates ← get_candidates ctx
    require (not (is_empty candidates)) no_available_models
    r ← as_service (execute f s (default_strategy_chain f s random) (inject health ctx) candidates)
    resolve_api_key a c r
