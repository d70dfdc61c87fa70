-- ===== src/Ai/Strategies.antt =====
-- internal/domain/ai/strategy.go: the strategies, each with a filter and a score. The random numbers of the
-- load balancing are an argument.
use uniedit_server.Common.{
  ℕ, suc, ℕ_Eq, ℤ, pos, negsuc, ℤ_Eq, le_ℤ, lt_ℤ, add64, String, String_Eq, ◌==◌, ◌&&◌, ◌||◌, not,
  if◌then◌else◌, Bool, true, false, length, any, List, [], ◌∷◌, map, Option, none, some,
}
use uniedit_server.Ai.Model.{
  Floats, AiRoutingContext, AiScoredCandidate, has_all_capabilities, required_capabilities,
  add_score,
}

module _ {ℓ} {A : Type ℓ} where
  -- The loops that append what passes a test.
  abbrev pub keep : (A → Bool) → List A → List A
  keep p [] = []
  keep p (x ∷ xs) = let rest = keep p xs in if p x then x ∷ rest else rest

  -- `if len(result) == 0 { return candidates }`.
  abbrev pub or_all : List A → List A → List A
  or_all [] candidates = candidates
  or_all (x ∷ kept) candidates = x ∷ kept

abbrev pub is_empty {ℓ} : {A : Type ℓ} → List A → Bool
is_empty [] = true
is_empty (x ∷ xs) = false

-- The order of a model in the preferences, the first of n being n; the last entry of a model counts.
abbrev pub preference_order : List String → String → Option ℕ
preference_order [] id = none
preference_order (m ∷ models) id = elim (preference_order models id) [
  | some n ↦ some n
  | none ↦ if m == id then some (suc (length models)) else none
]

-- The health of a provider, if it is known.
abbrev pub health_of : List (ℕ × Bool) → ℕ → Option Bool
health_of [] id = none
health_of ((p, healthy) ∷ entries) id =
    let rest = health_of entries id in if p == id then some healthy else rest

-- An unknown provider is taken for healthy.
abbrev pub assumed_healthy : Option Bool → Bool
assumed_healthy none = true
assumed_healthy (some healthy) = healthy

-- The larger of the estimate, with 4096 tokens for the response, and the required minimum.
unfoldable pub required_context : AiRoutingContext → ℤ
required_context ctx =
    let n = add64 ctx.estimated_tokens (pos 4096) in
    if lt_ℤ n ctx.min_context_window then ctx.min_context_window else n

abbrev pub no_context : AiRoutingContext → Bool
no_context ctx = ctx.estimated_tokens == pos 0 && ctx.min_context_window == pos 0

module _ {F : Type 0} where
  -- The loop for the largest window, from what is found so far.
  abbrev pub max_context : ℤ → List (AiScoredCandidate F) → ℤ
  max_context n [] = n
  max_context n (c ∷ candidates) =
      max_context (if lt_ℤ n c.model.context_window then c.model.context_window else n) candidates

  unfoldable pub preference_filter :
      AiRoutingContext → List (AiScoredCandidate F) → List (AiScoredCandidate F)
  preference_filter ctx candidates =
      if is_empty ctx.preferred_models
      then candidates
      else or_all (keep (λ c. any (λ m. m == c.model.id) ctx.preferred_models) candidates)
          candidates

  unfoldable pub health_filter :
      AiRoutingContext → List (AiScoredCandidate F) → List (AiScoredCandidate F)
  health_filter ctx candidates =
      if is_empty ctx.provider_health
      then candidates
      else or_all
          (keep (λ c. assumed_healthy (health_of ctx.provider_health c.provider.id)) candidates)
          candidates

  unfoldable pub capability_filter :
      AiRoutingContext → List (AiScoredCandidate F) → List (AiScoredCandidate F)
  capability_filter ctx candidates =
      if is_empty (required_capabilities ctx)
      then candidates
      else keep (λ c. has_all_capabilities c.model (required_capabilities ctx)) candidates

  -- The candidates with the largest window, where none is large enough.
  unfoldable pub or_largest :
      List (AiScoredCandidate F) → List (AiScoredCandidate F) → List (AiScoredCandidate F)
  or_largest [] candidates =
      keep (λ c. c.model.context_window == max_context (pos 0) candidates) candidates
  or_largest (c ∷ kept) candidates = c ∷ kept

  unfoldable pub context_filter :
      AiRoutingContext → List (AiScoredCandidate F) → List (AiScoredCandidate F)
  context_filter ctx candidates =
      if no_context ctx
      then candidates
      else or_largest (keep (λ c. le_ℤ (required_context ctx) c.model.context_window) candidates)
          candidates

module _ {F : Type 0} (f : Floats F) where
  abbrev pub preferred_bonus : Option ℕ → AiScoredCandidate F → AiScoredCandidate F
  preferred_bonus none c = c
  preferred_bonus (some order) c =
      add_score f "user_preference" (f.times (f.of_int (pos order)) (f.of_int (pos 10)))
        "user preference" c

  unfoldable pub preference_score :
      AiRoutingContext → List (AiScoredCandidate F) → List (AiScoredCandidate F)
  preference_score ctx candidates =
      if is_empty ctx.preferred_models
      then candidates
      else map (λ c. preferred_bonus (preference_order ctx.preferred_models c.model.id) c)
          candidates

  unfoldable pub window_bonus : ℤ → AiScoredCandidate F → AiScoredCandidate F
  window_bonus largest c =
      add_score f "context_window"
        (f.times (f.over (f.of_int c.model.context_window) (f.of_int largest)) (f.of_int (pos 5)))
        "context window" c

  unfoldable pub context_score :
      AiRoutingContext → List (AiScoredCandidate F) → List (AiScoredCandidate F)
  context_score ctx candidates =
      if no_context ctx || max_context (pos 0) candidates == pos 0
      then candidates
      else map (window_bonus (max_context (pos 0) candidates)) candidates

  unfoldable pub cost_of : AiScoredCandidate F → F
  cost_of c = f.plus c.model.input_cost_per_1k c.model.output_cost_per_1k

  abbrev pub min_cost : F → List (AiScoredCandidate F) → F
  min_cost n [] = n
  min_cost n (c ∷ candidates) =
      min_cost (if f.less n (f.of_int (pos 0)) || f.less (cost_of c) n then cost_of c else n)
        candidates

  unfoldable pub cost_bonus : F → AiScoredCandidate F → AiScoredCandidate F
  cost_bonus least c =
      if f.less (f.of_int (pos 0)) (cost_of c)
      then add_score f "cost_optimization" (f.times (f.over least (cost_of c)) (f.of_int (pos 20)))
          "cost optimization" c
      else c

  -- `minCost <= 0` is `!(minCost > 0)`: no cost is a NaN.
  unfoldable pub cost_score :
      AiRoutingContext → List (AiScoredCandidate F) → List (AiScoredCandidate F)
  cost_score ctx candidates =
      let least = min_cost (f.of_int (negsuc 0)) candidates in
      if not (ctx.optimize == "cost") || not (f.less (f.of_int (pos 0)) least)
      then candidates
      else map (cost_bonus least) candidates

  -- The n-th candidate gets the n-th random number.
  unfoldable pub jittered : (ℕ → F) → ℕ → List (AiScoredCandidate F) → List (AiScoredCandidate F)
  jittered random n [] = []
  jittered random n (c ∷ candidates) =
      add_score f "load_balancing" (f.times (random n) f.tenth) "load balancing" c
      ∷ jittered random (suc n) candidates
