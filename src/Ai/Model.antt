-- ===== src/Ai/Model.antt =====
-- internal/model/ai.go: what the routing strategies read of a request, a model and a candidate. The
-- numbers of Go's `float64` are a parameter `F` with their operations.
use uniedit_server.Common.{
  ℕ, ℤ, String, String_Eq, ◌==◌, if◌then◌else◌, Bool, true, false, any, List, [], ◌∷◌, ◌++◌,
}

pub record Floats (F : Type 0) : Type 0 where
  pub of_int : ℤ → F
  pub plus : F → F → F
  pub times : F → F → F
  pub over : F → F → F
  pub less : F → F → Bool
  pub tenth : F

pub record AiProvider : Type 0 where
  pub id : ℕ
  pub name : String
  pub base_url : String
  pub api_key : String
  pub enabled : Bool
  pub weight : ℤ
  pub priority : ℤ

pub record AiModel (F : Type 0) : Type 0 where
  pub id : String
  pub provider_id : ℕ
  pub capabilities : List String
  pub context_window : ℤ
  pub input_cost_per_1k : F
  pub output_cost_per_1k : F
  pub enabled : Bool

-- The health of the providers is a map, as a list of its entries.
pub record AiRoutingContext : Type 0 where
  pub task_type : String
  pub estimated_tokens : ℤ
  pub require_stream : Bool
  pub require_tools : Bool
  pub require_vision : Bool
  pub require_json : Bool
  pub min_context_window : ℤ
  pub optimize : String
  pub preferred_models : List String
  pub provider_health : List (ℕ × Bool)
  pub group_id : String

-- The newest entry of the breakdown for a strategy counts.
pub record AiScoredCandidate (F : Type 0) : Type 0 where
  pub provider : AiProvider
  pub model : AiModel F
  pub score : F
  pub score_breakdown : List (String × F)
  pub reasons : List String

module _ {F : Type 0} where
  unfoldable pub has_capability : AiModel F → String → Bool
  has_capability m cap = any (λ c. c == cap) m.capabilities

  unfoldable pub has_all_capabilities : AiModel F → List String → Bool
  has_all_capabilities m [] = true
  has_all_capabilities m (cap ∷ caps) =
      let rest = has_all_capabilities m caps in if has_capability m cap then rest else false

  unfoldable pub add_score :
      Floats F → String → F → String → AiScoredCandidate F → AiScoredCandidate F
  add_score f strategy score reason c = record c {
    score = f.plus c.score score;
    score_breakdown = (strategy, score) ∷ c.score_breakdown;
    reasons = if reason == "" then c.reasons else c.reasons ++ reason ∷ [];
  }

-- One more capability, where it is required.
abbrev pub required_if : Bool → String → List String → List String
required_if b cap caps = if b then caps ++ cap ∷ [] else caps

unfoldable pub required_capabilities : AiRoutingContext → List String
required_capabilities ctx = required_if ctx.require_json "json_mode" (
    required_if ctx.require_vision "vision" (
      required_if ctx.require_tools "tools"
        (required_if ctx.require_stream "stream" ("chat" ∷ []))))
