-- ===== src/Ai/Chain.antt =====
-- internal/domain/ai/strategy.go: the chain of strategies. `sort.Slice` is a parameter.
use Prim.Native.String.{◌++◌ as text_append}
use uniedit_server.Common.{
  ℕ, ℤ, pos, lt_ℤ, String, Bool, true, List, Option, none, [], ◌∷◌, ◌++◌, Result, ok, err, Reply,
  returns, fails_with, panics, length, All, ◌≡◌,
}
use uniedit_server.Ai.Model.{Floats, AiProvider, AiModel, AiRoutingContext, AiScoredCandidate}
use uniedit_server.Ai.Strategies.{
  preference_filter, preference_score, health_filter, capability_filter, context_filter,
  context_score, cost_score, jittered,
}

-- Each entry comes before the next one.
abbrev pub Ordered : {A : Type 0} → (A → A → Bool) → List A → Type 0
Ordered before [] = Unit
Ordered before (x ∷ []) = Unit
Ordered before (x ∷ y ∷ xs) = (before x y ≡ true) × Ordered before (y ∷ xs)

-- The largest key first.
abbrev pub by_key : {A : Type 0} → (A → ℤ) → A → A → Bool
by_key key a b = lt_ℤ (key b) (key a)

-- A sort by a test of what comes first: it permutes, so that it keeps the length and what all have, and
-- leaves a list that is in the order of a key as it is.
pub record Sort : Type 1 where
  pub sort : {A : Type 0} → (A → A → Bool) → List A → List A
  pub length-sort :
      {A : Type 0} (before : A → A → Bool) (xs : List A) → length (sort before xs) ≡ length xs
  pub All-sort :
      {A : Type 0} (P : A → Type 0) (before : A → A → Bool) (xs : List A)
      → All P xs
      → All P (sort before xs)
  pub sort-Ordered :
      {A : Type 0} (key : A → ℤ) (xs : List A) → Ordered (by_key key) xs → sort (by_key key) xs ≡ xs

pub record Strategy (F : Type 0) : Type 0 where
  pub name : String
  pub priority : ℤ
  pub filter : AiRoutingContext → List (AiScoredCandidate F) → List (AiScoredCandidate F)
  pub score : AiRoutingContext → List (AiScoredCandidate F) → List (AiScoredCandidate F)

pub record AiRoutingResult (F : Type 0) : Type 0 where
  pub provider : AiProvider
  pub model : AiModel F
  pub score : F
  pub reason : String
  pub account_id : Option ℕ
  pub api_key : String

-- `strings.Join(reasons, "; ")`.
abbrev joined : List String → String
joined [] = ""
joined (r ∷ []) = r
joined (r ∷ q ∷ reasons) = let rest = joined (q ∷ reasons) in text_append r (text_append "; " rest)

pub data ChainError : Type 0 where
  no_candidates : ChainError
  no_candidates_after : String → ChainError

module _ {F : Type 0} where
  -- `if len(result) == 0`, the early return, and what runs otherwise.
  abbrev pub after_filter :
      String
      → List (AiScoredCandidate F)
      → Result ChainError (List (AiScoredCandidate F))
      → Result ChainError (List (AiScoredCandidate F))
  after_filter name [] rest = err (no_candidates_after name)
  after_filter name (c ∷ cs) rest = rest

  -- The loop of `Execute`.
  unfoldable pub run_strategies :
      List (Strategy F)
      → AiRoutingContext
      → List (AiScoredCandidate F)
      → Result ChainError (List (AiScoredCandidate F))
  run_strategies [] ctx candidates = ok candidates
  run_strategies (s ∷ strategies) ctx candidates =
      let kept = s.filter ctx candidates in
      let rest = run_strategies strategies ctx (s.score ctx kept) in after_filter s.name kept rest

  -- `result[0]`, which panics where there is none.
  abbrev pub best : List (AiScoredCandidate F) → Reply ChainError (AiRoutingResult F)
  best [] = panics
  best (c ∷ cs) = returns (record {
    provider = c.provider;
    model = c.model;
    score = c.score;
    reason = joined c.reasons;
    account_id = none;
    api_key = "";
  })

module _ {F : Type 0} (f : Floats F) where
  -- The last three of `DefaultStrategyChain`, which score; a filter or score that a strategy does not
  -- define keeps the candidates.
  abbrev pub ranking_strategies : (ℕ → F) → List (Strategy F)
  ranking_strategies random =
      record {
        name = "context_window";
        priority = pos 70;
        filter = context_filter;
        score = context_score f;
      }
      ∷ record {
        name = "cost_optimization";
        priority = pos 50;
        filter = λ ctx cs. cs;
        score = cost_score f;
      }
      ∷ record {
        name = "load_balancing";
        priority = pos 10;
        filter = λ ctx cs. cs;
        score = λ ctx cs. jittered f random 0 cs;
      }
      ∷ []

  -- The strategies of `DefaultStrategyChain`.
  abbrev pub default_strategies : (ℕ → F) → List (Strategy F)
  default_strategies random =
      record {
        name = "user_preference";
        priority = pos 100;
        filter = preference_filter;
        score = preference_score f;
      }
      ∷ record {
        name = "health_filter";
        priority = pos 90;
        filter = health_filter;
        score = λ ctx cs. cs;
      }
      ∷ record {
        name = "capability_filter";
        priority = pos 80;
        filter = capability_filter;
        score = λ ctx cs. cs;
      }
      ∷ ranking_strategies random

module _ {F : Type 0} (f : Floats F) (s : Sort) where
  abbrev pub by_score : AiScoredCandidate F → AiScoredCandidate F → Bool
  by_score a b = f.less b.score a.score

  abbrev pub chosen :
      Result ChainError (List (AiScoredCandidate F)) → Reply ChainError (AiRoutingResult F)
  chosen (err e) = fails_with e
  chosen (ok candidates) = best (s.sort by_score candidates)

  unfoldable pub execute :
      List (Strategy F)
      → AiRoutingContext
      → List (AiScoredCandidate F)
      → Reply ChainError (AiRoutingResult F)
  execute strategies ctx [] = fails_with no_candidates
  execute strategies ctx (c ∷ cs) = chosen (run_strategies strategies ctx (c ∷ cs))

  abbrev pub by_priority : Strategy F → Strategy F → Bool
  by_priority = by_key (λ a. a.priority)

  unfoldable pub new_strategy_chain : List (Strategy F) → List (Strategy F)
  new_strategy_chain strategies = s.sort by_priority strategies

  unfoldable pub default_strategy_chain : (ℕ → F) → List (Strategy F)
  default_strategy_chain random = new_strategy_chain (default_strategies f random)

  -- `AddStrategy`.
  unfoldable pub add_strategy : List (Strategy F) → Strategy F → List (Strategy F)
  add_strategy strategies strategy = s.sort by_priority (strategies ++ strategy ∷ [])
