-- ===== src/Ai/Examples.antt =====
-- The choice of a model at a concrete request, with whole numbers for `float64`, and runs of the code.
use uniedit_server.Common.{
  ◌≡◌, refl, ℕ, ℤ, pos, lt_ℤ, add64, mul64, Bool, true, false, All, List, [], ◌∷◌, length,
  if◌then◌else◌, panics, wrap64, ◌+ℤ◌, suc, ◌∙◌, ap, Reply, returns, fails_with,
}
use uniedit_server.Ai.Model.{
  Floats, AiProvider, AiModel, AiRoutingContext, AiScoredCandidate, has_all_capabilities,
  required_capabilities, has_capability, add_score,
}
use uniedit_server.Ai.Chain.{
  Sort, Ordered, by_key, execute, default_strategy_chain, run_strategies, ChainError,
  new_strategy_chain, AiRoutingResult, no_candidates_after,
}
use uniedit_server.Ai.Strategies.{
  preference_filter, health_filter, capability_filter, context_filter, or_largest, required_context,
  preference_score, context_score, window_bonus, cost_score, cost_of, cost_bonus, jittered,
}

abbrev pub whole : Floats ℤ
whole = record {
  of_int = λ n. n;
  plus = add64;
  times = mul64;
  over = λ n m. n;
  less = lt_ℤ;
  tenth = pos 0;
}

module _ {A : Type 0} (before : A → A → Bool) where
  abbrev insert : A → List A → List A
  insert x [] = x ∷ []
  insert x (y ∷ ys) = let rest = insert x ys in if before x y then x ∷ y ∷ ys else y ∷ rest

  abbrev insertion_sort : List A → List A
  insertion_sort [] = []
  insertion_sort (x ∷ xs) = insert x (insertion_sort xs)

  length-if :
      (b : Bool) (xs ys : List A) (n : ℕ)
      → length xs ≡ n
      → length ys ≡ n
      → length (if b then xs else ys) ≡ n
  length-if true xs ys n h k = h
  length-if false xs ys n h k = k

  length-insert : (x : A) (xs : List A) → length (insert x xs) ≡ suc (length xs)
  length-insert x [] = refl
  length-insert x (y ∷ ys) =
      length-if (before x y) (x ∷ y ∷ ys) (y ∷ insert x ys) _ refl (ap suc (length-insert x ys))

  pub length-insertion_sort : (xs : List A) → length (insertion_sort xs) ≡ length xs
  length-insertion_sort [] = refl
  length-insertion_sort (x ∷ xs) =
      length-insert x (insertion_sort xs) ∙ ap suc (length-insertion_sort xs)

  All-choice :
      (P : A → Type 0) (b : Bool) (xs ys : List A)
      → All P xs
      → All P ys
      → All P (if b then xs else ys)
  All-choice P true xs ys h k = h
  All-choice P false xs ys h k = k

  All-insert : (P : A → Type 0) (x : A) (xs : List A) → P x → All P xs → All P (insert x xs)
  All-insert P x [] h k = (h, tt)
  All-insert P x (y ∷ ys) h k =
      All-choice P (before x y) (x ∷ y ∷ ys) (y ∷ insert x ys) (h, k) (k.0, All-insert P x ys h k.1)

  pub All-insertion_sort : (P : A → Type 0) (xs : List A) → All P xs → All P (insertion_sort xs)
  All-insertion_sort P [] h = tt
  All-insertion_sort P (x ∷ xs) h =
      All-insert P x (insertion_sort xs) h.0 (All-insertion_sort P xs h.1)

  pub insertion_sort-Ordered : (xs : List A) → Ordered before xs → insertion_sort xs ≡ xs
  insertion_sort-Ordered [] h = refl
  insertion_sort-Ordered (x ∷ []) h = refl
  insertion_sort-Ordered (x ∷ y ∷ xs) h = rw (insertion_sort-Ordered (y ∷ xs) h.1, h.0) refl

abbrev pub insertion : Sort
insertion = record {
  sort = insertion_sort;
  length-sort = length-insertion_sort;
  All-sort = λ P before. All-insertion_sort before P;
  sort-Ordered = λ key. insertion_sort-Ordered (by_key key);
}

abbrev pub provider : ℕ → AiProvider
provider id = record {
  id = id;
  name = "provider";
  base_url = "";
  api_key = "key";
  enabled = true;
  weight = pos 1;
  priority = pos 0;
}

abbrev pub small_model : AiModel ℤ
small_model = record {
  id = "small";
  provider_id = 1;
  capabilities = "chat" ∷ "stream" ∷ [];
  context_window = pos 8192;
  input_cost_per_1k = pos 1;
  output_cost_per_1k = pos 2;
  enabled = true;
}

abbrev pub large_model : AiModel ℤ
large_model = record small_model {
  id = "large";
  provider_id = 2;
  capabilities = "chat" ∷ "stream" ∷ "tools" ∷ [];
  context_window = pos 32768;
}

abbrev of_model : ℕ → AiModel ℤ → AiScoredCandidate ℤ
of_model p m = record {
  provider = provider p;
  model = m;
  score = pos 0;
  score_breakdown = [];
  reasons = [];
}

abbrev pub tools_wanted : AiRoutingContext
tools_wanted = record {
  task_type = "chat";
  estimated_tokens = pos 100;
  require_stream = true;
  require_tools = true;
  require_vision = false;
  require_json = false;
  min_context_window = pos 0;
  optimize = "cost";
  preferred_models = [];
  provider_health = [];
  group_id = "";
}

abbrev two_candidates : List (AiScoredCandidate ℤ)
two_candidates = of_model 1 small_model ∷ of_model 2 large_model ∷ []

-- The provider of a choice, 0 for an error.
abbrev provider_of : Reply ChainError (AiRoutingResult ℤ) → ℕ
provider_of (returns r) = r.provider.id
provider_of (fails_with e) = 0
provider_of panics = 0

abbrev choice : AiRoutingContext → Reply ChainError (AiRoutingResult ℤ)
choice ctx =
    execute whole insertion (default_strategy_chain whole insertion (λ n. pos 0)) ctx two_candidates

-- Only the second has the tools.
tools_choice : provider_of (choice tools_wanted) ≡ 2
unfolding execute run_strategies default_strategy_chain new_strategy_chain preference_filter
    health_filter capability_filter context_filter required_context required_capabilities
    has_all_capabilities has_capability preference_score context_score window_bonus cost_score
    cost_of cost_bonus jittered add_score or_largest add64 wrap64 ◌+ℤ◌
tools_choice = refl

-- The preference for a model without the tools leaves no candidate.
preferred_incapable :
    choice (record tools_wanted { preferred_models = "small" ∷ [] })
    ≡ fails_with (no_candidates_after "capability_filter")
unfolding execute run_strategies default_strategy_chain new_strategy_chain preference_filter
    health_filter capability_filter context_filter required_context required_capabilities
    has_all_capabilities has_capability preference_score context_score window_bonus cost_score
    cost_of cost_bonus jittered add_score or_largest
preferred_incapable = refl
