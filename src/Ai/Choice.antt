-- ===== src/Ai/Choice.antt =====
-- internal/domain/ai/strategy.go: what the default chain chooses.
use uniedit_server.Common.{
  ◌≡◌, refl, ℕ, suc, true, inl, inr, length, All, List, [], ◌∷◌, Result, ok, err, Reply, returns,
  fails_with, ◌⊎◌, Bool-cases, any, not,
}
use uniedit_server.Ai.Model.{
  Floats, AiProvider, AiModel, AiRoutingContext, AiScoredCandidate, has_all_capabilities,
  required_capabilities,
}
use uniedit_server.Ai.Chain.{
  Sort, AiRoutingResult, ChainError, best, by_score, chosen, execute, default_strategies,
  default_strategy_chain, new_strategy_chain, no_candidates,
}
use uniedit_server.Ai.Lists.{impossible, nothing_left, All-imply, All-any, both-lem}
use uniedit_server.Ai.Emptiness.{All-with}
use uniedit_server.Ai.Soundness.{Sound, fit, Fit, Sound-default_strategies}

module _ {F : Type 0} (f : Floats F) (s : Sort) where
  default_strategy_chain-lem :
      (random : ℕ → F) → default_strategy_chain f s random ≡ default_strategies f random
  unfolding default_strategy_chain new_strategy_chain
  default_strategy_chain-lem random =
      s.sort-Ordered (λ a. a.priority) (default_strategies f random)
        (refl, (refl, (refl, (refl, (refl, tt)))))

  -- An error with the reason E, or a result that has P and the capabilities.
  abbrev pub Chosen :
      Type 0
      → (AiProvider → AiModel F → Type 0)
      → AiRoutingContext
      → Reply ChainError (AiRoutingResult F)
      → Type 0
  Chosen E P ctx r =
      ((e : ChainError) × (r ≡ fails_with e) × E)
      ⊎ ((b : AiRoutingResult F) × (r ≡ returns b)
          × P b.provider b.model
          × (has_all_capabilities b.model (required_capabilities ctx) ≡ true))

  Chosen-imply :
      (E : Type 0) (P Q : AiProvider → AiModel F → Type 0) (ctx : AiRoutingContext)
      (r : Reply ChainError (AiRoutingResult F))
      → ((p : AiProvider) (m : AiModel F) → P p m → Q p m)
      → Chosen E P ctx r
      → Chosen E Q ctx r
  Chosen-imply E P Q ctx r s (inl h) = inl h
  Chosen-imply E P Q ctx r s (inr h) = inr (h.0, h.1, s h.0.provider h.0.model h.2, h.3)

  -- Some candidate is unfit, or there is none.
  abbrev pub Unfit : AiRoutingContext → List (AiScoredCandidate F) → Type 0
  Unfit ctx candidates = (any (λ c. not (fit ctx c.model)) candidates ≡ true) ⊎ (candidates ≡ [])

  module _ (E : Type 0) (P : AiProvider → AiModel F → Type 0) (ctx : AiRoutingContext) where
    best-Chosen :
        (xs : List (AiScoredCandidate F)) (n : ℕ)
        → All
            (λ c.
              P c.provider c.model
              × (has_all_capabilities c.model (required_capabilities ctx) ≡ true))
            xs
        → length xs ≡ suc n
        → Chosen E P ctx (best xs)
    best-Chosen [] n h e = absurd (nothing_left e)
    best-Chosen (c ∷ xs) n h e = inr (_, refl, h.0.0, h.0.1)

    chosen-Chosen :
        (r : Result ChainError (List (AiScoredCandidate F)))
        → Sound E
            (λ c.
              P c.provider c.model
              × (has_all_capabilities c.model (required_capabilities ctx) ≡ true))
            r
        → Chosen E P ctx (chosen f s r)
    chosen-Chosen (err e) h = inl (e, refl, h)
    chosen-Chosen (ok []) h = absurd (impossible h.1)
    chosen-Chosen (ok (c ∷ cs)) h =
        best-Chosen (s.sort (by_score f s) (c ∷ cs)) (length cs)
          (s.All-sort _ (by_score f s) (c ∷ cs) h.0) (s.length-sort (by_score f s) (c ∷ cs))

    execute-Chosen :
        (random : ℕ → F) (c : AiScoredCandidate F) (cs : List (AiScoredCandidate F))
        → E ⊎ ((p : AiProvider) (m : AiModel F) → P p m → Fit f ctx p m)
        → All (λ c. P c.provider c.model) (c ∷ cs)
        → Chosen E P ctx (execute f s (default_strategy_chain f s random) ctx (c ∷ cs))
    unfolding execute
    execute-Chosen random c cs l h =
        rw (default_strategy_chain-lem random)
          (chosen-Chosen _ (Sound-default_strategies f ctx E P l random (c ∷ cs) h refl))

  -- Whatever the providers and models of the candidates all have, the one that `Execute` of the default
  -- chain chooses has, and it has every capability that the request requires. `Execute` does not panic,
  -- and fails only where there is no candidate, or one that lacks a capability or has a negative window.
  pub execute_lem :
      (P : AiProvider → AiModel F → Type 0) (random : ℕ → F) (ctx : AiRoutingContext)
      (candidates : List (AiScoredCandidate F))
      → All (λ c. P c.provider c.model) candidates
      → Chosen
          (Unfit ctx candidates)
          P
          ctx
          (execute f s (default_strategy_chain f s random) ctx candidates)
  unfolding execute
  execute_lem P random ctx [] h = inl (no_candidates, refl, inr refl)
  execute_lem P random ctx (c ∷ cs) h =
      elim (Bool-cases (any (λ c. not (fit ctx c.model)) (c ∷ cs))) [
        | inl e ↦ execute-Chosen _ P ctx random c cs (inl (inl e)) h
        | inr e ↦
            Chosen-imply _ (λ p m. P p m × Fit f ctx p m) P ctx _ (λ p m h. h.0)
              (execute-Chosen _ (λ p m. P p m × Fit f ctx p m) ctx random c cs (inr (λ p m h. h.1))
                (All-with _ _ (c ∷ cs) h (
                  All-imply _ _ (c ∷ cs) (λ d q. both-lem _ _ q)
                    (All-any (λ c. not (fit ctx c.model)) (c ∷ cs) e))))
      ]
