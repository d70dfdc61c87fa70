-- ===== src/Ai/Soundness.antt =====
-- internal/domain/ai/strategy.go: a run of the default strategies, one by one.
use uniedit_server.Common.{
  ◌≡◌, refl, ℕ, pos, Bool, true, false, inl, inr, All, List, [], ◌∷◌, Result, ok, err, ◌⊎◌, le_ℤ,
  ◌&&◌,
}
use uniedit_server.Ai.Model.{
  Floats, AiProvider, AiModel, AiRoutingContext, AiScoredCandidate, has_all_capabilities,
  required_capabilities,
}
use uniedit_server.Ai.Strategies.{capability_filter, context_filter, is_empty}
use uniedit_server.Ai.Chain.{
  Strategy, ChainError, run_strategies, default_strategies, ranking_strategies, after_filter,
}
use uniedit_server.Ai.Lists.{impossible, All-imply}
use uniedit_server.Ai.Selection.{
  All-preference_filter, All-preference_score, All-health_filter, All-capability_filter,
  All-context_filter, All-context_score, All-cost_score, All-jittered,
}
use uniedit_server.Ai.Emptiness.{
  All-with, is_empty-preference_score, is_empty-context_score, is_empty-cost_score,
  is_empty-jittered, Capable, All-Capable, is_empty-capability_filter, is_empty-context_filter,
  is_empty-preference_filter, is_empty-health_filter,
}

-- What a run leaves is not empty, and all of it has P; an error has the reason E.
abbrev pub Sound : {A : Type 0} → Type 0 → (A → Type 0) → Result ChainError (List A) → Type 0
Sound E P (err e) = E
Sound E P (ok xs) = All P xs × (is_empty xs ≡ false)

-- A model that no filter but the preferences and the health drops.
abbrev pub fit : {F : Type 0} → AiRoutingContext → AiModel F → Bool
fit ctx m = has_all_capabilities m (required_capabilities ctx) && le_ℤ (pos 0) m.context_window

module _ {F : Type 0} (f : Floats F) (ctx : AiRoutingContext) where
  Sound-end :
      (E : Type 0) (Q : AiScoredCandidate F → Type 0) (cs : List (AiScoredCandidate F))
      → All Q cs
      → is_empty cs ≡ false
      → Sound E Q (run_strategies [] ctx cs)
  unfolding run_strategies
  Sound-end E Q cs h e = (h, e)

  module _ (E : Type 0) (P Q : AiScoredCandidate F → Type 0) (s : Strategy F)
      (strategies : List (Strategy F)) where
    Sound-kept :
        (xs : List (AiScoredCandidate F))
        → E ⊎ (is_empty xs ≡ false)
        → All P xs
        → ((c : AiScoredCandidate F) (cs : List (AiScoredCandidate F))
            → All P (c ∷ cs)
            → Sound E Q (run_strategies strategies ctx (s.score ctx (c ∷ cs))))
        → Sound E Q (after_filter s.name xs (run_strategies strategies ctx (s.score ctx xs)))
    Sound-kept [] (inl e) h rest = e
    Sound-kept [] (inr e) h rest = absurd (impossible e)
    Sound-kept (c ∷ cs) l h rest = rest c cs h

    -- One strategy of a run.
    Sound-run_strategies :
        (cs : List (AiScoredCandidate F))
        → E ⊎ (is_empty (s.filter ctx cs) ≡ false)
        → All P (s.filter ctx cs)
        → ((kept : List (AiScoredCandidate F)) → All P kept → All P (s.score ctx kept))
        → ((kept : List (AiScoredCandidate F)) → is_empty (s.score ctx kept) ≡ is_empty kept)
        → ((xs : List (AiScoredCandidate F))
            → All P xs
            → is_empty xs ≡ false
            → Sound E Q (run_strategies strategies ctx xs))
        → Sound E Q (run_strategies (s ∷ strategies) ctx cs)
    unfolding run_strategies
    Sound-run_strategies cs l kept scored full rest =
        Sound-kept (s.filter ctx cs) l kept
          (λ c ds h. rest (s.score ctx (c ∷ ds)) (scored (c ∷ ds) h) (full (c ∷ ds)))

  abbrev pub Fit : AiProvider → AiModel F → Type 0
  Fit p m =
      (has_all_capabilities m (required_capabilities ctx) ≡ true)
      × (le_ℤ (pos 0) m.context_window ≡ true)

  -- A run from candidates that have P ends with a reason E, where no P is fit.
  module _ (E : Type 0) (P : AiProvider → AiModel F → Type 0)
      (fit : E ⊎ ((p : AiProvider) (m : AiModel F) → P p m → Fit p m)) where
    abbrev pub Here : AiScoredCandidate F → Type 0
    Here c = P c.provider c.model

    abbrev pub AndCapable : AiProvider → AiModel F → Type 0
    AndCapable p m = P p m × (has_all_capabilities m (required_capabilities ctx) ≡ true)

    abbrev pub Both : AiScoredCandidate F → Type 0
    Both c = AndCapable c.provider c.model

    capable-cases :
        (cs : List (AiScoredCandidate F))
        → All Here cs
        → is_empty cs ≡ false
        → E ⊎ (is_empty (capability_filter ctx cs) ≡ false)
    capable-cases cs h e = elim fit [
      | inl r ↦ inl r
      | inr k ↦ inr (
          is_empty-capability_filter f ctx cs
            (All-imply Here (Capable f ctx) cs (λ c p. (k c.provider c.model p).0) h) e)
    ]

    context-cases :
        (cs : List (AiScoredCandidate F))
        → All Both cs
        → is_empty cs ≡ false
        → E ⊎ (is_empty (context_filter ctx cs) ≡ false)
    context-cases cs h e = elim fit [
      | inl r ↦ inl r
      | inr k ↦ inr (
          is_empty-context_filter f ctx cs
            (All-imply Both (λ c. le_ℤ (pos 0) c.model.context_window ≡ true) cs
              (λ c p. (k c.provider c.model p.0).1) h)
            e)
    ]

    Sound-ranking :
        (random : ℕ → F) (cs : List (AiScoredCandidate F))
        → All Both cs
        → is_empty cs ≡ false
        → Sound E Both (run_strategies (ranking_strategies f random) ctx cs)
    Sound-ranking random cs h e =
        Sound-run_strategies E Both Both _ _ cs (context-cases cs h e)
          (All-context_filter f AndCapable ctx cs h) (All-context_score f AndCapable ctx)
          (is_empty-context_score f ctx)
          (λ cs h e.
            Sound-run_strategies E Both Both _ _ cs (inr e) h (All-cost_score f AndCapable ctx)
              (is_empty-cost_score f ctx)
              (λ cs h e.
                Sound-run_strategies E Both Both _ _ cs (inr e) h
                  (All-jittered f AndCapable random 0) (is_empty-jittered f ctx random)
                  (Sound-end E Both)))

    pub Sound-default_strategies :
        (random : ℕ → F) (cs : List (AiScoredCandidate F))
        → All Here cs
        → is_empty cs ≡ false
        → Sound E Both (run_strategies (default_strategies f random) ctx cs)
    Sound-default_strategies random cs h e =
        Sound-run_strategies E Here Both _ _ cs (inr (is_empty-preference_filter f ctx cs e))
          (All-preference_filter f P ctx cs h) (All-preference_score f P ctx)
          (is_empty-preference_score f ctx)
          (λ cs h e.
            Sound-run_strategies E Here Both _ _ cs (inr (is_empty-health_filter f ctx cs e))
              (All-health_filter f P ctx cs h) (λ kept h. h) (λ kept. refl)
              (λ cs h e.
                Sound-run_strategies E Both Both _ _ cs (capable-cases cs h e)
                  (All-with Here (Capable f ctx) _ (All-capability_filter f P ctx cs h)
                    (All-Capable f ctx cs))
                  (λ kept h. h) (λ kept. refl) (Sound-ranking random)))
