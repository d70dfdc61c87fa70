-- ===== src/Ai/Selection.antt =====
-- What the default chain chooses.
use uniedit_server.Common.{
  ◌≡◌, refl, ℕ, suc, ℤ, Bool, true, false, Bool-cases, inl, inr, All, List, [], ◌∷◌, map, Option,
  none, some, if◌then◌else◌,
}
use uniedit_server.Ai.Model.{
  Floats, AiProvider, AiModel, AiRoutingContext, AiScoredCandidate, required_capabilities,
  add_score,
}
use uniedit_server.Ai.Strategies.{
  keep, or_all, or_largest, preference_filter, preference_score, health_filter, capability_filter,
  context_filter, context_score, cost_score, cost_bonus, window_bonus, preferred_bonus,
  preference_order, jittered, is_empty, no_context,
}

module _ {A : Type 0} where
  All-keep : (P : A → Type 0) (p : A → Bool) (xs : List A) → All P xs → All P (keep p xs)
  All-keep P p [] h = tt
  All-keep P p (x ∷ xs) h = elim (Bool-cases (p x)) [
    | inl e ↦ rw (e, keep) (h.0, All-keep P p xs h.1)
    | inr e ↦ rw (e, keep) (All-keep P p xs h.1)
  ]

  All-keep_step :
      (P : A → Type 0) (b : Bool) (x : A) (xs : List A)
      → (b ≡ true → P x)
      → All P xs
      → All P (if b then x ∷ xs else xs)
  All-keep_step P true x xs h k = (h refl, k)
  All-keep_step P false x xs h k = k

  pub keep-All : (p : A → Bool) (xs : List A) → All (λ x. p x ≡ true) (keep p xs)
  keep-All p [] = tt
  keep-All p (x ∷ xs) = All-keep_step (λ y. p y ≡ true) (p x) x (keep p xs) (λ e. e) (keep-All p xs)

  All-or_all : (P : A → Type 0) (kept xs : List A) → All P kept → All P xs → All P (or_all kept xs)
  All-or_all P [] xs k h = h
  All-or_all P (x ∷ kept) xs k h = k

  All-if :
      (P : A → Type 0) (b : Bool) (xs ys : List A)
      → All P xs
      → All P ys
      → All P (if b then xs else ys)
  All-if P true xs ys h k = h
  All-if P false xs ys h k = k

  All-map :
      (P : A → Type 0) (g : A → A) (xs : List A)
      → ((x : A) → P x → P (g x))
      → All P xs
      → All P (map g xs)
  All-map P g [] s h = tt
  All-map P g (x ∷ xs) s h = (s x h.0, All-map P g xs s h.1)

module _ {F : Type 0} (f : Floats F) (P : AiProvider → AiModel F → Type 0) where
  abbrev On : AiScoredCandidate F → Type 0
  On c = P c.provider c.model

  pub All-preference_filter :
      (ctx : AiRoutingContext) (cs : List (AiScoredCandidate F))
      → All On cs
      → All On (preference_filter ctx cs)
  unfolding preference_filter
  All-preference_filter ctx cs h =
      All-if On (is_empty ctx.preferred_models) cs _ h (All-or_all On _ cs (All-keep On _ cs h) h)

  pub All-health_filter :
      (ctx : AiRoutingContext) (cs : List (AiScoredCandidate F))
      → All On cs
      → All On (health_filter ctx cs)
  unfolding health_filter
  All-health_filter ctx cs h =
      All-if On (is_empty ctx.provider_health) cs _ h (All-or_all On _ cs (All-keep On _ cs h) h)

  pub All-capability_filter :
      (ctx : AiRoutingContext) (cs : List (AiScoredCandidate F))
      → All On cs
      → All On (capability_filter ctx cs)
  unfolding capability_filter
  All-capability_filter ctx cs h =
      All-if On (is_empty (required_capabilities ctx)) cs _ h (All-keep On _ cs h)

  All-or_largest :
      (kept cs : List (AiScoredCandidate F)) → All On kept → All On cs → All On (or_largest kept cs)
  unfolding or_largest
  All-or_largest [] cs k h = All-keep On _ cs h
  All-or_largest (c ∷ kept) cs k h = k

  pub All-context_filter :
      (ctx : AiRoutingContext) (cs : List (AiScoredCandidate F))
      → All On cs
      → All On (context_filter ctx cs)
  unfolding context_filter
  All-context_filter ctx cs h =
      All-if On (no_context ctx) cs _ h (All-or_largest _ cs (All-keep On _ cs h) h)

  On-preferred_bonus : (n : Option ℕ) (c : AiScoredCandidate F) → On c → On (preferred_bonus f n c)
  unfolding add_score
  On-preferred_bonus none c h = h
  On-preferred_bonus (some n) c h = h

  pub All-preference_score :
      (ctx : AiRoutingContext) (cs : List (AiScoredCandidate F))
      → All On cs
      → All On (preference_score f ctx cs)
  unfolding preference_score
  All-preference_score ctx cs h = All-if On (is_empty ctx.preferred_models) cs _ h (
      All-map On _ cs (λ c. On-preferred_bonus (preference_order ctx.preferred_models c.model.id) c)
        h)

  On-window_bonus : (n : ℤ) (c : AiScoredCandidate F) → On c → On (window_bonus f n c)
  unfolding window_bonus add_score
  On-window_bonus n c h = h

  pub All-context_score :
      (ctx : AiRoutingContext) (cs : List (AiScoredCandidate F))
      → All On cs
      → All On (context_score f ctx cs)
  unfolding context_score
  All-context_score ctx cs h = All-if On _ cs _ h (All-map On _ cs (On-window_bonus _) h)

  On-if : (b : Bool) (c d : AiScoredCandidate F) → On c → On d → On (if b then c else d)
  On-if true c d h k = h
  On-if false c d h k = k

  On-cost_bonus : (n : F) (c : AiScoredCandidate F) → On c → On (cost_bonus f n c)
  unfolding cost_bonus add_score
  On-cost_bonus n c h = On-if _ _ c h h

  pub All-cost_score :
      (ctx : AiRoutingContext) (cs : List (AiScoredCandidate F))
      → All On cs
      → All On (cost_score f ctx cs)
  unfolding cost_score
  All-cost_score ctx cs h = All-if On _ cs _ h (All-map On _ cs (On-cost_bonus _) h)

  pub All-jittered :
      (random : ℕ → F) (n : ℕ) (cs : List (AiScoredCandidate F))
      → All On cs
      → All On (jittered f random n cs)
  unfolding jittered add_score
  All-jittered random n [] h = tt
  All-jittered random n (c ∷ cs) h = (h.0, All-jittered random (suc n) cs h.1)
