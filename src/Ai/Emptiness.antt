-- ===== src/Ai/Emptiness.antt =====
-- internal/domain/ai/strategy.go: which strategies keep some candidate, and what the capabilities filter keeps.
use uniedit_server.Common.{
  ◌≡◌, refl, ℕ, pos, String, Bool, true, false, All, List, [], ◌∷◌, ◌++◌, map, if◌then◌else◌, le_ℤ,
}
use uniedit_server.Ai.Model.{
  Floats, AiRoutingContext, AiScoredCandidate, has_all_capabilities, required_capabilities,
  required_if,
}
use uniedit_server.Ai.Strategies.{
  preference_filter, preference_score, health_filter, capability_filter, context_filter,
  context_score, cost_score, jittered, is_empty, no_context,
}
use uniedit_server.Ai.Lists.{is_empty-or_all, is_empty-cases, is_empty-keep}
use uniedit_server.Ai.Windows.{is_empty-or_largest}
use uniedit_server.Ai.Selection.{keep-All}

module _ {A : Type 0} where
  pub is_empty-map : (g : A → A) (xs : List A) → is_empty (map g xs) ≡ is_empty xs
  is_empty-map g [] = refl
  is_empty-map g (x ∷ xs) = refl

  pub is_empty-if :
      (b : Bool) (xs ys : List A)
      → is_empty ys ≡ is_empty xs
      → is_empty (if b then xs else ys) ≡ is_empty xs
  is_empty-if true xs ys e = refl
  is_empty-if false xs ys e = e

  pub All-with : (P Q : A → Type 0) (xs : List A) → All P xs → All Q xs → All (λ x. P x × Q x) xs
  All-with P Q [] h k = tt
  All-with P Q (x ∷ xs) h k = ((h.0, k.0), All-with P Q xs h.1 k.1)

is_empty-append : {A : Type 0} (xs : List A) (x : A) → is_empty (xs ++ x ∷ []) ≡ false
is_empty-append [] x = refl
is_empty-append (y ∷ xs) x = refl

is_empty-required_if :
    (b : Bool) (cap : String) (caps : List String)
    → is_empty caps ≡ false
    → is_empty (required_if b cap caps) ≡ false
is_empty-required_if true cap caps h = is_empty-append caps cap
is_empty-required_if false cap caps h = h

module _ {F : Type 0} (f : Floats F) (ctx : AiRoutingContext) where
  pub is_empty-preference_score :
      (cs : List (AiScoredCandidate F)) → is_empty (preference_score f ctx cs) ≡ is_empty cs
  unfolding preference_score
  is_empty-preference_score cs =
      is_empty-if (is_empty ctx.preferred_models) cs _ (is_empty-map _ cs)

  pub is_empty-context_score :
      (cs : List (AiScoredCandidate F)) → is_empty (context_score f ctx cs) ≡ is_empty cs
  unfolding context_score
  is_empty-context_score cs = is_empty-if _ cs _ (is_empty-map _ cs)

  pub is_empty-cost_score :
      (cs : List (AiScoredCandidate F)) → is_empty (cost_score f ctx cs) ≡ is_empty cs
  unfolding cost_score
  is_empty-cost_score cs = is_empty-if _ cs _ (is_empty-map _ cs)

  pub is_empty-jittered :
      (random : ℕ → F) (cs : List (AiScoredCandidate F))
      → is_empty (jittered f random 0 cs) ≡ is_empty cs
  unfolding jittered
  is_empty-jittered random [] = refl
  is_empty-jittered random (c ∷ cs) = refl

  abbrev pub Capable : AiScoredCandidate F → Type 0
  Capable c = has_all_capabilities c.model (required_capabilities ctx) ≡ true

  pub is_empty-required_capabilities : is_empty (required_capabilities ctx) ≡ false
  unfolding required_capabilities
  is_empty-required_capabilities = is_empty-required_if ctx.require_json "json_mode" _ (
      is_empty-required_if ctx.require_vision "vision" _ (
        is_empty-required_if ctx.require_tools "tools" _
          (is_empty-required_if ctx.require_stream "stream" ("chat" ∷ []) refl)))

  pub All-Capable : (cs : List (AiScoredCandidate F)) → All Capable (capability_filter ctx cs)
  unfolding capability_filter
  All-Capable cs =
      rw is_empty-required_capabilities
        (keep-All (λ c. has_all_capabilities c.model (required_capabilities ctx)) cs)

  pub is_empty-capability_filter :
      (cs : List (AiScoredCandidate F))
      → All Capable cs
      → is_empty cs ≡ false
      → is_empty (capability_filter ctx cs) ≡ false
  unfolding capability_filter
  is_empty-capability_filter cs h e =
      is_empty-cases (is_empty (required_capabilities ctx)) cs _ e (is_empty-keep _ cs h e)

  pub is_empty-context_filter :
      (cs : List (AiScoredCandidate F))
      → All (λ c. le_ℤ (pos 0) c.model.context_window ≡ true) cs
      → is_empty cs ≡ false
      → is_empty (context_filter ctx cs) ≡ false
  unfolding context_filter
  is_empty-context_filter cs h e =
      is_empty-cases (no_context ctx) cs _ e (is_empty-or_largest _ cs h e)

  pub is_empty-preference_filter :
      (cs : List (AiScoredCandidate F))
      → is_empty cs ≡ false
      → is_empty (preference_filter ctx cs) ≡ false
  unfolding preference_filter
  is_empty-preference_filter cs e =
      is_empty-cases (is_empty ctx.preferred_models) cs _ e (is_empty-or_all _ cs e)

  pub is_empty-health_filter :
      (cs : List (AiScoredCandidate F))
      → is_empty cs ≡ false
      → is_empty (health_filter ctx cs) ≡ false
  unfolding health_filter
  is_empty-health_filter cs e =
      is_empty-cases (is_empty ctx.provider_health) cs _ e (is_empty-or_all _ cs e)
