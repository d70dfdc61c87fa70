-- ===== src/Ai/Routes.antt =====
-- internal/domain/ai/domain.go: what a route leads to.
use uniedit_server.Common.{
  ◌≡◌, refl, ◌∙◌, ap, ◌⊎◌, inl, inr, ℕ, Bool, true, not, String, by_if, sym, subst₂, List, [], ◌∷◌,
  All, Option, none, some, Result, ok, err, Reply, returns, Service, give, try, require, Ensures,
  ensured, Ensures-bind, Ensures-all, Ensures-try, Ensures-give, Ensures-require, Ensures-imply,
  arith, false, lt_ℤ, subst,
}
use mathlib.Core.List.{Mem}
use mathlib.Core.List.{Memᴰ}
use uniedit_server.Ai.Model.{
  Floats, AiProvider, AiModel, AiRoutingContext, AiScoredCandidate, has_all_capabilities,
  required_capabilities, has_capability,
}
use uniedit_server.Ai.Strategies.{is_empty}
use uniedit_server.Ai.Chain.{Sort, AiRoutingResult, ChainError, execute, default_strategy_chain}
use uniedit_server.Ai.Choice.{Chosen, execute_lem}
use uniedit_server.Ai.Ports.{Ports, AccountPorts, AiProviderAccount, Crypto}
use uniedit_server.Ai.Routing.{
  AiError, no_available_models, with_candidate, candidates_of, get_candidates, find_models,
  resolve_api_key, with_key, with_account_key, select_account, listed, as_service, inject, route,
  select_from,
}

-- Providers and their accounts do not change during the call.
pub record Fixed {W F : Type 0} (d : Ports W F) (a : Option (AccountPorts W F)) : Type 0 where
  pub providers : ℕ → Option AiProvider
  pub accounts : ℕ → List AiProviderAccount
  pub provider_row :
      (id : ℕ) (o : Option AiProvider) (w w' : W)
      → d.find_provider id w ≡ (ok o, w')
      → o ≡ providers id
  pub account_rows :
      (p : AccountPorts W F) (id : ℕ) (l : List AiProviderAccount) (w w' : W)
      → a ≡ some p
      → p.find_available_by_provider id w ≡ (ok l, w')
      → l ≡ accounts id

-- Both are enabled, and the provider is the one of the model.
abbrev pub Usable : {F : Type 0} → (ℕ → Option AiProvider) → AiProvider → AiModel F → Type 0
Usable providers p m = (p.enabled ≡ true) × (m.enabled ≡ true) × (providers m.provider_id ≡ some p)

-- The model can chat, and whatever else the request asks for.
abbrev pub Able : {F : Type 0} → AiRoutingContext → AiModel F → Type 0
Able ctx m =
    (has_capability m "chat" ≡ true)
    × ((ctx.require_stream ≡ false) ⊎ (has_capability m "stream" ≡ true))
    × ((ctx.require_tools ≡ false) ⊎ (has_capability m "tools" ≡ true))
    × ((ctx.require_vision ≡ false) ⊎ (has_capability m "vision" ≡ true))
    × ((ctx.require_json ≡ false) ⊎ (has_capability m "json_mode" ≡ true))

-- The key of the provider, or one that was decrypted from an account of the provider.
abbrev pub Keyed :
    {F : Type 0} → (ℕ → List AiProviderAccount) → Option Crypto → AiRoutingResult F → Type 0
Keyed accounts c r =
    (r.api_key ≡ r.provider.api_key)
    ⊎ ((x : Crypto) × (a : AiProviderAccount) × (c ≡ some x)
        × Mem a (accounts r.provider.id)
        × (r.account_id ≡ some a.id)
        × (x.decrypt a.encrypted_api_key ≡ ok r.api_key))

no_account : {A : Type 0} {a : A} → none ≡ some a → ⊥
no_account e = cc

-- What the choice among accounts starts from or comes to.
selected :
    (best : AiProviderAccount) (l : List AiProviderAccount) → Memᴰ (select_from best l) (best ∷ l)
unfolding select_from
selected best [] = Memᴰ.head refl
selected best (a ∷ l) =
    by_if (λ (x : AiProviderAccount). Memᴰ (select_from x l) (best ∷ a ∷ l))
      (lt_ℤ best.priority a.priority) (λ e. Memᴰ.tail (selected a l)) (λ e. skip (selected best l))
  where
    skip : {x : AiProviderAccount} → Memᴰ x (best ∷ l) → Memᴰ x (best ∷ a ∷ l)
    skip (Memᴰ.head e) = Memᴰ.head e
    skip (Memᴰ.tail m) = Memᴰ.tail (Memᴰ.tail m)

-- The account, or another where there is none.
abbrev account_or : AiProviderAccount → Option AiProviderAccount → AiProviderAccount
account_or x none = x
account_or x (some a) = a

Mem-select_account :
    (l : List AiProviderAccount) (a : AiProviderAccount) → select_account l ≡ some a → Mem a l
unfolding select_account
Mem-select_account [] a e = cc
Mem-select_account (x ∷ l) a e =
    subst (λ (o : Option AiProviderAccount). Mem (account_or x o) (x ∷ l)) e ∣ selected x l ∣₁

able :
    {F : Type 0} (ctx : AiRoutingContext) (m : AiModel F)
    → has_all_capabilities m (required_capabilities ctx) ≡ true
    → Able ctx m
unfolding required_capabilities has_all_capabilities
able ctx m h = ground (arith, h)

module _ {F : Type 0} (f : Floats F) (ps : ℕ → Option AiProvider) where
  All-with_candidate :
      (m : AiModel F) (r : Result String (Option AiProvider)) (cs : List (AiScoredCandidate F))
      → m.enabled ≡ true
      → ((o : Option AiProvider) → r ≡ ok o → o ≡ ps m.provider_id)
      → All (λ c. Usable ps c.provider c.model) cs
      → All (λ c. Usable ps c.provider c.model) (with_candidate f m r cs)
  All-with_candidate m (err e) cs h g k = k
  All-with_candidate m (ok none) cs h g k = k
  All-with_candidate m (ok (some p)) cs h g k =
      by_if (λ xs. All (λ c. Usable ps c.provider c.model) xs) p.enabled
        (λ e. ((e, h, sym (g (some p) refl)), k)) (λ e. k)

module _ {W F : Type 0} (d : Ports W F) (f : Floats F) {a : Option (AccountPorts W F)}
    (x : Fixed d a) where
  candidates_of-Ensures :
      (models : List (AiModel F)) (w : W)
      → Ensures
          (candidates_of d f models)
          w
          (λ cs w'. All (λ c. Usable x.providers c.provider c.model) cs)
  unfolding candidates_of
  candidates_of-Ensures [] w = Ensures-give [] w tt
  candidates_of-Ensures (m ∷ models) w =
      by_if
        (λ (s : Service W AiError (List (AiScoredCandidate F))).
          Ensures s w (λ (cs : List (AiScoredCandidate F)) w'.
            All (λ c. Usable x.providers c.provider c.model) cs))
        m.enabled
        (λ e. Ensures-bind _ _ w (
          Ensures-try (d.find_provider m.provider_id) w (λ r w1 z.
            Ensures-bind (candidates_of d f models) (λ cs. give (with_candidate f m r cs)) w1
              (Ensures-imply _ w1 (candidates_of-Ensures models w1) (λ cs k. Ensures-give _ _ (
                All-with_candidate f x.providers m r cs e
                  (λ o q. x.provider_row m.provider_id o w w1 (z ∙ ap (λ y. (y, w1)) q)) k))))))
        (λ e. candidates_of-Ensures models w)

  get_candidates-Ensures :
      (ctx : AiRoutingContext) (w : W)
      → Ensures
          (get_candidates d f ctx)
          w
          (λ cs w'. All (λ c. Usable x.providers c.provider c.model) cs)
  unfolding get_candidates
  get_candidates-Ensures ctx w =
      Ensures-bind _ _ w
        (Ensures-all (find_models d f ctx) w (λ models w1. candidates_of-Ensures models w1))

  -- What the choice of a key leaves as it is.
  abbrev Same : AiRoutingResult F → AiRoutingResult F → Type 0
  Same r r' = (r'.provider ≡ r.provider) × (r'.model ≡ r.model)

  with_key_cases :
      (c : Option Crypto) (r : AiRoutingResult F) (o : Option AiProviderAccount)
      → ((a : AiProviderAccount) → o ≡ some a → Mem a (x.accounts r.provider.id))
      → Same r (with_key c r o) × Keyed x.accounts c (with_key c r o)
  with_key_cases none r o h = ((refl, refl), inl refl)
  with_key_cases (some y) r none h = ((refl, refl), inl refl)
  with_key_cases (some y) r (some a) h = decrypted (y.decrypt a.encrypted_api_key) refl
    where
      decrypted :
          (k : Result String String)
          → y.decrypt a.encrypted_api_key ≡ k
          → Same r (with_account_key r a k) × Keyed x.accounts (some y) (with_account_key r a k)
      decrypted (ok key) e = ((refl, refl), inr (y, a, refl, h a refl, refl, e))
      decrypted (err m) e = ((refl, refl), inl refl)

  resolve_api_key-Ensures :
      (b : Option (AccountPorts W F)) (c : Option Crypto) (r : AiRoutingResult F) (w : W)
      → a ≡ b
      → Ensures (resolve_api_key d f b c r) w (λ r' w'. Same r r' × Keyed x.accounts c r')
  unfolding resolve_api_key select_account
  resolve_api_key-Ensures none c r w i = Ensures-give _ w ((refl, refl), inl refl)
  resolve_api_key-Ensures (some p) c r w i =
      Ensures-bind (try (p.find_available_by_provider r.provider.id))
        (λ l. give (with_key c r (select_account (listed l)))) w
        (Ensures-try (p.find_available_by_provider r.provider.id) w (λ l w1 z. Ensures-give _ w1 (
          with_key_cases c r (select_account (listed l)) (λ a e.
            listed_account l a e
              (λ found q. x.account_rows p r.provider.id found w w1 i (z ∙ ap (λ y. (y, w1)) q))))))
    where
      listed_account :
          (l : Result String (List AiProviderAccount)) (y : AiProviderAccount)
          → select_account (listed l) ≡ some y
          → ((found : List AiProviderAccount) → l ≡ ok found → found ≡ x.accounts r.provider.id)
          → Mem y (x.accounts r.provider.id)
      listed_account (ok found) y e q =
          subst (λ z. Mem y z) (q found refl) (Mem-select_account found y e)
      listed_account (err m) y e q = absurd (no_account e)

  as_service-Ensures :
      (E : Type 0) (P : AiProvider → AiModel F → Type 0) (s : Sort) (ctx : AiRoutingContext)
      (r : Reply ChainError (AiRoutingResult F)) (w : W)
      → Chosen f s E P ctx r
      → Ensures (as_service r) w (λ r w'.
        P r.provider r.model × (has_all_capabilities r.model (required_capabilities ctx) ≡ true))
  as_service-Ensures E P s ctx r w (inl h) = rw h.1 (record { holds = tt })
  as_service-Ensures E P s ctx r w (inr h) = rw h.1 (Ensures-give _ w (h.2, h.3))

  -- What a route is sure of.
  abbrev pub Routed : Option Crypto → AiRoutingContext → AiRoutingResult F → Type 0
  Routed c ctx r = Usable x.providers r.provider r.model × Able ctx r.model × Keyed x.accounts c r

  Same-Routed :
      (c : Option Crypto) (ctx : AiRoutingContext) (r r' : AiRoutingResult F)
      → Usable x.providers r.provider r.model
      → has_all_capabilities r.model (required_capabilities ctx) ≡ true
      → Same r r'
      → Keyed x.accounts c r'
      → Routed c ctx r'
  Same-Routed c ctx r r' u h s k = (
    subst₂ (Usable x.providers) (sym s.0) (sym s.1) u,
    able ctx r'.model (ap (λ m. has_all_capabilities m (required_capabilities ctx)) s.1 ∙ h),
    k,
  )

  route-Ensures :
      (s : Sort) (c : Option Crypto) (random : ℕ → F) (health : List (ℕ × Bool))
      (ctx : AiRoutingContext) (w : W)
      → Ensures (route d f s a c random health ctx) w (λ r w'. Routed c ctx r)
  unfolding route required_capabilities
  route-Ensures s c random health ctx w = Ensures-bind _ _ w (
      Ensures-imply (get_candidates d f ctx) w (get_candidates-Ensures ctx w) (λ cs h.
        Ensures-bind (require (not (is_empty cs)) no_available_models) _ _ (
          Ensures-require (not (is_empty cs)) no_available_models _ (λ b.
            Ensures-bind
              (as_service (execute f s (default_strategy_chain f s random) (inject health ctx) cs))
              (resolve_api_key d f a c) _
              (Ensures-imply _ _
                (as_service-Ensures _ (Usable x.providers) s (inject health ctx) _ _
                  (execute_lem f s (Usable x.providers) random (inject health ctx) cs h))
                (λ r k.
                  Ensures-imply _ _ (resolve_api_key-Ensures a c r _ refl)
                    (λ r' q. Same-Routed c ctx r r' k.0 k.1 q.0 q.1)))))))

  -- The route of a request, where `Route` returns one and providers and their accounts do not change during the
  -- call, leads to an enabled model that can chat and has each of the capabilities stream, tools, vision and
  -- JSON that the request asks for, and to the provider of that model, which is enabled. Its key is that of the
  -- provider, or was decrypted from one of the accounts of the provider, whose id the route carries.
  pub route_lem :
      (s : Sort) (c : Option Crypto) (random : ℕ → F) (health : List (ℕ × Bool))
      (ctx : AiRoutingContext) (r : AiRoutingResult F) (w w' : W)
      → route d f s a c random health ctx w ≡ (returns r, w')
      → Usable x.providers r.provider r.model × Able ctx r.model × Keyed x.accounts c r
  route_lem s c random health ctx r w w' e =
      ensured _ r w w' (route-Ensures s c random health ctx w) e
