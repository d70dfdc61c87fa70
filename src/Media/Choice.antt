-- ===== src/Media/Choice.antt =====
-- internal/domain/media/domain.go: what `findModelWithCapability` finds.
use uniedit_server.Common.{
  ◌≡◌, refl, ◌⊎◌, inl, inr, String, String_Eq, ◌==◌, ◌||◌, Bool, true, false, Option, none, some,
  List, [], ◌∷◌, All, Result, ok, err, returns, Service, require, ◌>>◌, by_if, if◌then◌else◌,
  Ensures, ensured, Ensures-bind, Ensures-try, Ensures-give, Ensures-require, Ensures-imply,
  Ensures-call, Ensures-found, sym, ℕ, ◌∙◌,
}
use uniedit_server.Media.Model.{
  MediaProvider, MediaModel, has_capability, MediaError, model_not_found, provider_not_found,
  provider_unhealthy, capability_not_supported, from_port,
}
use uniedit_server.Media.Ports.{Ports}
use uniedit_server.Media.Selection.{
  Target, with_key, not_unhealthy, known_healthy, decrypted, decrypted_or, use_model, try_provider,
  first_usable, auto_select, find_model_with_capability,
}

-- Providers and their health do not change during the call, and the lookup by a capability answers with models
-- that have it.
pub record Fixed {W : Type 0} (d : Ports W) : Type 0 where
  pub providers : ℕ → Option MediaProvider
  pub health : ℕ → Bool
  pub provider_row :
      (id : ℕ) (o : Option MediaProvider) (w w' : W)
      → d.find_provider id w ≡ (ok o, w')
      → o ≡ providers id
  pub health_row : (id : ℕ) (b : Bool) (w w' : W) → d.get_health id w ≡ (ok b, w') → b ≡ health id
  pub capable :
      (capability : String) (models : List MediaModel) (w w' : W)
      → d.find_by_capability capability w ≡ (ok models, w')
      → All (λ m. has_capability m capability ≡ true) models

module _ {W : Type 0} (d : Ports W) (x : Fixed d) where
  -- The model has the capability, its provider is the one in the table, and the key is the provider's.
  abbrev pub Found : String → Target → Type 0
  Found capability t =
      (has_capability t.model capability ≡ true)
      × (x.providers t.model.provider_id ≡ some t.provider)
      × (d.decrypt t.provider.encrypted_key ≡ ok t.api_key)

  -- Enabled, with a provider for which the cache answers that it is healthy.
  abbrev pub Usable : Target → Type 0
  Usable t =
      (t.model.enabled ≡ true) × (t.provider.enabled ≡ true) × (x.health t.provider.id ≡ true)

  decrypted-Ensures :
      (capability : String) (m : MediaModel) (p : MediaProvider) (w : W)
      → has_capability m capability ≡ true
      → x.providers m.provider_id ≡ some p
      → Ensures (decrypted d m p (d.decrypt p.encrypted_key)) w (λ t w'. Found capability t)
  decrypted-Ensures capability m p w c f = either (d.decrypt p.encrypted_key) refl
    where
      either :
          (k : Result String String)
          → d.decrypt p.encrypted_key ≡ k
          → Ensures (decrypted d m p k) w (λ t w'. Found capability t)
      either (ok key) e = Ensures-give (with_key m p key) w (c, f, e)
      either (err z) e = record { holds = tt }

  use_model-Ensures :
      (model_id capability : String) (w : W)
      → Ensures (use_model d model_id capability) w (λ t w'. Found capability t)
  unfolding use_model
  use_model-Ensures model_id capability w = Ensures-bind _ _ w (
      Ensures-call from_port (d.find_model model_id) w (λ o w1 z. Ensures-bind _ _ w1 (
        Ensures-found o model_not_found w1 (λ m y. Ensures-bind _ _ w1 (
          Ensures-require (has_capability m capability) capability_not_supported w1 (λ c.
            Ensures-bind _ _ w1 (
              Ensures-call from_port (d.find_provider m.provider_id) w1 (λ o' w2 f.
                Ensures-bind _ _ w2 (
                  Ensures-found o' provider_not_found w2 (λ p g.
                    Ensures-bind _
                      (λ h.
                        require (not_unhealthy h) provider_unhealthy
                        >> decrypted d m p (d.decrypt p.encrypted_key))
                      w2
                      (Ensures-try (d.get_health p.id) w2 (λ h w3 q. Ensures-bind _ _ w3 (
                        Ensures-require (not_unhealthy h) provider_unhealthy w3 (λ b.
                          decrypted-Ensures capability m p w3 c
                            (sym (x.provider_row m.provider_id o' w1 w2 f) ∙ g)))))))))))))))

  abbrev pub Selected : String → Target → Type 0
  Selected capability t = Found capability t × Usable t

  abbrev Selecting : String → Service W MediaError Target → W → Type 0
  Selecting capability s w = Ensures s w (λ t w'. Selected capability t)

  decrypted_or-Ensures :
      (capability : String) (m : MediaModel) (p : MediaProvider)
      (rest : Service W MediaError Target) (k : Result String String) (w : W)
      → d.decrypt p.encrypted_key ≡ k
      → ((key : String)
          → d.decrypt p.encrypted_key ≡ ok key
          → Selected capability (with_key m p key))
      → Selecting capability rest w
      → Selecting capability (decrypted_or d m p rest k) w
  decrypted_or-Ensures capability m p rest (ok key) w e f h =
      Ensures-give (with_key m p key) w (f key e)
  decrypted_or-Ensures capability m p rest (err z) w e f h = h

  healthy-Ensures :
      (capability : String) (m : MediaModel) (p : MediaProvider)
      (rest : Service W MediaError Target) (h : Result String Bool) (w w1 : W)
      → d.get_health p.id w ≡ (h, w1)
      → ((key : String)
          → d.decrypt p.encrypted_key ≡ ok key
          → x.health p.id ≡ true
          → Selected capability (with_key m p key))
      → ((w' : W) → Selecting capability rest w')
      → Selecting capability
          (if known_healthy h then decrypted_or d m p rest (d.decrypt p.encrypted_key) else rest)
          w1
  healthy-Ensures capability m p rest (ok true) w w1 e f k =
      decrypted_or-Ensures capability m p rest (d.decrypt p.encrypted_key) w1 refl
        (λ key g. f key g (sym (x.health_row p.id true w w1 e))) (k w1)
  healthy-Ensures capability m p rest (ok false) w w1 e f k = k w1
  healthy-Ensures capability m p rest (err z) w w1 e f k = k w1

  try_provider-Ensures :
      (capability : String) (m : MediaModel) (rest : Service W MediaError Target)
      (r : Result String (Option MediaProvider)) (w w1 : W)
      → has_capability m capability ≡ true
      → m.enabled ≡ true
      → d.find_provider m.provider_id w ≡ (r, w1)
      → ((w' : W) → Selecting capability rest w')
      → Selecting capability (try_provider d m rest r) w1
  try_provider-Ensures capability m rest (err z) w w1 c b f k = k w1
  try_provider-Ensures capability m rest (ok none) w w1 c b f k = k w1
  try_provider-Ensures capability m rest (ok (some p)) w w1 c b f k =
      by_if (λ s. Selecting capability s w1) p.enabled
        (λ e.
          Ensures-bind _
            (λ h.
              if known_healthy h then decrypted_or d m p rest (d.decrypt p.encrypted_key) else rest)
            w1
            (Ensures-try (d.get_health p.id) w1 (λ h w2 q.
              healthy-Ensures capability m p rest h w1 w2 q
                (λ key g y. ((c, sym (x.provider_row m.provider_id (some p) w w1 f), g), (b, e, y)))
                k)))
        (λ e. k w1)

  first_usable-Ensures :
      (capability : String) (models : List MediaModel) (w : W)
      → All (λ m. has_capability m capability ≡ true) models
      → Selecting capability (first_usable d models) w
  unfolding first_usable
  first_usable-Ensures capability [] w h = record { holds = tt }
  first_usable-Ensures capability (m ∷ models) w h =
      by_if (λ s. Selecting capability s w) m.enabled
        (λ e.
          Ensures-bind _ (λ p. try_provider d m (first_usable d models) p) w
            (Ensures-try (d.find_provider m.provider_id) w (λ r w1 f.
              try_provider-Ensures capability m (first_usable d models) r w w1 h.0 e f
                (λ w'. first_usable-Ensures capability models w' h.1))))
        (λ e. first_usable-Ensures capability models w h.1)

  auto_select-Ensures :
      (capability : String) (models : List MediaModel) (w : W)
      → All (λ m. has_capability m capability ≡ true) models
      → Selecting capability (auto_select d models) w
  auto_select-Ensures capability [] w h = record { holds = tt }
  auto_select-Ensures capability (m ∷ models) w h = first_usable-Ensures capability (m ∷ models) w h

  -- The request names its model.
  abbrev pub Named : String → Type 0
  Named model_id = (model_id == "" || model_id == "auto") ≡ false

  find-Ensures :
      (model_id capability : String) (w : W)
      → Ensures
          (find_model_with_capability d model_id capability)
          w
          (λ t w'. Found capability t × (Named model_id ⊎ Usable t))
  unfolding find_model_with_capability
  find-Ensures model_id capability w =
      by_if
        (λ (s : Service W MediaError Target).
          Ensures s w (λ t w'. Found capability t × (Named model_id ⊎ Usable t)))
        (model_id == "" || model_id == "auto")
        (λ e.
          Ensures-bind _ (λ models. auto_select d models) w
            (Ensures-call from_port (d.find_by_capability capability) w (λ models w1 f.
              Ensures-imply _ w1
                (auto_select-Ensures capability models w1 (x.capable capability models w w1 f))
                (λ t q. (q.0, inr q.1)))))
        (λ e. Ensures-imply _ w (use_model-Ensures model_id capability w) (λ t q. (q, inl e)))

  -- What `findModelWithCapability` finds, where providers and their health do not change during the call and
  -- the lookup by a capability answers with models that have it: a model with the capability, the provider
  -- of its provider id, and the decrypted key of that provider. Unless the request names the model, both
  -- are enabled and the cache answers that the provider is healthy.
  pub find_model_with_capability_lem :
      (model_id capability : String) (t : Target) (w w' : W)
      → find_model_with_capability d model_id capability w ≡ (returns t, w')
      → Found capability t × (Named model_id ⊎ Usable t)
  find_model_with_capability_lem model_id capability t w w' e =
      ensured _ t w w' (find-Ensures model_id capability w) e
