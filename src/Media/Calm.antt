-- ===== src/Media/Calm.antt =====
-- internal/domain/media/domain.go: `findModelWithCapability` never panics.
use uniedit_server.Common.{
  String, String_Eq, ◌==◌, ◌||◌, Bool, true, false, Option, none, some, List, [], ◌∷◌, Result, ok,
  err, Reply, returns, fails_with, panics, Service, require, call, found, by_if, after_reply,
  wrapped,
}
use uniedit_server.Media.Model.{
  MediaModel, MediaProvider, has_capability, MediaError, provider_unhealthy, from_port,
}
use uniedit_server.Media.Ports.{Ports}
use uniedit_server.Media.Selection.{
  Target, known_healthy, not_unhealthy, decrypted, decrypted_or, use_model, try_provider,
  first_usable, auto_select, find_model_with_capability,
}

-- No panic.
abbrev pub Calm : {A : Type 0} → Reply MediaError A → Type 0
Calm panics = ⊥
Calm _ = Unit

module _ {W : Type 0} where
  Calm-bind :
      {A B : Type 0} (r : Reply MediaError A × W) (f : A → Service W MediaError B)
      → Calm r.0
      → ((a : A) (w : W) → Calm (f a w).0)
      → Calm (after_reply r f).0
  Calm-bind (returns a, w) f h k = k a w
  Calm-bind (fails_with e, w) f h k = tt
  Calm-bind (panics, w) f h k = absurd h

  Calm-call : {A : Type 0} (r : Result String A × W) → Calm (wrapped from_port r).0
  Calm-call (ok a, w) = tt
  Calm-call (err e, w) = tt

  Calm-require : (b : Bool) (e : MediaError) (w : W) → Calm (require b e w).0
  Calm-require true e w = tt
  Calm-require false e w = tt

  Calm-found : {A : Type 0} (o : Option A) (e : MediaError) (w : W) → Calm (found o e w).0
  Calm-found none e w = tt
  Calm-found (some a) e w = tt

module _ {W : Type 0} (d : Ports W) where
  abbrev AllCalm : Service W MediaError Target → Type 0
  AllCalm s = (w : W) → Calm (s w).0

  Calm-decrypted :
      (m : MediaModel) (p : MediaProvider) (k : Result String String) → AllCalm (decrypted d m p k)
  Calm-decrypted m p (ok key) w = tt
  Calm-decrypted m p (err e) w = tt

  Calm-decrypted_or :
      (m : MediaModel) (p : MediaProvider) (rest : Service W MediaError Target)
      (k : Result String String)
      → AllCalm rest
      → AllCalm (decrypted_or d m p rest k)
  Calm-decrypted_or m p rest (ok key) h w = tt
  Calm-decrypted_or m p rest (err e) h w = h w

  Calm-use_model : (model_id capability : String) → AllCalm (use_model d model_id capability)
  unfolding use_model
  Calm-use_model model_id capability w =
      Calm-bind (call from_port (d.find_model model_id) w) _ (Calm-call (d.find_model model_id w))
        (λ o w1. Calm-bind (found o _ w1) _ (Calm-found o _ w1) (λ m w2.
          Calm-bind (require (has_capability m capability) _ w2) _ (Calm-require _ _ w2) (λ x w3.
            Calm-bind (call from_port (d.find_provider m.provider_id) w3) _
              (Calm-call (d.find_provider m.provider_id w3))
              (λ o' w4. Calm-bind (found o' _ w4) _ (Calm-found o' _ w4) (λ p w5.
                Calm-bind
                  (require (not_unhealthy (d.get_health p.id w5).0) provider_unhealthy
                    (d.get_health p.id w5).1)
                  _ (Calm-require _ _ _)
                  (λ y w6. Calm-decrypted m p (d.decrypt p.encrypted_key) w6))))))

  Calm-try_provider :
      (m : MediaModel) (rest : Service W MediaError Target)
      (r : Result String (Option MediaProvider))
      → AllCalm rest
      → AllCalm (try_provider d m rest r)
  Calm-try_provider m rest (err e) h w = h w
  Calm-try_provider m rest (ok none) h w = h w
  Calm-try_provider m rest (ok (some p)) h w =
      by_if (λ (s : Service W MediaError Target). Calm (s w).0) p.enabled
        (λ e.
          by_if (λ (s : Service W MediaError Target). Calm (s (d.get_health p.id w).1).0)
            (known_healthy (d.get_health p.id w).0)
            (λ e. Calm-decrypted_or m p rest (d.decrypt p.encrypted_key) h _) (λ e. h _))
        (λ e. h w)

  Calm-first_usable : (models : List MediaModel) → AllCalm (first_usable d models)
  unfolding first_usable
  Calm-first_usable [] w = tt
  Calm-first_usable (m ∷ models) w =
      by_if (λ (s : Service W MediaError Target). Calm (s w).0) m.enabled
        (λ e.
          Calm-try_provider m (first_usable d models) (d.find_provider m.provider_id w).0
            (Calm-first_usable models) _)
        (λ e. Calm-first_usable models w)

  Calm-auto_select : (models : List MediaModel) → AllCalm (auto_select d models)
  Calm-auto_select [] w = tt
  Calm-auto_select (m ∷ models) w = Calm-first_usable (m ∷ models) w

  pub Calm-find :
      (model_id capability : String) → AllCalm (find_model_with_capability d model_id capability)
  unfolding find_model_with_capability
  Calm-find model_id capability w =
      by_if (λ (s : Service W MediaError Target). Calm (s w).0)
        (model_id == "" || model_id == "auto")
        (λ e.
          Calm-bind (call from_port (d.find_by_capability capability) w) _
            (Calm-call (d.find_by_capability capability w)) Calm-auto_select)
        (λ e. Calm-use_model model_id capability w)
