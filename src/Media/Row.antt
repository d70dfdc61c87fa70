-- ===== src/Media/Row.antt =====
-- internal/domain/media/domain.go: the row of a task while `ExecuteVideoTask` chooses a model for it.
use uniedit_server.Common.{
  ◌≡◌, ◌∙◌, ℕ, ℤ, String, String_Eq, ◌==◌, ◌||◌, Option, none, some, List, [], ◌∷◌, Result, ok, err,
  Port, Safe-call_then, Safe-give, Safe-if, Safe-raise, Service, Safe, Safe-bind, Safe-try_then,
  SafePort, Any, Safe-found, Answered-Any, Safe-require_then,
}
use uniedit_server.Media.Model.{
  MediaProvider, MediaModel, MediaTaskStatus, running, MediaVideoGenerationInput, MediaError,
  has_capability, provider_unhealthy,
}
use uniedit_server.Media.Ports.{Ports}
use uniedit_server.Media.Selection.{
  Target, known_healthy, not_unhealthy, decrypted, decrypted_or, use_model, try_provider,
  first_usable, auto_select, find_model_with_capability,
}

-- The status in the row of the task: a write takes effect under a context that has not ended, and none under
-- one that has, and the other calls leave the row as it is.
pub record TaskRow {W : Type 0} (d : Ports W) (id : ℕ) (v : W → MediaTaskStatus) : Type 0 where
  pub live_write :
      (s : MediaTaskStatus) (progress : ℤ) (output message : String) (w : W)
      → d.ctx_done w ≡ none
      → v (d.update_status id s progress output message w).1 ≡ s
  pub ended_write :
      (s : MediaTaskStatus) (progress : ℤ) (output message : String) (w : W) (m : String)
      → d.ctx_done w ≡ some m
      → v (d.update_status id s progress output message w).1 ≡ v w
  pub stays_ended :
      (s : MediaTaskStatus) (progress : ℤ) (output message : String) (w : W) (m : String)
      → d.ctx_done w ≡ some m
      → d.ctx_done (d.update_status id s progress output message w).1 ≡ some m
  pub model_keeps : (name : String) (w : W) → v (d.find_model name w).1 ≡ v w
  pub capability_keeps : (name : String) (w : W) → v (d.find_by_capability name w).1 ≡ v w
  pub provider_keeps : (provider_id : ℕ) (w : W) → v (d.find_provider provider_id w).1 ≡ v w
  pub health_keeps : (provider_id : ℕ) (w : W) → v (d.get_health provider_id w).1 ≡ v w
  pub adapter_keeps : (p : MediaProvider) (w : W) → v (d.get_for_provider p w).1 ≡ v w
  pub generate_keeps :
      (adapter : ℕ) (input : MediaVideoGenerationInput) (t : Target) (w : W)
      → v (d.generate_video adapter input t.model t.provider t.api_key w).1 ≡ v w
  pub poll_keeps :
      (adapter : ℕ) (task : String) (t : Target) (w : W)
      → v (d.get_video_status adapter task t.provider t.api_key w).1 ≡ v w
  pub sleep_keeps : (w : W) → v (d.sleep w) ≡ v w

module _ {W : Type 0} (d : Ports W) {id : ℕ} {v : W → MediaTaskStatus} (k : TaskRow d id v) where
  abbrev Kept : Service W MediaError Target → Type 0
  Kept s = Safe (λ w. v w ≡ running) s Any

  kept :
      {A : Type 0} (p : Port W A)
      → ((w : W) → v (p w).1 ≡ v w)
      → SafePort (λ w. v w ≡ running) p Any
  kept p f = record { safe = λ w h. (f w ∙ h, Answered-Any (p w).0) }

  Kept-decrypted :
      (m : MediaModel) (p : MediaProvider) (key : Result String String) → Kept (decrypted d m p key)
  Kept-decrypted m p (ok key) = Safe-give _ tt
  Kept-decrypted m p (err e) = Safe-raise _

  Kept-decrypted_or :
      (m : MediaModel) (p : MediaProvider) (rest : Service W MediaError Target)
      (key : Result String String)
      → Kept rest
      → Kept (decrypted_or d m p rest key)
  Kept-decrypted_or m p rest (ok key) h = Safe-give _ tt
  Kept-decrypted_or m p rest (err e) h = h

  Kept-use_model : (model_id capability : String) → Kept (use_model d model_id capability)
  unfolding use_model
  Kept-use_model model_id capability =
      Safe-call_then _ (kept (d.find_model model_id) (k.model_keeps model_id)) (λ o z.
        Safe-bind _ _ (Safe-found o _) (λ m y.
          Safe-require_then (has_capability m capability) _ (λ x.
            Safe-call_then _ (kept (d.find_provider m.provider_id) (k.provider_keeps m.provider_id))
              (λ o' z'. Safe-bind _ _ (Safe-found o' _) (λ p y'.
                Safe-try_then (kept (d.get_health p.id) (k.health_keeps p.id)) (λ h a.
                  Safe-require_then (not_unhealthy h) provider_unhealthy
                    (λ x'. Kept-decrypted m p (d.decrypt p.encrypted_key))))))))

  Kept-try_provider :
      (m : MediaModel) (rest : Service W MediaError Target)
      (r : Result String (Option MediaProvider))
      → Kept rest
      → Kept (try_provider d m rest r)
  Kept-try_provider m rest (err e) h = h
  Kept-try_provider m rest (ok none) h = h
  Kept-try_provider m rest (ok (some p)) h =
      Safe-if p.enabled
        (Safe-try_then (kept (d.get_health p.id) (k.health_keeps p.id)) (λ r a.
          Safe-if (known_healthy r) (Kept-decrypted_or m p rest (d.decrypt p.encrypted_key) h) h))
        h

  Kept-first_usable : (models : List MediaModel) → Kept (first_usable d models)
  unfolding first_usable
  Kept-first_usable [] = Safe-raise _
  Kept-first_usable (m ∷ models) =
      Safe-if m.enabled
        (Safe-try_then (kept (d.find_provider m.provider_id) (k.provider_keeps m.provider_id))
          (λ r a. Kept-try_provider m (first_usable d models) r (Kept-first_usable models)))
        (Kept-first_usable models)

  Kept-auto_select : (models : List MediaModel) → Kept (auto_select d models)
  Kept-auto_select [] = Safe-raise _
  Kept-auto_select (m ∷ models) = Kept-first_usable (m ∷ models)

  pub Safe-find :
      (model_id capability : String) → Kept (find_model_with_capability d model_id capability)
  unfolding find_model_with_capability
  Safe-find model_id capability =
      Safe-if (model_id == "" || model_id == "auto")
        (Safe-call_then _ (kept (d.find_by_capability capability) (k.capability_keeps capability))
          (λ models z. Kept-auto_select models))
        (Kept-use_model model_id capability)
