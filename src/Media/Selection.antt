-- ===== src/Media/Selection.antt =====
-- internal/domain/media/domain.go: `findModelWithCapability`.
use uniedit_server.Common.{
  String, String_Eq, Bool, true, false, ◌==◌, ◌||◌, if◌then◌else◌, Option, some, List, [], ◌∷◌,
  Result, ok, err, Service, give, raise, require, try, call, found, ◌>>=◌, ◌>>◌,
}
use uniedit_server.Media.Model.{
  MediaProvider, MediaModel, has_capability, MediaError, provider_not_found, model_not_found,
  provider_unhealthy, no_healthy_provider, capability_not_supported, decrypt_failed, from_port,
}
use uniedit_server.Media.Ports.{Ports}

-- A model, its provider and the key.
pub record Target : Type 0 where
  pub model : MediaModel
  pub provider : MediaProvider
  pub api_key : String

abbrev pub with_key : MediaModel → MediaProvider → String → Target
with_key m p key = record { model = m; provider = p; api_key = key }

-- An error of the cache is only logged.
abbrev pub not_unhealthy : Result String Bool → Bool
not_unhealthy (ok b) = b
not_unhealthy (err m) = true

-- Here an error counts as unhealthy.
abbrev pub known_healthy : Result String Bool → Bool
known_healthy (ok b) = b
known_healthy (err m) = false

module _ {W : Type 0} (d : Ports W) where
  abbrev pub decrypted :
      MediaModel → MediaProvider → Result String String → Service W MediaError Target
  decrypted m p (ok key) = give (with_key m p key)
  decrypted m p (err e) = raise (decrypt_failed e)

  unfoldable pub use_model : String → String → Service W MediaError Target
  use_model model_id capability = do
    m ← found (← call from_port (d.find_model model_id)) model_not_found
    require (has_capability m capability) capability_not_supported
    p ← found (← call from_port (d.find_provider m.provider_id)) provider_not_found
    h ← try (d.get_health p.id)
    require (not_unhealthy h) provider_unhealthy
    decrypted m p (d.decrypt p.encrypted_key)

  -- The next model is tried after any failure; `rest` tries it.
  abbrev pub decrypted_or :
      MediaModel
      → MediaProvider
      → Service W MediaError Target
      → Result String String
      → Service W MediaError Target
  decrypted_or m p rest (ok key) = give (with_key m p key)
  decrypted_or m p rest (err e) = rest

  abbrev pub try_provider :
      MediaModel
      → Service W MediaError Target
      → Result String (Option MediaProvider)
      → Service W MediaError Target
  try_provider m rest (ok (some p)) =
      if p.enabled
      then (do
        h ← try (d.get_health p.id)
        if known_healthy h then decrypted_or m p rest (d.decrypt p.encrypted_key) else rest)
      else rest
  try_provider m rest _ = rest

  unfoldable pub first_usable : List MediaModel → Service W MediaError Target
  first_usable [] = raise no_healthy_provider
  first_usable (m ∷ models) =
      let rest = first_usable models in
      if m.enabled
      then (do p ← try (d.find_provider m.provider_id); try_provider m rest p)
      else rest

  abbrev pub auto_select : List MediaModel → Service W MediaError Target
  auto_select [] = raise model_not_found
  auto_select (m ∷ models) = first_usable (m ∷ models)

  unfoldable pub find_model_with_capability : String → String → Service W MediaError Target
  find_model_with_capability model_id capability =
      if model_id == "" || model_id == "auto"
      then (do models ← call from_port (d.find_by_capability capability); auto_select models)
      else use_model model_id capability
