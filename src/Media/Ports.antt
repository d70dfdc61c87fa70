-- ===== src/Media/Ports.antt =====
-- internal/port/outbound/media.go: what the domain asks of the world `W`, which the context of the call and the
-- clock are part of: a port that is called under an ended context may answer and write otherwise.
use uniedit_server.Common.{ℕ, ℤ, String, Bool, Option, List, Result, Port}
use uniedit_server.Media.Model.{
  MediaProvider, MediaModel, MediaTask, MediaTaskStatus, MediaVideoGenerationInput, VideoStatus,
  GeneratedVideo,
}

pub record Ports (W : Type 0) : Type 0 where
  -- `ctx.Err()`, where `ctx.Done()` is closed.
  pub ctx_done : W → Option String
  -- `time.Sleep` for `VideoPollInterval`.
  pub sleep : W → W
  pub find_provider : ℕ → Port W (Option MediaProvider)
  pub find_model : String → Port W (Option MediaModel)
  pub find_by_capability : String → Port W (List MediaModel)
  pub create_task : MediaTask → Port W (Unit {0})
  pub find_task : ℕ → Port W (Option MediaTask)
  pub find_by_owner : ℕ → ℤ → ℤ → Port W (List MediaTask)
  -- The status, the progress, the output and the error.
  pub update_status : ℕ → MediaTaskStatus → ℤ → String → String → Port W (Unit {0})
  pub get_health : ℕ → Port W Bool
  -- The adapter for a provider, as a handle, and the id of the task that it starts for the request, which
  -- is made of the input and the id of the model.
  pub get_for_provider : MediaProvider → Port W ℕ
  pub generate_video :
      ℕ → MediaVideoGenerationInput → MediaModel → MediaProvider → String → Port W String
  pub get_video_status : ℕ → String → MediaProvider → String → Port W VideoStatus
  pub decrypt : String → Result String String

-- `encoding/json`, on inputs and on videos.
pub record Json : Type 0 where
  pub marshal_input : MediaVideoGenerationInput → Result String String
  pub unmarshal_input : String → Result String MediaVideoGenerationInput
  pub marshal_video : Option GeneratedVideo → String
  pub unmarshal_video : String → Result String GeneratedVideo
