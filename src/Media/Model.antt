-- ===== src/Media/Model.antt =====
-- internal/model/media.go and internal/port/inbound/media.go: providers, models, tasks and requests.
use Prim.Native.String.{◌++◌}
use uniedit_server.Common.{ℕ, ℤ, String, String_Eq, Bool, any, ◌==◌, Option, List}

pub record MediaProvider : Type 0 where
  pub id : ℕ
  pub name : String
  pub provider_type : String
  pub base_url : String
  pub encrypted_key : String
  pub enabled : Bool
  pub created_at : ℕ
  pub updated_at : ℕ

pub record MediaModel : Type 0 where
  pub id : String
  pub provider_id : ℕ
  pub name : String
  pub capabilities : List String
  pub enabled : Bool
  pub created_at : ℕ
  pub updated_at : ℕ

unfoldable pub has_capability : MediaModel → String → Bool
has_capability m cap = any (λ c. c == cap) m.capabilities

pub data MediaTaskStatus : Type 0 where
  pending running completed failed cancelled : MediaTaskStatus
  other_status : String → MediaTaskStatus

pub record MediaTask : Type 0 where
  pub id : ℕ
  pub owner_id : ℕ
  pub task_type : String
  pub status : MediaTaskStatus
  pub progress : ℤ
  pub input : Option String
  pub output : Option String
  pub error : String
  pub created_at : ℕ
  pub updated_at : ℕ

pub data VideoState : Type 0 where
  video_pending video_processing video_completed video_failed : VideoState
  other_state : String → VideoState

pub record GeneratedVideo : Type 0 where
  pub url : String
  pub duration : ℤ
  pub width : ℤ
  pub height : ℤ
  pub fps : ℤ
  pub file_size : ℤ
  pub format : String

-- As far as the domain reads it.
pub record VideoStatus : Type 0 where
  pub status : VideoState
  pub progress : ℤ
  pub video : Option GeneratedVideo
  pub error : String

pub record MediaVideoGenerationInput : Type 0 where
  pub prompt : String
  pub input_image : String
  pub input_video : String
  pub duration : ℤ
  pub aspect_ratio : String
  pub resolution : String
  pub fps : ℤ
  pub model : String

pub record MediaVideoGenerationOutput : Type 0 where
  pub task_id : ℕ
  pub status : VideoState
  pub progress : ℤ
  pub video : Option GeneratedVideo
  pub error : String
  pub created_at : ℕ

pub record MediaTaskOutput : Type 0 where
  pub id : ℕ
  pub owner_id : ℕ
  pub task_type : String
  pub status : MediaTaskStatus
  pub progress : ℤ
  pub error : String
  pub created_at : ℕ
  pub updated_at : ℕ

pub data MediaError : Type 0 where
  provider_not_found model_not_found task_not_found task_not_owned : MediaError
  provider_unhealthy no_healthy_provider capability_not_supported invalid_input : MediaError
  task_already_completed task_already_cancelled missing_input : MediaError
  no_adapter_found decrypt_failed from_port from_json : String → MediaError
  generation_failed context_done : String → MediaError

-- `err.Error()` of an error that `findModelWithCapability` returns; those of the other methods are not asked.
abbrev pub error_text : MediaError → String
error_text provider_not_found = "media provider not found"
error_text model_not_found = "media model not found"
error_text provider_unhealthy = "provider is unhealthy"
error_text no_healthy_provider = "no healthy provider available"
error_text capability_not_supported = "model does not support this capability"
error_text (decrypt_failed m) = "decrypt api key: " ++ m
error_text (from_port m) = m
error_text _ = ""
