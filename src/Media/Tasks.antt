-- ===== src/Media/Tasks.antt =====
-- internal/domain/media/domain.go: tasks, as the users see them.
use uniedit_server.Common.{
  ℕ, ℕ_Eq, ℤ, pos, lt_ℤ, le_ℤ, String, String_Eq, not, ◌==◌, ◌&&◌, if◌then◌else◌, Option, none,
  some, List, map, Result, ok, err, Service, give, raise, require, call, found, ◌>>=◌, ◌>>◌,
}
use uniedit_server.Media.Model.{
  MediaTask, MediaTaskStatus, pending, running, completed, failed, cancelled, VideoState,
  video_pending, video_processing, video_completed, video_failed, GeneratedVideo,
  MediaVideoGenerationInput, MediaVideoGenerationOutput, MediaTaskOutput, MediaError, invalid_input,
  from_json, from_port, task_not_found, task_not_owned, task_already_completed,
  task_already_cancelled,
}
use uniedit_server.Media.Ports.{Ports, Json}

abbrev pub task_status_to_video_state : MediaTaskStatus → VideoState
task_status_to_video_state running = video_processing
task_status_to_video_state completed = video_completed
task_status_to_video_state failed = video_failed
task_status_to_video_state cancelled = video_failed
task_status_to_video_state _ = video_pending

abbrev pub new_task : ℕ → ℕ → ℕ → String → MediaTask
new_task new_id now user_id input = record {
  id = new_id;
  owner_id = user_id;
  task_type = "video_generation";
  status = pending;
  progress = pos 0;
  input = some input;
  output = none;
  error = "";
  created_at = now;
  updated_at = now;
}

abbrev pub started : MediaTask → MediaVideoGenerationOutput
started t = record {
  task_id = t.id;
  status = video_pending;
  progress = pos 0;
  video = none;
  error = "";
  created_at = t.created_at;
}

abbrev pub task_to_output : MediaTask → MediaTaskOutput
task_to_output t = record {
  id = t.id;
  owner_id = t.owner_id;
  task_type = t.task_type;
  status = t.status;
  progress = t.progress;
  error = t.error;
  created_at = t.created_at;
  updated_at = t.updated_at;
}

abbrev pub parsed : Json → String → Option GeneratedVideo
parsed j text =
    if text == "" then none else elim (j.unmarshal_video text) [ ok v ↦ some v | err m ↦ none ]

-- The video of a completed task whose output can be read.
abbrev pub video_of : Json → MediaTaskStatus → Option String → Option GeneratedVideo
video_of j completed (some text) = parsed j text
video_of j _ _ = none

abbrev pub status_of : Json → MediaTask → MediaVideoGenerationOutput
status_of j t = record {
  task_id = t.id;
  status = task_status_to_video_state t.status;
  progress = t.progress;
  video = video_of j t.status t.output;
  error = t.error;
  created_at = t.created_at;
}

abbrev pub clamp_limit : ℤ → ℤ
clamp_limit n = if le_ℤ n (pos 0) then pos 20 else if lt_ℤ (pos 100) n then pos 100 else n

module _ {W : Type 0} (d : Ports W) where
  abbrev pub check_cancellable : MediaTaskStatus → Service W MediaError (Unit {0})
  check_cancellable completed = raise task_already_completed
  check_cancellable cancelled = raise task_already_cancelled
  check_cancellable failed = raise task_already_completed
  check_cancellable _ = give tt

  abbrev pub marshalled : Result String String → Service W MediaError String
  marshalled (ok text) = give text
  marshalled (err m) = raise (from_json m)

  unfoldable pub generate_video :
      Json → ℕ → ℕ → ℕ → MediaVideoGenerationInput → Service W MediaError MediaVideoGenerationOutput
  generate_video j new_id now user_id input = do
    require (not (input.prompt == "" && input.input_image == "" && input.input_video == ""))
        invalid_input
    text ← marshalled (j.marshal_input input)
    call from_port (d.create_task (new_task new_id now user_id text))
    give (started (new_task new_id now user_id text))

  -- The task of its owner.
  unfoldable pub own_task : ℕ → ℕ → Service W MediaError MediaTask
  own_task user_id id = do
    t ← found (← call from_port (d.find_task id)) task_not_found
    require (t.owner_id == user_id) task_not_owned
    give t

  unfoldable pub get_video_status : Json → ℕ → ℕ → Service W MediaError MediaVideoGenerationOutput
  get_video_status j user_id id = do t ← own_task user_id id; give (status_of j t)

  unfoldable pub get_task : ℕ → ℕ → Service W MediaError MediaTaskOutput
  get_task user_id id = do t ← own_task user_id id; give (task_to_output t)

  unfoldable pub list_tasks : ℕ → ℤ → ℤ → Service W MediaError (List MediaTaskOutput)
  list_tasks user_id limit offset = do
    tasks ← call from_port (d.find_by_owner user_id (clamp_limit limit) offset)
    give (map task_to_output tasks)

  unfoldable pub cancel_task : ℕ → ℕ → Service W MediaError (Unit {0})
  cancel_task user_id id = do
    t ← own_task user_id id
    check_cancellable t.status
    call from_port (d.update_status id cancelled t.progress "" "cancelled by user")
