-- ===== src/Media/Video.antt =====
-- internal/domain/media/domain.go: `ExecuteVideoTask`. The loop of its polls is on fuel, the number of its rounds.
use uniedit_server.Common.{
  zero, ℕ, ℤ, pos, negsuc, suc, ◌/◌, lt_ℤ, add64, mul64, sub64, String, if◌then◌else◌, Option, none,
  some, Result, ok, err, Service, give, raise, try, call, found, ◌>>=◌, ◌>>◌, Reply, returns,
  fails_with, panics,
}
use uniedit_server.Media.Model.{
  running, completed, failed, VideoStatus, VideoState, video_completed, video_failed,
  MediaVideoGenerationInput, MediaError, task_not_found, missing_input, from_json, from_port,
  no_adapter_found, generation_failed, context_done, error_text,
}
use uniedit_server.Media.Ports.{Ports, Json}
use uniedit_server.Media.Selection.{Target, find_model_with_capability}

-- Go's division by 100.
abbrev pub hundredth : ℤ → ℤ
hundredth (pos n) = pos (n / 100)
hundredth (negsuc n) = sub64 (pos 0) (pos (suc n / 100))

abbrev pub mapped_progress : ℤ → ℤ
mapped_progress p = add64 (pos 30) (hundredth (mul64 p (pos 60)))

module _ {W : Type 0} (d : Ports W) (j : Json) (id : ℕ) where
  -- The error of the write is dropped.
  unfoldable pub fail_task : {A : Type 0} → String → MediaError → Service W MediaError A
  fail_task message e = do ignored ← try (d.update_status id failed (pos 0) "" message); raise e

  abbrev pub set_running : ℤ → Service W MediaError (Result String (Unit {0}))
  set_running progress = try (d.update_status id running progress "" "")

  unfoldable pub update_progress : ℤ → Service W MediaError (Unit {0})
  update_progress p =
      if lt_ℤ (pos 0) p then (do ignored ← set_running (mapped_progress p); give tt) else give tt

  -- How a poll that was answered ends the task; `rest` polls again.
  abbrev pub after_state :
      VideoState
      → VideoStatus
      → Service W MediaError (Option (Unit {0}))
      → Service W MediaError (Option (Unit {0}))
  after_state video_completed s rest = do
    ignored ← try (d.update_status id completed (pos 100) (j.marshal_video s.video) "")
    give (some tt)
  after_state video_failed s rest = fail_task s.error (generation_failed s.error)
  after_state _ s rest = rest

  abbrev pub after_poll :
      Result String VideoStatus
      → Service W MediaError (Option (Unit {0}))
      → Service W MediaError (Option (Unit {0}))
  after_poll (err m) rest = fail_task m (generation_failed m)
  after_poll (ok s) rest = do update_progress s.progress; after_state s.status s rest

  -- `select` at the top of a round.
  abbrev pub selected :
      Option String
      → Service W MediaError (Option (Unit {0}))
      → Service W MediaError (Option (Unit {0}))
  selected (some m) rest = fail_task "context cancelled" (context_done m)
  selected none rest = rest

  -- The loop: `none` where it needs one more round.
  unfoldable pub wait_for : ℕ → String → Target → ℕ → Service W MediaError (Option (Unit {0}))
  wait_for adapter provider_task t zero = give none
  wait_for adapter provider_task t (suc rounds) =
      let rest = wait_for adapter provider_task t rounds in
      λ w.
        selected (d.ctx_done w)
          (do
            r ← try (d.get_video_status adapter provider_task t.provider t.api_key)
            after_poll r (λ w'. rest (d.sleep w')))
          w

  abbrev pub submitted :
      ℕ → Target → ℕ → Result String String → Service W MediaError (Option (Unit {0}))
  submitted adapter t rounds (err m) = fail_task m (generation_failed m)
  submitted adapter t rounds (ok provider_task) = do
    ignored ← set_running (pos 30)
    wait_for adapter provider_task t rounds

  abbrev pub with_adapter :
      MediaVideoGenerationInput
      → Target
      → ℕ
      → Result String ℕ
      → Service W MediaError (Option (Unit {0}))
  with_adapter input t rounds (err m) = fail_task m (no_adapter_found m)
  with_adapter input t rounds (ok adapter) = do
    r ← try (d.generate_video adapter input t.model t.provider t.api_key)
    submitted adapter t rounds r

  unfoldable pub generate_with :
      MediaVideoGenerationInput → ℕ → Target → Service W MediaError (Option (Unit {0}))
  generate_with input rounds t = do
    ignored ← set_running (pos 20)
    adapter ← try (d.get_for_provider t.provider)
    with_adapter input t rounds adapter

  -- After the choice of a model, which may fail.
  abbrev pub targeted :
      MediaVideoGenerationInput
      → ℕ
      → Reply MediaError Target × W
      → Reply MediaError (Option (Unit {0})) × W
  targeted input rounds (returns t, w) = generate_with input rounds t w
  targeted input rounds (fails_with e, w) = fail_task (error_text e) e w
  targeted input rounds (panics, w) = (panics, w)

  unfoldable pub run_input :
      ℕ → MediaVideoGenerationInput → Service W MediaError (Option (Unit {0}))
  run_input rounds input w =
      targeted input rounds (find_model_with_capability d input.model "video" w)

  abbrev pub with_input :
      ℕ
      → Option (Result String MediaVideoGenerationInput)
      → Service W MediaError (Option (Unit {0}))
  with_input rounds none = fail_task "missing input" missing_input
  with_input rounds (some (err m)) = fail_task "invalid input" (from_json m)
  with_input rounds (some (ok input)) = run_input rounds input

  abbrev pub read_input : Option String → Option (Result String MediaVideoGenerationInput)
  read_input none = none
  read_input (some text) = some (j.unmarshal_input text)

  unfoldable pub execute_video_task : ℕ → Service W MediaError (Option (Unit {0}))
  execute_video_task rounds = do
    t ← found (← call from_port (d.find_task id)) task_not_found
    call from_port (d.update_status id running (pos 10) "" "")
    with_input rounds (read_input t.input)
