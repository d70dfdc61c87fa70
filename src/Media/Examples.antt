-- ===== src/Media/Examples.antt =====
-- A video task over a database in memory: the world is the status in the row of the task and the intervals
-- that are left until the deadline of the context, of which three count.
use uniedit_server.Common.{
  String_Eq, zero, suc, ◌≡◌, refl, subst, All, ◌⊎◌, pos, true, String, none, some, List, [], ◌∷◌,
  Result, ok, err, arith, false, ℕ, ◌-◌, Option, if◌then◌else◌, min, suc, ◌==◌, fails_with, ap,
  by_if, sym, eq_iff,
}
use uniedit_server.Media.Model.{
  MediaProvider, MediaModel, has_capability, MediaTask, MediaTaskStatus, running, cancelled,
  video_processing, context_done,
}
use uniedit_server.Media.Ports.{Ports, Json}
use uniedit_server.Media.Selection.{with_key, find_model_with_capability, use_model, first_usable}
use uniedit_server.Media.Video.{
  execute_video_task, run_input, generate_with, wait_for, update_progress, fail_task,
}
use uniedit_server.Media.Choice.{Fixed, Found, Named, Usable, find_model_with_capability_lem}
use uniedit_server.Media.Row.{TaskRow}
use uniedit_server.Media.Endings.{Deadline, Ended, execute_video_task_ends, Deadline}

abbrev vendor : MediaProvider
vendor = record {
  id = 3;
  name = "vendor";
  provider_type = "generic";
  base_url = "";
  encrypted_key = "encrypted";
  enabled = true;
  created_at = 0;
  updated_at = 0;
}

abbrev video_model : MediaModel
video_model = record {
  id = "video";
  provider_id = 3;
  name = "video";
  capabilities = "video" ∷ [];
  enabled = true;
  created_at = 0;
  updated_at = 0;
}

-- It is not enabled.
abbrev dormant : MediaModel
dormant = record video_model { id = "old"; enabled = false }

abbrev with_capability : String → List MediaModel
with_capability c = if c == "video" then dormant ∷ video_model ∷ [] else []

abbrev a_task : MediaTask
a_task = record {
  id = 1;
  owner_id = 2;
  task_type = "video_generation";
  status = cancelled;
  progress = pos 0;
  input = some "{}";
  output = none;
  error = "";
  created_at = 0;
  updated_at = 0;
}

abbrev pub World : Type 0
World = MediaTaskStatus × ℕ

abbrev done_at : ℕ → Option String
done_at zero = some "deadline exceeded"
done_at (suc n) = none

abbrev memory : Ports World
memory = record {
  ctx_done = λ w. done_at w.1;
  sleep = λ w. (w.0, min w.1 3 - 1);
  find_provider = λ id w. (ok (some vendor), w);
  find_model = λ id w. (ok none, w);
  find_by_capability = λ c w. (ok (with_capability c), w);
  create_task = λ t w. (ok tt, w);
  find_task = λ id w. (ok (some a_task), w);
  find_by_owner = λ id limit offset w. (ok [], w);
  update_status = λ id s p o m w. elim w.1 [
    | zero ↦ (err "deadline exceeded", w)
    | suc n ↦ (ok tt, (s, suc n))
  ];
  get_health = λ id w. (ok true, w);
  get_for_provider = λ p w. (ok 1, w);
  generate_video = λ a i m p key w. (ok "job", w);
  get_video_status = λ a job p key w.
      (ok (record { status = video_processing; progress = pos 50; video = none; error = "" }), w);
  decrypt = λ key. ok "key";
}

-- The same, with a model.
abbrev stocked : Ports World
stocked = record memory { find_model = λ id w. (ok (some video_model), w) }

abbrev json : Json
json = record {
  marshal_input = λ i. ok "{}";
  unmarshal_input = λ text. ok (record {
    prompt = "a fox";
    input_image = "";
    input_video = "";
    duration = pos 5;
    aspect_ratio = "";
    resolution = "";
    fps = pos 24;
    model = "video";
  });
  marshal_video = λ v. "null";
  unmarshal_video = λ text. err "null";
}

abbrev AllHave : String → List MediaModel → Type 0
AllHave c models = All (λ m. has_capability m c ≡ true) models

all_capable : (c : String) → AllHave c (with_capability c)
unfolding has_capability
all_capable c =
    by_if (λ models. AllHave c models) (c == "video")
      (λ e.
        subst (λ x. AllHave x (dormant ∷ video_model ∷ [])) (sym ((eq_iff c "video").0 e))
          (refl, (refl, tt)))
      (λ e. tt)

-- What was listed.
abbrev models_of : Result String (List MediaModel) → List MediaModel
models_of (ok models) = models
models_of (err m) = []

memory_capable :
    (c : String) (models : List MediaModel) (w w' : World)
    → memory.find_by_capability c w ≡ (ok models, w')
    → AllHave c models
memory_capable c models w w' e = subst (AllHave c) (ap (λ p. models_of p.0) e) (all_capable c)

memory-Fixed : Fixed memory
memory-Fixed = record {
  providers = λ id. some vendor;
  health = λ id. true;
  provider_row = λ id o w w' e. ground (arith, e);
  health_row = λ id b w w' e. ground (arith, e);
  capable = memory_capable;
}

-- The first model with the capability is not enabled, and the second is taken.
find_model_with_capability_lem_example :
    Found memory memory-Fixed "video" (with_key video_model vendor "key")
    × (Named memory memory-Fixed "auto"
        ⊎ Usable memory memory-Fixed (with_key video_model vendor "key"))
unfolding find_model_with_capability first_usable has_capability
find_model_with_capability_lem_example =
    find_model_with_capability_lem memory memory-Fixed "auto" "video"
      (with_key video_model vendor "key") (running, 1) (running, 1) refl

stocked-TaskRow : TaskRow stocked 1 (λ w. w.0)
stocked-TaskRow = record {
  live_write = λ s p o m w e. ground (arith, e);
  ended_write = λ s p o m w x e. ground (arith, e);
  stays_ended = λ s p o m w x e. ground (arith, e);
  model_keeps = λ name w. refl;
  capability_keeps = λ name w. refl;
  provider_keeps = λ id w. refl;
  health_keeps = λ id w. refl;
  adapter_keeps = λ p w. refl;
  generate_keeps = λ a i t w. refl;
  poll_keeps = λ a task t w. refl;
  sleep_keeps = λ w. refl;
}

abbrev stocked-Deadline : Deadline stocked
stocked-Deadline = record {
  remaining = λ w. min w.1 3;
  limit = 3;
  within = λ w. omega arith;
  sleep_takes = λ n w h. omega arith;
  poll_takes = λ a task t w. omega arith;
  write_takes = λ id s p o m w. ground arith;
  ended = λ w h. ("deadline exceeded", ground (arith, h));
}

execute_video_task_ends_example :
    Ended stocked json 1 stocked-TaskRow stocked-Deadline
      (execute_video_task stocked json 1 4 (cancelled, 3))
execute_video_task_ends_example =
    execute_video_task_ends stocked json 1 stocked-TaskRow stocked-Deadline 3 a_task (cancelled, 3)
      (cancelled, 3) (running, 3) refl refl refl (omega arith)

-- The row is running when the call has returned: the deadline has passed.
left_running :
    execute_video_task stocked json 1 4 (cancelled, 3)
    ≡ (fails_with (context_done "deadline exceeded"), (running, 0))
unfolding execute_video_task run_input generate_with wait_for update_progress fail_task
    find_model_with_capability use_model has_capability
left_running = refl
