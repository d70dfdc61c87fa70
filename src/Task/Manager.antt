-- ===== src/Task/Manager.antt =====
-- internal/infra/task/manager.go: submission, cancellation and execution of tasks, and their recovery after a
-- restart. Ids and times are arguments, calls of the logger are left out, and what a method starts with
-- `go` is a value that it returns.
use uniedit_server.Common.{
  ℕ, ℤ, pos, String, String_Eq, not, ◌==◌, ◌&&◌, if◌then◌else◌, Option, none, some, List, [], ◌∷◌,
  Result, ok, err, Service, ◌>>=◌, ◌>>◌, give, require, try, call,
}
use uniedit_server.Task.Model.{
  Task, Status, pending, running, completed, failed, cancelled, is_terminal, is_running,
  SubmitRequest, ManagerError, already_terminal, from_port,
}
use uniedit_server.Task.Ports.{Ports}

abbrev pub new_task : ℕ → ℕ → ℕ → Status → String → SubmitRequest → Task
new_task new_id now owner_id status external req = record {
  id = new_id;
  owner_id = owner_id;
  task_type = req.task_type;
  status = status;
  progress = pos 0;
  input = req.payload;
  output = none;
  error = none;
  external_task_id = external;
  metadata = req.metadata;
  created_at = now;
  updated_at = now;
  completed_at = none;
}

abbrev pub with_status : ℕ → Status → Task → Task
with_status now s t = record t { status = s; updated_at = now }

abbrev pub failed_task : ℕ → String → String → Task → Task
failed_task now code message t = record t {
  status = failed;
  error = some (record { code = code; message = message });
  updated_at = now;
}

abbrev pub with_progress : ℕ → ℤ → Option String → Task → Task
with_progress now progress output t = record t {
  progress = progress;
  output = elim output [ none ↦ t.output | some o ↦ some o ];
  updated_at = now;
}

abbrev pub completed_task : ℕ → Task → Task
completed_task now t = record t {
  status = completed;
  progress = pos 100;
  completed_at = some now;
  updated_at = now;
}

-- What an executor does: the progress that it reports, and how it ends.
pub record Execution : Type 0 where
  pub reports : List (ℤ × Option String)
  pub ending : Result String (Unit {0})

module _ {W : Type 0} (d : Ports W) where
  unfoldable pub submit : ℕ → ℕ → ℕ → SubmitRequest → Service W ManagerError Task
  submit new_id now owner_id req = do
    call from_port (d.create (new_task new_id now owner_id pending "" req))
    give (new_task new_id now owner_id pending "" req)

  unfoldable pub submit_external : ℕ → ℕ → ℕ → String → SubmitRequest → Service W ManagerError Task
  submit_external new_id now owner_id external req = do
    call from_port (d.create (new_task new_id now owner_id running external req))
    give (new_task new_id now owner_id running external req)

  unfoldable pub cancel : ℕ → ℕ → Service W ManagerError (Unit {0})
  cancel now id = do
    t ← call from_port (d.get id)
    require (not (is_terminal t)) (already_terminal t.status)
    call from_port (d.update (with_status now cancelled t))
    ignored ← try (d.notify (with_status now cancelled t))
    give tt

  -- The task as the goroutine keeps it: an error of the write is only logged, and it notifies all the same.
  unfoldable pub fail_task : ℕ → String → String → Task → Service W ManagerError Task
  fail_task now code message t = do
    ignored ← try (d.update (failed_task now code message t))
    notified ← try (d.notify (failed_task now code message t))
    give (failed_task now code message t)

  -- The callback `onProgress`.
  unfoldable pub on_progress : ℕ → ℤ → Option String → Task → Service W ManagerError Task
  on_progress now progress output t = do
    ignored ← try (d.update_status t.id t.status progress)
    notified ← try (d.notify (with_progress now progress output t))
    give (with_progress now progress output t)

  unfoldable pub report_all : ℕ → List (ℤ × Option String) → Task → Service W ManagerError Task
  report_all now [] t = give t
  report_all now ((p, o) ∷ reports) t = do t' ← on_progress now p o t; report_all now reports t'

  -- A write that fails is logged, and then nobody is notified.
  unfoldable pub written : Task → Service W ManagerError Task
  written t = do
    r ← try (d.update t)
    elim r [ err m ↦ give t | ok x ↦ (do notified ← try (d.notify t); give t) ]

  unfoldable pub complete_task : ℕ → Task → Service W ManagerError Task
  complete_task now t = written (completed_task now t)

  abbrev pub ended : ℕ → Result String (Unit {0}) → Task → Service W ManagerError Task
  ended now (err message) t = fail_task now "execution_failed" message t
  ended now (ok x) t = complete_task now t

  -- The executor and what follows it.
  unfoldable pub run_executor : ℕ → Execution → Task → Service W ManagerError Task
  run_executor now e t = do t' ← report_all now e.reports t; ended now e.ending t'

  -- From a slot of the semaphore on. The executor that is registered for the type, if any.
  unfoldable pub execute_task : ℕ → Option Execution → String → Task → Service W ManagerError Task
  execute_task now none message t = fail_task now "unknown_task_type" message t
  execute_task now (some e) message t = do
    r ← try (d.update (with_status now running t))
    elim r [
      | err m ↦ give (with_status now running t)
      | ok x ↦ (do
        notified ← try (d.notify (with_status now running t))
        run_executor now e (with_status now running t))
    ]

  -- The tasks that are queued again; one whose status could not be reset is skipped.
  unfoldable pub requeue : ℕ → List Task → Service W ManagerError (List Task)
  requeue now [] = give []
  requeue now (t ∷ tasks) =
      let rest = requeue now tasks in
      if not (t.external_task_id == "")
      then rest
      else if is_running t.status
      then (do
        r ← try (d.update (with_status now pending t))
        queued ← rest
        give (elim r [ err m ↦ queued | ok x ↦ with_status now pending t ∷ queued ]))
      else (do queued ← rest; give (t ∷ queued))

  unfoldable pub recover_pending_tasks : ℕ → Service W ManagerError (List Task)
  recover_pending_tasks now = do tasks ← call from_port d.list_pending_or_running; requeue now tasks

abbrev pub polled_again : List Task → List Task
polled_again [] = []
polled_again (t ∷ tasks) =
    let rest = polled_again tasks in
    if is_running t.status && not (t.external_task_id == "") then t ∷ rest else rest

module _ {W : Type 0} (d : Ports W) where
  unfoldable pub recover_external_tasks : Service W ManagerError (List Task)
  recover_external_tasks = do
    tasks ← call from_port d.list_by_external_task_id
    give (polled_again tasks)

  -- The tasks to execute and those to poll.
  unfoldable pub start : ℕ → Service W ManagerError (List Task × List Task)
  start now = do
    queued ← recover_pending_tasks d now
    external ← recover_external_tasks
    give (queued, external)
