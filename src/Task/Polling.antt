-- ===== src/Task/Polling.antt =====
-- internal/infra/task/manager.go: `pollExternalTask`. What the `select` of its loop receives is a list of events.
use uniedit_server.Common.{
  ℕ, ℤ, pos, lt_ℤ, add64, String, Bool, ℤ_Eq, ◌==◌, if◌then◌else◌, Option, none, some, List, [],
  ◌∷◌, Service, ◌>>=◌, give, try,
}
use uniedit_server.Task.Model.{Task, ManagerError}
use uniedit_server.Task.Ports.{Ports}
use uniedit_server.Task.Manager.{fail_task, written, completed_task}

-- The answer of `PollStatus`.
pub data Polled : Type 0 where
  poll_error : String → Polled
  status : ℤ → Bool → Option String → Polled

-- A tick of the ticker, with what the poll that it may start answers.
pub data Event : Type 0 where
  stop timeout : Event
  tick : Polled → Event

abbrev pub updated_progress : ℕ → ℤ → Task → Task
updated_progress now progress t = record t { progress = progress; updated_at = now }

module _ {W : Type 0} (d : Ports W) where
  unfoldable pub update_progress : ℕ → ℤ → Task → Service W ManagerError Task
  update_progress now progress t = if progress == t.progress then give t else (do
    ignored ← try (d.update_status t.id t.status progress)
    notified ← try (d.notify (updated_progress now progress t))
    give (updated_progress now progress t))

  -- The goroutine has returned with its task, or waits for one more event.
  abbrev pub finished : Service W ManagerError Task → Service W ManagerError (Option Task)
  finished m = m >>= λ t. give (some t)

  -- After a poll; `rest` is the next round of the loop.
  abbrev pub after_poll :
      ℕ
      → Polled
      → Task
      → (Task → Service W ManagerError (Option Task))
      → Service W ManagerError (Option Task)
  after_poll now (poll_error m) t rest = rest t
  after_poll now (status progress completed output) t rest = do
    t' ← update_progress now progress t
    if completed
        then finished (written d (record (completed_task now t') { output = output }))
        else rest t'

  -- The loop, with the attempts so far.
  unfoldable pub poll : ℕ → ℤ → ℤ → List Event → Task → Service W ManagerError (Option Task)
  poll now max attempts [] t = give none
  poll now max attempts (stop ∷ events) t = give (some t)
  poll now max attempts (timeout ∷ events) t =
      finished (fail_task d now "timeout" "task polling timed out" t)
  poll now max attempts (tick p ∷ events) t =
      let rest = poll now max (add64 attempts (pos 1)) events in
      if lt_ℤ max (add64 attempts (pos 1))
      then finished (fail_task d now "max_attempts" "exceeded maximum poll attempts" t)
      else after_poll now p t rest

  -- The poller that is registered for the type, if any.
  unfoldable pub poll_external_task :
      ℕ → Bool → ℤ → List Event → String → Task → Service W ManagerError (Option Task)
  poll_external_task now registered max events message t =
      if registered
      then poll now max (pos 0) events t
      else finished (fail_task d now "unknown_poller" message t)
