-- ===== src/Task/Ports.antt =====
-- internal/infra/task/repository.go: what the manager asks of the world `W`. `notify` are the callbacks of
-- the subscribers.
use uniedit_server.Common.{ℕ, ℤ, List, Port}
use uniedit_server.Task.Model.{Task, Status}

pub record Ports (W : Type 0) : Type 0 where
  pub create : Task → Port W (Unit {0})
  pub get : ℕ → Port W Task
  pub update : Task → Port W (Unit {0})
  pub update_status : ℕ → Status → ℤ → Port W (Unit {0})
  pub list_pending_or_running : Port W (List Task)
  pub list_by_external_task_id : Port W (List Task)
  pub notify : Task → Port W (Unit {0})
