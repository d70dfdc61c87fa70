-- ===== src/Task/Model.antt =====
-- internal/infra/task/model.go: a task and its status. A payload is a text.
use uniedit_server.Common.{ℕ, ℤ, String, Bool, true, false, Option}

pub data Status : Type 0 where
  pending running completed failed cancelled : Status
  other : String → Status

pub record TaskError : Type 0 where
  pub code : String
  pub message : String

pub record Task : Type 0 where
  pub id : ℕ
  pub owner_id : ℕ
  pub task_type : String
  pub status : Status
  pub progress : ℤ
  pub input : String
  pub output : Option String
  pub error : Option TaskError
  pub external_task_id : String
  pub metadata : String
  pub created_at : ℕ
  pub updated_at : ℕ
  pub completed_at : Option ℕ

abbrev pub is_ended : Status → Bool
is_ended completed = true
is_ended failed = true
is_ended cancelled = true
is_ended _ = false

unfoldable pub is_terminal : Task → Bool
is_terminal t = is_ended t.status

abbrev pub is_running : Status → Bool
is_running running = true
is_running _ = false

pub record SubmitRequest : Type 0 where
  pub task_type : String
  pub payload : String
  pub metadata : String

pub data ManagerError : Type 0 where
  already_terminal : Status → ManagerError
  from_port : String → ManagerError
