-- ===== src/Task/Examples.antt =====
-- The manager of tasks over a table in memory.
use uniedit_server.Common.{
  ◌≡◌, refl, ℕ, ℤ, pos, true, false, ◌==◌, ℕ_Eq, if◌then◌else◌, String, Option, none, some, [], ◌∷◌,
  Result, ok, err, returns, arith, sym, ◌∙◌, ap,
}
use uniedit_server.Task.Model.{Task, Status, running, cancelled, is_terminal}
use uniedit_server.Task.Ports.{Ports}
use uniedit_server.Task.Manager.{cancel}
use uniedit_server.Task.Polling.{tick, poll_error, status, poll}
use uniedit_server.Task.Endings.{poll_ends}
use uniedit_server.Task.Races.{TaskTable, reports, move, cancel_undone}

abbrev World : Type 0
World = ℕ → Option Task

-- A row under the id that it is looked up by.
abbrev matching : ℕ → Option Task → Result String Task
matching id none = err "not found"
matching id (some t) = ok (record t { id = id })

-- A missing row is an error.
abbrev status_answer : ℕ → Status → ℤ → World → Option Task → Result String (Unit {0}) × World
status_answer id s progress w none = (err "not found", w)
status_answer id s progress w (some t) =
    (ok tt, λ i. if i == id then some (record t { status = s; progress = progress }) else w i)

abbrev memory : Ports World
memory = record {
  create = λ t w. (ok tt, λ id. if id == t.id then some t else w id);
  get = λ id w. (matching id (w id), w);
  update = λ t w. (ok tt, λ id. if id == t.id then some t else w id);
  update_status = λ id s progress w. status_answer id s progress w (w id);
  list_pending_or_running = λ w. (ok [], w);
  list_by_external_task_id = λ w. (ok [], w);
  notify = λ t w. (ok tt, w);
}

abbrev a_task : Task
a_task = record {
  id = 1;
  owner_id = 2;
  task_type = "image";
  status = running;
  progress = pos 0;
  input = "";
  output = none;
  error = none;
  external_task_id = "";
  metadata = "";
  created_at = 0;
  updated_at = 0;
  completed_at = none;
}

abbrev one_task : World
one_task = λ id. if id == 1 then some a_task else none

poll_ends_example :
    (t' : Task) × ((poll memory 9
        (pos 1)
        (pos 0)
        (tick (poll_error "refused") ∷ tick (status (pos 40) false none) ∷ [])
        a_task
        one_task).0
      ≡ returns (some t'))
    × (is_terminal t' ≡ true)
poll_ends_example =
    poll_ends memory 9 1 (tick (poll_error "refused") ∷ tick (status (pos 40) false none) ∷ [])
      a_task one_task (omega arith) (omega arith) refl

abbrev id_of : Result String Task → ℕ
id_of (ok t) = t.id
id_of (err m) = 0

matched : (id : ℕ) (r : Option Task) (t : Task) → matching id r ≡ ok t → t.id ≡ id
matched id none t e = cc
matched id (some x) t e = sym (ap id_of e)

-- The status of each row; a missing row that is updated is inserted.
abbrev status_in : Option Task → Option Status
status_in none = none
status_in (some t) = some t.status

abbrev statuses : World → ℕ → Option Status
statuses w id = status_in (w id)

self : (t : Task) (w : World) → (if t.id == t.id then some t else w t.id) ≡ some t
self t w = ground arith

answered :
    (id : ℕ) (s : Status) (progress : ℤ) (w w' : World) (r : Option Task)
    → status_answer id s progress w r ≡ (ok tt, w')
    → statuses w' id ≡ some s
answered id s progress w w' none e = absurd (different (ap (λ p. p.0) e))
  where
    different : ◌≡◌ {A = Result String (Unit {0})} (err "not found") (ok tt) → ⊥
    different e = cc
answered id s progress w w' (some t) e = sym (ap (λ p. status_in (p.1 id)) e) ∙ ground arith

status_written :
    (id : ℕ) (s : Status) (progress : ℤ) (w w' : World)
    → memory.update_status id s progress w ≡ (ok tt, w')
    → statuses w' id ≡ some s
status_written id s progress w w' e = answered id s progress w w' (w id) e

memory_rows : TaskTable memory statuses
memory_rows = record {
  get_row = λ id t w w' e. matched id (w id) t (ap (λ p. p.0) e);
  update_row = λ t w w' e. ap status_in (sym (ap (λ p. p.1 t.id) e) ∙ self t w);
  status_row = status_written;
  notify_row = λ t id w. refl;
}

cancel_undone_example :
    (statuses (cancel memory 5 1 one_task).1 1 ≡ some cancelled)
    × (statuses (move memory 6 a_task (reports (pos 50) none) (cancel memory 5 1 one_task).1).1 1
        ≡ some running)
unfolding cancel is_terminal
cancel_undone_example =
    cancel_undone memory memory_rows 5 6 a_task (reports (pos 50) none) one_task _ refl refl refl
