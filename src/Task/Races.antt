-- ===== src/Task/Races.antt =====
-- internal/infra/task/manager.go: `Cancel` beside a goroutine that executes the same task.
use uniedit_server.Common.{
  ◌≡◌, sym, ◌∙◌, ap, ℕ, ℤ, not, String, Option, some, ok, Result, returns, Service, Ensures,
  ensured, Ensures-bind, Ensures-call, Ensures-require, Ensures-try, Ensures-give,
}
use uniedit_server.Task.Model.{
  Task, Status, running, completed, cancelled, is_terminal, already_terminal, from_port,
  ManagerError,
}
use uniedit_server.Task.Ports.{Ports}
use uniedit_server.Task.Manager.{
  cancel, on_progress, complete_task, written, with_status, completed_task,
}

-- The statuses in the rows of the tasks: what a write that succeeds leaves, that a task is found under its
-- id, and that the callbacks of the subscribers change no row.
pub record TaskTable {W : Type 0} (d : Ports W) (v : W → ℕ → Option Status) : Type 0 where
  pub get_row : (id : ℕ) (t : Task) (w w' : W) → d.get id w ≡ (ok t, w') → t.id ≡ id
  pub update_row : (t : Task) (w w' : W) → d.update t w ≡ (ok tt, w') → v w' t.id ≡ some t.status
  pub status_row :
      (id : ℕ) (s : Status) (progress : ℤ) (w w' : W)
      → d.update_status id s progress w ≡ (ok tt, w')
      → v w' id ≡ some s
  pub notify_row : (t : Task) (id : ℕ) (w : W) → v (d.notify t w).1 id ≡ v w id

-- What a goroutine does next with its task: it reports progress, or completes the task.
pub data Move : Type 0 where
  reports : ℤ → Option String → Move
  completes : Move

-- The status that the move writes.
abbrev pub writes : Move → Status
writes (reports progress output) = running
writes completes = completed

module _ {W : Type 0} (d : Ports W) where
  abbrev pub move : ℕ → Task → Move → Service W ManagerError Task
  move now t (reports progress output) = on_progress d now progress output t
  move now t completes = complete_task d now t

  -- The answer of its write, in a world.
  abbrev pub write_of : ℕ → Task → Move → W → Result String (Unit {0})
  write_of now t (reports progress output) w = (d.update_status t.id t.status progress w).0
  write_of now t completes w = (d.update (completed_task now t) w).0

module _ {W : Type 0} (d : Ports W) {v : W → ℕ → Option Status} (k : TaskTable d v) where
  notified_row :
      (t : Task) (id : ℕ) (w w' : W) (r : Result String (Unit {0}))
      → d.notify t w ≡ (r, w')
      → v w' id ≡ v w id
  notified_row t id w w' r n = sym (ap (λ p. v p.1 id) n) ∙ k.notify_row t id w

  cancelled_row :
      (now id : ℕ) (t : Task) (w w1 w2 w3 : W) (r : Result String (Unit {0}))
      → d.get id w ≡ (ok t, w1)
      → d.update (with_status now cancelled t) w1 ≡ (ok tt, w2)
      → d.notify (with_status now cancelled t) w2 ≡ (r, w3)
      → v w3 id ≡ some cancelled
  cancelled_row now id t w w1 w2 w3 r g u n =
      notified_row _ id w2 w3 r n
      ∙ ap (v w2) (sym (k.get_row id t w w1 g))
      ∙ k.update_row (with_status now cancelled t) w1 w2 u

  move_row :
      (now : ℕ) (t : Task) (m : Move) (w : W)
      → t.status ≡ running
      → write_of d now t m w ≡ ok tt
      → v (move d now t m w).1 t.id ≡ some (writes m)
  unfolding on_progress complete_task written
  move_row now t (reports progress output) w r e =
      k.notify_row _ t.id _
      ∙ k.status_row t.id t.status progress w _
          (ap (λ a. (a, (d.update_status t.id t.status progress w).1)) e)
      ∙ ap some r
  move_row now t completes w r e = rw e (
      k.notify_row _ t.id _
      ∙ k.update_row (completed_task now t) w _
          (ap (λ a. (a, (d.update (completed_task now t) w).1)) e))

  cancel-Ensures :
      (now id : ℕ) (w : W) → Ensures (cancel d now id) w (λ x w'. v w' id ≡ some cancelled)
  unfolding cancel
  cancel-Ensures now id w = Ensures-bind _ _ w (
      Ensures-call from_port (d.get id) w (λ t w1 g. Ensures-bind _ _ w1 (
        Ensures-require (not (is_terminal t)) (already_terminal t.status) w1 (λ b.
          Ensures-bind _ _ w1 (
            Ensures-call from_port (d.update (with_status now cancelled t)) w1 (λ x w2 u.
              Ensures-bind _ _ w2 (
                Ensures-try (d.notify (with_status now cancelled t)) w2
                  (λ y w3 n. Ensures-give tt w3 (cancelled_row now id t w w1 w2 w3 y g u n)))))))))

  -- Where the rows keep the status that is written and the callbacks of the subscribers change none: when
  -- `Cancel` has returned with no error, the status in the row of the task is cancelled. If then a goroutine
  -- that holds the task as running reports progress, or completes it, and the write that it makes for this
  -- succeeds, the status in the row is running, or completed.
  pub cancel_undone :
      (now now' : ℕ) (t : Task) (m : Move) (w w1 : W)
      → t.status ≡ running
      → cancel d now t.id w ≡ (returns tt, w1)
      → write_of d now' t m w1 ≡ ok tt
      → (v w1 t.id ≡ some cancelled) × (v (move d now' t m w1).1 t.id ≡ some (writes m))
  cancel_undone now now' t m w w1 r c e =
      (ensured _ tt w w1 (cancel-Ensures now t.id w) c, move_row now' t m w1 r e)
