-- ===== src/Task/Endings.antt =====
-- internal/infra/task/manager.go: the loop of `pollExternalTask` ends.
use uniedit_server.Common.{
  add64-suc, ◌≡◌, refl, ℕ, suc, ◌+◌, ◌≤◌, ◌<◌, ℤ, pos, ℤ_Eq, ◌==◌, lt_ℤ, two63, Bool, true, false,
  any, List, [], ◌∷◌, Option, some, String, ok, err, Result, Reply, returns, Service, try, give,
  arith, by_if, ◌>>=◌,
}
use uniedit_server.Task.Model.{Task, is_terminal, ManagerError}
use uniedit_server.Task.Ports.{Ports}
use uniedit_server.Task.Manager.{fail_task, written, completed_task, failed_task}
use uniedit_server.Task.Polling.{
  Polled, poll_error, status, Event, stop, timeout, tick, update_progress, updated_progress,
  finished, after_poll, poll,
}

abbrev pub is_stop : Event → Bool
is_stop stop = true
is_stop _ = false

abbrev pub is_tick : Event → ℕ
is_tick (tick p) = 1
is_tick _ = 0

abbrev pub ticks : List Event → ℕ
ticks [] = 0
ticks (e ∷ events) = is_tick e + ticks events

-- The goroutine has returned, with a task that is completed, failed or cancelled.
abbrev pub Ended : Reply ManagerError (Option Task) → Type 0
Ended r = (t : Task) × (r ≡ returns (some t)) × (is_terminal t ≡ true)

module _ {W : Type 0} (d : Ports W) where
  fail_Ended :
      (now : ℕ) (code message : String) (t : Task) (w : W)
      → Ended (finished d (fail_task d now code message t) w).0
  unfolding fail_task is_terminal
  fail_Ended now code message t w = (failed_task now code message t, refl, refl)

  abbrev Returns : Task → Reply ManagerError Task × W → Type 0
  Returns t r = (w : W) × (r ≡ (returns t, w))

  notified_Returns :
      (t : Task) (r : Result String (Unit {0})) (w : W)
      → Returns t (
          (elim r as (λ r. Service W ManagerError Task) [
            | err m ↦ give t
            | ok x ↦ (try (d.notify t) >>= λ notified. give t)
          ])
            w)
  notified_Returns t (ok x) w = (_, refl)
  notified_Returns t (err m) w = (_, refl)

  written-Returns : (t : Task) (w : W) → Returns t (written d t w)
  unfolding written
  written-Returns t w = notified_Returns t (d.update t w).0 (d.update t w).1

  update_progress-Returns :
      (now : ℕ) (progress : ℤ) (t : Task) (w : W)
      → (t' : Task) × Returns t' (update_progress d now progress t w)
  unfolding update_progress
  update_progress-Returns now progress t w =
      by_if (λ (s : Service W ManagerError Task). (t' : Task) × Returns t' (s w))
        (progress == t.progress) (λ e. (t, (_, refl)))
        (λ e. (updated_progress now progress t, (_, refl)))

  after_poll-Ended :
      (now : ℕ) (p : Polled) (t : Task) (rest : Task → Service W ManagerError (Option Task)) (w : W)
      → ((t' : Task) (w' : W) → Ended (rest t' w').0)
      → Ended (after_poll d now p t rest w).0
  unfolding is_terminal
  after_poll-Ended now (poll_error m) t rest w h = h t w
  after_poll-Ended now (status progress true output) t rest w h =
      let (t', (w', e)) = update_progress-Returns now progress t w in
      let done = record (completed_task now t') { output = output } in
      let (w'', f) = written-Returns done w' in (done, rw (e, f) refl, refl)
  after_poll-Ended now (status progress false output) t rest w h =
      let (t', (w', e)) = update_progress-Returns now progress t w in rw e (h t' w')

  poll-Ended :
      (now k j : ℕ) (events : List Event) (t : Task) (w : W)
      → suc k < two63
      → j ≤ k
      → k < j + ticks events
      → any is_stop events ≡ false
      → Ended (poll d now (pos k) (pos j) events t w).0
  unfolding poll
  poll-Ended now k j [] t w b l m n = absurd (omega arith)
  poll-Ended now k j (stop ∷ events) t w b l m n = absurd (ground arith)
  poll-Ended now k j (timeout ∷ events) t w b l m n =
      fail_Ended now "timeout" "task polling timed out" t w
  poll-Ended now k j (tick p ∷ events) t w b l m n = rw (add64-suc j (omega arith)) (
      by_if (λ (s : Service W ManagerError (Option Task)). Ended (s w).0)
        (lt_ℤ (pos k) (pos (suc j)))
        (λ e. fail_Ended now "max_attempts" "exceeded maximum poll attempts" t w)
        (λ e.
          after_poll-Ended now p t _ w
            (λ t' w'. poll-Ended now k (suc j) events t' w' b (ground arith) (omega arith) n)))

  -- However each poll answers, and whatever the database does, the goroutine that polls an external task
  -- has returned once it has got more ticks than the maximum of attempts, which is below 2^63 - 1, and was
  -- not told to stop: its task is then completed, failed or cancelled.
  pub poll_ends :
      (now k : ℕ) (events : List Event) (t : Task) (w : W)
      → suc k < two63
      → k < ticks events
      → any is_stop events ≡ false
      → (t' : Task) × ((poll d now (pos k) (pos 0) events t w).0 ≡ returns (some t'))
        × (is_terminal t' ≡ true)
  poll_ends now k events t w b m n = poll-Ended now k 0 events t w b (omega arith) (omega arith) n
