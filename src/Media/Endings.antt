-- ===== src/Media/Endings.antt =====
-- internal/domain/media/domain.go: every video task that is executed under a deadline ends.
use uniedit_server.Common.{
  zero, ◌≡◌, refl, sym, ◌∙◌, ◌⊎◌, inl, inr, ℕ, suc, ◌≤◌, ℤ, pos, lt_ℤ, String, Option, none, some,
  Result, ok, err, Reply, returns, fails_with, panics, Service, by_if, ◌>>=◌, arith, ap,
}
use uniedit_server.Media.Model.{
  MediaTask, MediaTaskStatus, running, completed, failed, VideoState, video_pending,
  video_processing, video_completed, video_failed, other_state, VideoStatus,
  MediaVideoGenerationInput, MediaError, error_text,
}
use uniedit_server.Media.Ports.{Ports, Json}
use uniedit_server.Media.Selection.{Target}
use uniedit_server.Media.Calm.{Calm, Calm-find}
use uniedit_server.Media.Row.{TaskRow, Safe-find}
use uniedit_server.Media.Video.{
  fail_task, set_running, update_progress, after_state, after_poll, selected, wait_for, submitted,
  with_adapter, generate_with, targeted, run_input, with_input, read_input, execute_video_task,
}

-- A context with a deadline, and the intervals of polling that are left until then: a sleep takes one at least,
-- nothing gives time back, and with no time left the context has ended.
pub record Deadline {W : Type 0} (d : Ports W) : Type 0 where
  pub remaining : W → ℕ
  pub limit : ℕ
  pub within : (w : W) → remaining w ≤ limit
  pub sleep_takes : (n : ℕ) (w : W) → remaining w ≤ suc n → remaining (d.sleep w) ≤ n
  pub poll_takes :
      (adapter : ℕ) (task : String) (t : Target) (w : W)
      → remaining (d.get_video_status adapter task t.provider t.api_key w).1 ≤ remaining w
  pub write_takes :
      (id : ℕ) (s : MediaTaskStatus) (progress : ℤ) (output message : String) (w : W)
      → remaining (d.update_status id s progress output message w).1 ≤ remaining w
  pub ended : (w : W) → remaining w ≤ 0 → (m : String) × (d.ctx_done w ≡ some m)

module _ {W : Type 0} (d : Ports W) (j : Json) (id : ℕ) {v : W → MediaTaskStatus}
    (k : TaskRow d id v) (c : Deadline d) where
  abbrev pub Executed : Type 0
  Executed = Reply MediaError (Option (Unit {0})) × W

  -- The row has the status, or it is still running and the context has ended.
  abbrev pub Settled : MediaTaskStatus → W → Type 0
  Settled s w = (v w ≡ s) ⊎ ((v w ≡ running) × ((m : String) × (d.ctx_done w ≡ some m)))

  -- It has returned, with no error or with one.
  abbrev pub Ended : Executed → Type 0
  Ended r =
      ((r.0 ≡ returns (some tt)) × Settled completed r.1)
      ⊎ ((e : MediaError) × (r.0 ≡ fails_with e) × Settled failed r.1)

  written :
      (s : MediaTaskStatus) (progress : ℤ) (output message : String) (w : W)
      → v w ≡ running
      → Settled s (d.update_status id s progress output message w).1
  written s progress output message w h = either (d.ctx_done w) refl
    where
      either :
          (o : Option String)
          → d.ctx_done w ≡ o
          → Settled s (d.update_status id s progress output message w).1
      either none e = inl (k.live_write s progress output message w e)
      either (some m) e = inr (
        k.ended_write s progress output message w m e ∙ h,
        (m, k.stays_ended s progress output message w m e),
      )

  still_running :
      (progress : ℤ) (w : W) → v w ≡ running → v (set_running d j id progress w).1 ≡ running
  still_running progress w h = elim (written running progress "" "" w h) [ inl e ↦ e | inr e ↦ e.0 ]

  fail_Ended :
      (message : String) (e : MediaError) (w : W)
      → v w ≡ running
      → Ended (fail_task d j id message e w)
  unfolding fail_task
  fail_Ended message e w h = inr (e, refl, written failed (pos 0) "" message w h)

  -- What is called later, with less time left.
  abbrev Later : W → Service W MediaError (Option (Unit {0})) → Type 0
  Later w rest = (w' : W) → v w' ≡ running → c.remaining w' ≤ c.remaining w → Ended (rest w')

  state_Ended :
      (x : VideoState) (s : VideoStatus) (rest : Service W MediaError (Option (Unit {0}))) (w : W)
      → v w ≡ running
      → Ended (rest w)
      → Ended (after_state d j id x s rest w)
  state_Ended video_completed s rest w h e = inl (refl, written completed (pos 100) _ "" w h)
  state_Ended video_failed s rest w h e = fail_Ended s.error _ w h
  state_Ended video_pending s rest w h e = e
  state_Ended video_processing s rest w h e = e
  state_Ended (other_state x) s rest w h e = e

  poll_Ended :
      (r : Result String VideoStatus) (rest : Service W MediaError (Option (Unit {0}))) (w : W)
      → v w ≡ running
      → Later w rest
      → Ended (after_poll d j id r rest w)
  unfolding update_progress
  poll_Ended (err m) rest w h l = fail_Ended m _ w h
  poll_Ended (ok s) rest w h l =
      by_if
        (λ (u : Service W MediaError (Unit {0})).
          Ended ((u >>= λ x. after_state d j id s.status s rest) w))
        (lt_ℤ (pos 0) s.progress)
        (λ e.
          state_Ended s.status s rest _ (still_running _ w h)
            (l _ (still_running _ w h) (c.write_takes id running _ "" "" w)))
        (λ e. state_Ended s.status s rest w h (l w h (omega arith)))

  select_Ended :
      (o : Option String) (rest : Service W MediaError (Option (Unit {0}))) (w : W)
      → v w ≡ running
      → Ended (rest w)
      → Ended (selected d j id o rest w)
  select_Ended none rest w h e = e
  select_Ended (some m) rest w h e = fail_Ended "context cancelled" _ w h

  wait_Ended :
      (adapter : ℕ) (provider_task : String) (t : Target) (n : ℕ) (w : W)
      → v w ≡ running
      → c.remaining w ≤ n
      → Ended (wait_for d j id adapter provider_task t (suc n) w)
  unfolding wait_for
  wait_Ended adapter provider_task t zero w h r =
      let (m, e) = c.ended w r in rw e (fail_Ended "context cancelled" _ w h)
  wait_Ended adapter provider_task t (suc n) w h r = select_Ended (d.ctx_done w) _ w h (
      poll_Ended _ _ _ (k.poll_keeps adapter provider_task t w ∙ h) (λ w' i l.
        wait_Ended adapter provider_task t n (d.sleep w') (k.sleep_keeps w' ∙ i)
          (c.sleep_takes n w' (omega (arith, c.poll_takes adapter provider_task t w)))))

  submitted-Ended :
      (adapter : ℕ) (t : Target) (n : ℕ) (r : Result String String) (w : W)
      → v w ≡ running
      → c.limit ≤ n
      → Ended (submitted d j id adapter t (suc n) r w)
  submitted-Ended adapter t n (err m) w h l = fail_Ended m _ w h
  submitted-Ended adapter t n (ok provider_task) w h l =
      wait_Ended adapter provider_task t n _ (still_running (pos 30) w h)
        (omega (arith, c.within (set_running d j id (pos 30) w).1))

  adapter_Ended :
      (input : MediaVideoGenerationInput) (t : Target) (n : ℕ) (r : Result String ℕ) (w : W)
      → v w ≡ running
      → c.limit ≤ n
      → Ended (with_adapter d j id input t (suc n) r w)
  adapter_Ended input t n (err m) w h l = fail_Ended m _ w h
  adapter_Ended input t n (ok adapter) w h l =
      submitted-Ended adapter t n _ _ (k.generate_keeps adapter input t w ∙ h) l

  targeted-Ended :
      (input : MediaVideoGenerationInput) (n : ℕ) (r : Reply MediaError Target × W)
      → v r.1 ≡ running
      → c.limit ≤ n
      → Calm r.0
      → Ended (targeted d j id input (suc n) r)
  unfolding generate_with
  targeted-Ended input n (returns t, w) h l a =
      adapter_Ended input t n _ _ (k.adapter_keeps t.provider _ ∙ still_running (pos 20) w h) l
  targeted-Ended input n (fails_with e, w) h l a = fail_Ended (error_text e) e w h
  targeted-Ended input n (panics, w) h l a = absurd a

  input_Ended :
      (n : ℕ) (r : Option (Result String MediaVideoGenerationInput)) (w : W)
      → v w ≡ running
      → c.limit ≤ n
      → Ended (with_input d j id (suc n) r w)
  unfolding run_input
  input_Ended n none w h l = fail_Ended "missing input" _ w h
  input_Ended n (some (err m)) w h l = fail_Ended "invalid input" _ w h
  input_Ended n (some (ok input)) w h l =
      targeted-Ended input n _ ((Safe-find d k input.model "video").safe w h).0 l
        (Calm-find d input.model "video" w)

  -- A task that is found, and whose first change of status is made and reported as done under a context that has
  -- not ended but has a deadline, ends, whatever its status was and whatever the providers answer: within
  -- one round of polling more than the intervals that the deadline allows, `ExecuteVideoTask` returns. With no
  -- error, the row of the task is then completed, and with one it is failed, unless the context has ended:
  -- then the row may still be running. This is where a write of the status takes effect under a context that
  -- has not ended and none under one that has, and where nothing else changes the row.
  pub execute_video_task_ends :
      (n : ℕ) (t : MediaTask) (w w1 w2 : W)
      → d.find_task id w ≡ (ok (some t), w1)
      → d.ctx_done w1 ≡ none
      → d.update_status id running (pos 10) "" "" w1 ≡ (ok tt, w2)
      → c.limit ≤ n
      → Ended (execute_video_task d j id (suc n) w)
  unfolding execute_video_task
  execute_video_task_ends n t w w1 w2 e g u l =
      rw (e, u)
        (input_Ended n (read_input d j id t.input) w2
          (sym (ap (λ r. v r.1) u) ∙ k.live_write running (pos 10) "" "" w1 g) l)
