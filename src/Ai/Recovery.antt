-- ===== src/Ai/Recovery.antt =====
-- internal/domain/ai/domain.go: the health of an account over the requests that it served.
use uniedit_server.Common.{
  ◌≡◌, refl, ◌∙◌, ap, ℕ, ℕ_Eq, suc, ◌+◌, ◌<◌, two63, leb, ℤ, pos, add64, add64-suc, not,
  if◌then◌else◌, Option, some, List, [], ◌∷◌, length, ok, Reply, returns, Service, give, ◌>>=◌,
  arith,
}
use uniedit_server.Ai.Ports.{
  AccountPorts, AiProviderAccount, AiHealthStatus, can_serve_requests, healthy, degraded, unhealthy,
}
use uniedit_server.Ai.Routing.{AiError}
use uniedit_server.Ai.Health.{
  Memory, is_account_healthy, entry, failed_once, mark_request_success, mark_request_failure,
  new_status,
}

-- The rows of the accounts: status and failures. The adapter's `IncrementUsage` also resets both.
pub record AccountTable {W F : Type 0} (a : AccountPorts W F)
    (v : W → ℕ → Option (AiHealthStatus × ℤ)) : Type 0 where
  pub find_row :
      (id : ℕ) (s : AiHealthStatus) (n : ℤ) (w : W)
      → v w id ≡ some (s, n)
      → (account : AiProviderAccount) × (a.find_account id w ≡ (ok (some account), w))
        × (account.health_status ≡ s)
        × (account.consecutive_failures ≡ n)
  pub health_row :
      (id : ℕ) (s : AiHealthStatus) (n : ℤ) (w : W)
      → v (a.update_health id s n w).1 id ≡ some (s, n)
  pub usage_row :
      (id : ℕ) (requests tokens : ℤ) (cost : F) (w : W)
      → v (a.increment_usage id requests tokens cost w).1 id ≡ some (healthy, pos 0)

-- How a request ended, with the tokens and the cost of one that succeeded.
pub data Mark (F : Type 0) : Type 0 where
  success : ℤ → F → Mark F
  failure : Mark F

-- The failures since the last success, after those before.
abbrev pub failures : {F : Type 0} → ℕ → List (Mark F) → ℕ
failures n [] = n
failures n (success tokens cost ∷ marks) = failures 0 marks
failures n (failure ∷ marks) = failures (suc n) marks

-- The health after as many failures in a row.
abbrev pub health_after : ℕ → AiHealthStatus
health_after n = if leb 5 n then unhealthy else if leb 2 n then degraded else healthy

can_serve : (n : ℕ) → can_serve_requests (health_after n) ≡ not (leb 5 n)
unfolding can_serve_requests
can_serve n = ground arith

new_status-health_after : (n : ℕ) → new_status (pos (suc n)) (health_after n) ≡ health_after (suc n)
new_status-health_after n = ground arith

module _ {W F : Type 0} (a : AccountPorts W F) (id : ℕ) where
  unfoldable pub mark : Mark F → Memory → Service W AiError Memory
  mark (success tokens cost) m = mark_request_success (some a) (some id) tokens cost m
  mark failure m = mark_request_failure (some a) (some id) m

  unfoldable pub run : List (Mark F) → Memory → Service W AiError Memory
  run [] m = give m
  run (x ∷ marks) m = mark x m >>= λ m'. run marks m'

module _ {W F : Type 0} (a : AccountPorts W F) {v : W → ℕ → Option (AiHealthStatus × ℤ)}
    (k : AccountTable a v) (id : ℕ) where
  -- The row and the memory of the domain after as many failures in a row.
  abbrev pub Kept : Memory → W → ℕ → Type 0
  Kept m w n =
      (v w id ≡ some (health_after n, pos n)) × (entry id m.account_health ≡ some (health_after n))

  -- What a run returns.
  abbrev pub Run : ℕ → Reply AiError Memory × W → Type 0
  Run n r = (m : Memory) × (w : W) × (r ≡ (returns m, w)) × Kept m w n

  latest : {A : Type 0} (x : A) (entries : List (ℕ × A)) → entry id ((id, x) ∷ entries) ≡ some x
  latest x entries = ground arith

  success_Run :
      (tokens : ℤ) (cost : F) (m : Memory) (w : W)
      → Run 0 (mark_request_success (some a) (some id) tokens cost m w)
  unfolding mark_request_success
  success_Run tokens cost m w =
      (_, _, refl, (k.usage_row id (pos 1) tokens cost w, latest healthy m.account_health))

  failed_once-Run :
      (n : ℕ) (account : AiProviderAccount) (m : Memory) (w : W)
      → suc n < two63
      → account.health_status ≡ health_after n
      → account.consecutive_failures ≡ pos n
      → Run (suc n) (failed_once a id account m w)
  failed_once-Run n account m w b h e =
      let f : add64 account.consecutive_failures (pos 1) ≡ pos (suc n) = rw e (add64-suc n b) in
      let s : new_status (add64 account.consecutive_failures (pos 1)) account.health_status
          ≡ health_after (suc n) =
        rw (f, h) (new_status-health_after n) in
      (_, _, refl, (k.health_row id _ _ w ∙ cc, latest _ m.account_health ∙ ap some s))

  failure_Run :
      (n : ℕ) (m : Memory) (w : W)
      → suc n < two63
      → v w id ≡ some (health_after n, pos n)
      → Run (suc n) (mark_request_failure (some a) (some id) m w)
  unfolding mark_request_failure
  failure_Run n m w b h =
      let (account, e, s, f) = k.find_row id (health_after n) (pos n) w h in
      rw e (failed_once-Run n account m w b s f)

  run-Run :
      (n : ℕ) (marks : List (Mark F)) (m : Memory) (w : W)
      → n + length marks < two63
      → Kept m w n
      → Run (failures n marks) (run a id marks m w)
  unfolding run mark
  run-Run n [] m w b h = (m, w, refl, h)
  run-Run n (success tokens cost ∷ marks) m w b h =
      let (m', w', e, h') = success_Run tokens cost m w in
      rw e (run-Run 0 marks m' w' (omega arith) h')
  run-Run n (failure ∷ marks) m w b h =
      let (m', w', e, h') = failure_Run n m w (omega arith) h.0 in
      rw e (run-Run (suc n) marks m' w' (omega arith) h')

  start_Run :
      (x : Mark F) (marks : List (Mark F)) (m : Memory) (w : W)
      → length (x ∷ marks) < two63
      → v w id ≡ some (healthy, pos 0)
      → Run (failures 0 (x ∷ marks)) (run a id (x ∷ marks) m w)
  unfolding run mark
  start_Run (success tokens cost) marks m w b h =
      let (m', w', e, h') = success_Run tokens cost m w in
      rw e (run-Run 0 marks m' w' (omega arith) h')
  start_Run failure marks m w b h =
      let (m', w', e, h') = failure_Run 0 m w (omega arith) h in
      rw e (run-Run 1 marks m' w' (omega arith) h')

  serving :
      (n : ℕ) (m : Memory)
      → entry id m.account_health ≡ some (health_after n)
      → is_account_healthy m id ≡ not (leb 5 n)
  unfolding is_account_healthy can_serve_requests
  serving n m h = rw (is_account_healthy, h) (can_serve n)

  -- Where the rows of the accounts keep what is written, and a success resets a row to healthy with no
  -- failures: what a healthy account without failures is after one or more requests, fewer than 2^63. With
  -- `n` failures since the last success, its row says `n`, and is healthy below 2 of them, degraded below 5
  -- and unhealthy from there on; `IsAccountHealthy` is then false exactly from 5 on.
  pub run-health_after :
      (x : Mark F) (marks : List (Mark F)) (m : Memory) (w : W)
      → length (x ∷ marks) < two63
      → v w id ≡ some (healthy, pos 0)
      → (m' : Memory) × (w' : W) × (run a id (x ∷ marks) m w ≡ (returns m', w'))
        × (v w' id ≡ some (health_after (failures 0 (x ∷ marks)), pos (failures 0 (x ∷ marks))))
        × (is_account_healthy m' id ≡ not (leb 5 (failures 0 (x ∷ marks))))
  run-health_after x marks m w b h =
      let (m', w', e, h') = start_Run x marks m w b h in
      (m', w', e, h'.0, serving (failures 0 (x ∷ marks)) m' h'.1)
