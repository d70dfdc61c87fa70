-- ===== src/Git/Calls.antt =====
-- A history of calls on pull requests by whomever, each with its arguments.
use uniedit_server.Common.{ℕ, ℤ, List, [], ◌∷◌}
use uniedit_server.Git.Ports.{Ports}
use uniedit_server.Git.PullRequests.{
  GitCreatePrInput, GitUpdatePrInput, create_pr, update_pr, merge_pr,
}

pub data Call : Type 0 where
  call_create_pr : ℕ → ℕ → ℕ → GitCreatePrInput → Call
  call_update_pr : ℕ → ℕ → ℤ → ℕ → GitUpdatePrInput → Call
  call_merge_pr : ℕ → ℕ → ℤ → ℕ → Call

module _ {W : Type 0} (d : Ports W) where
  unfoldable pub step : Call → W → W
  step (call_create_pr i r u input) w = (create_pr d i r u input w).1
  step (call_update_pr now r n u input) w = (update_pr d now r n u input w).1
  step (call_merge_pr now r n u) w = (merge_pr d now r n u w).1

  unfoldable pub run : List Call → W → W
  run [] w = w
  run (c ∷ calls) w = run calls (step c w)
