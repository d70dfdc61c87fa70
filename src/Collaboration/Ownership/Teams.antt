-- ===== src/Collaboration/Ownership/Teams.antt =====
-- The operations on teams keep the one owner of a team.
use uniedit_server.Common.{
  ◌≢◌, ℕ, ℕ_Eq, String, String_Eq, Option, none, some, Result, ok, err, try, give, Safe, SafePort,
  Any, Safe-give, Safe-raise, Safe-require, Safe-call, Safe-try, Safe-bind, Safe-if, Safe-weaken,
  Safe-call_then, Safe-require_then, Safe-deref,
}
use uniedit_server.Collaboration.Model.{TeamRole_Eq, Team, CollaborationError}
use uniedit_server.Collaboration.Roles.{role_has_permission, perm_update_team, perm_delete_team}
use uniedit_server.Collaboration.Ports.{Ports, CollaborationPort}
use uniedit_server.Collaboration.Views.{
  Config, Texts, CreateTeamInput, UpdateTeamInput, generate_slug,
}
use uniedit_server.Collaboration.Table.{Rows, Table, Reads}
use uniedit_server.Collaboration.Ownership.{
  Owned, Reads-Safe, member-Safe, add_member-Safe, transaction-Safe,
}
use uniedit_server.Collaboration.Teams.{
  create_team, update_team, delete_team, store_team, remove_team, updated_slug, slug_free, new_team,
  count_members, count_or_zero, check_slug, is_team_not_found,
}

module _ {W : Type 0} {d : Ports W} {v : Rows W} (t : Table d v) (team user : ℕ) where
  reads : {A : Type 0} {p : CollaborationPort W A} → Reads v p → SafePort (Owned v team user) p Any
  reads r = Reads-Safe t team user r

  pub delete_team-Safe :
      (x : Texts) (cfg : Config) (i u : ℕ) → Safe (Owned v team user) (delete_team d x cfg i u) Any
  unfolding delete_team remove_team
  delete_team-Safe x cfg i u = Safe-call_then _ (member-Safe t team user i u) (λ m q.
      Safe-require_then (role_has_permission m.role perm_delete_team) _ (λ e.
        transaction-Safe t team user _ (
          Safe-call_then _ (reads (t.cancels_pending i))
            (λ a p. Safe-call _ _ (reads (t.deletes_team i))))))

  generate_slug-Safe : (x : Texts) (s : String) → Safe (Owned v team user) (generate_slug x s) Any
  unfolding generate_slug
  generate_slug-Safe x s = Safe-if _ (Safe-deref _) (Safe-give _ tt)

  slug_free-Safe : (r : Result CollaborationError Team) → Safe (Owned v team user) (slug_free r) Any
  slug_free-Safe (ok a) = Safe-raise _
  slug_free-Safe (err e) = Safe-weaken (Safe-require (is_team_not_found e) e)

  check_slug-Safe : (u : ℕ) (slug : String) → Safe (Owned v team user) (check_slug d u slug) Any
  unfolding check_slug
  check_slug-Safe u slug =
      Safe-bind (try (d.find_by_owner_and_slug u slug)) slug_free
        (Safe-try _ (reads (t.reads_slug u slug))) (λ r p. slug_free-Safe r)

  pub count_members-Safe : (i : ℕ) → Safe (Owned v team user) (count_members d i) Any
  unfolding count_members
  count_members-Safe i =
      Safe-bind (try (d.count i)) (λ n. give (count_or_zero n))
        (Safe-try _ (reads (t.reads_count i))) (λ n p. Safe-give _ tt)

  store_team-Safe :
      (x : Texts) (cfg : Config) (now : ℕ) (new : Team)
      → team ≢ new.id
      → Safe (Owned v team user) (store_team d x cfg now new) Any
  unfolding store_team
  store_team-Safe x cfg now new n =
      Safe-call_then _ (reads (t.writes_team new))
        (λ a p. Safe-call _ _ (add_member-Safe t team user _ (λ e. absurd (n e))))

  pub create_team-Safe :
      (x : Texts) (cfg : Config) (new_id now u : ℕ) (input : CreateTeamInput)
      → team ≢ new_id
      → Safe (Owned v team user) (create_team d x cfg new_id now u input) Any
  unfolding create_team
  create_team-Safe x cfg new_id now u input n =
      Safe-bind _ _ (generate_slug-Safe x input.name) (λ slug p.
        Safe-bind _ _ (check_slug-Safe u slug) (λ a f.
          Safe-bind _ _
            (transaction-Safe t team user _
              (store_team-Safe x cfg now (new_team cfg new_id now u slug input) n))
            (λ b g. Safe-give _ tt)))

  updated_slug-Safe :
      (x : Texts) (cfg : Config) (name : Option String) (old : Team)
      → Safe (Owned v team user) (updated_slug d x cfg name old) Any
  unfolding updated_slug
  updated_slug-Safe x cfg none old = Safe-give _ tt
  updated_slug-Safe x cfg (some name) old = generate_slug-Safe x name

  pub update_team-Safe :
      (x : Texts) (cfg : Config) (now i u : ℕ) (input : UpdateTeamInput)
      → Safe (Owned v team user) (update_team d x cfg now i u input) Any
  unfolding update_team
  update_team-Safe x cfg now i u input = Safe-call_then _ (member-Safe t team user i u) (λ m p.
      Safe-require_then (role_has_permission m.role perm_update_team) _ (λ e.
        Safe-call_then _ (reads (t.reads_team i)) (λ old f.
          Safe-bind _ _ (updated_slug-Safe x cfg input.name old) (λ slug g.
            Safe-call_then _ (reads (t.updates_team _))
              (λ a h. Safe-bind _ _ (count_members-Safe _) (λ n j. Safe-give _ tt))))))
