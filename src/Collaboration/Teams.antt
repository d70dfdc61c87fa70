-- ===== src/Collaboration/Teams.antt =====
-- internal/domain/collaboration/domain.go: the operations on teams. New ids and the time are
-- arguments.
use uniedit_server.Common.{
  ℕ, ℕ_Eq, ℤ, pos, not, Bool, true, false, ◌&&◌, String, Option, none, some, List, [], ◌∷◌, Result,
  ok, err, ◌>>=◌, ◌>>◌, give, raise, require, try, call,
}
use uniedit_server.Collaboration.Model.{
  TeamRole, owner, TeamVisibility, private, unset, active, Team, TeamMember, CollaborationError,
  team_not_found, slug_already_exists, member_not_found, only_owner_can_delete,
  insufficient_permission,
}
use uniedit_server.Collaboration.Roles.{role_has_permission, perm_update_team, perm_delete_team}
use uniedit_server.Collaboration.Ports.{Ports, Collaborates}
use uniedit_server.Collaboration.Views.{
  Config, Texts, CreateTeamInput, UpdateTeamInput, TeamOutput, team_to_output, clamp_limit,
  generate_slug,
}

-- An error of a port that is returned as it is.
abbrev pub same : CollaborationError → CollaborationError
same e = e

-- A user who is no member lacks the permission.
abbrev pub no_permission : CollaborationError → CollaborationError
no_permission member_not_found = insufficient_permission
no_permission e = e

abbrev pub is_team_not_found : CollaborationError → Bool
is_team_not_found team_not_found = true
is_team_not_found _ = false

abbrev pub is_member_not_found : CollaborationError → Bool
is_member_not_found member_not_found = true
is_member_not_found _ = false

-- `memberCount, _ :=`: the adapter counts 0 with an error.
abbrev pub count_or_zero : Result CollaborationError ℤ → ℤ
count_or_zero (ok n) = n
count_or_zero (err e) = pos 0

abbrev pub visibility_or_private : TeamVisibility → TeamVisibility
visibility_or_private unset = private
visibility_or_private v = v

abbrev pub is_private : TeamVisibility → Bool
is_private private = true
is_private _ = false

abbrev pub is_none : Option TeamRole → Bool
is_none none = true
is_none (some r) = false

abbrev pub or_else {ℓ} : {A : Type ℓ} → Option A → A → A
or_else none a = a
or_else (some b) a = b

abbrev pub new_team : Config → ℕ → ℕ → ℕ → String → CreateTeamInput → Team
new_team cfg new_id now owner_id slug input = record {
  id = new_id;
  owner_id = owner_id;
  name = input.name;
  slug = slug;
  description = input.description;
  visibility = visibility_or_private input.visibility;
  member_limit = cfg.default_member_limit;
  status = active;
  created_at = now;
  updated_at = now;
}

abbrev pub new_member : ℕ → ℕ → ℕ → TeamRole → TeamMember
new_member now team_id user_id role = record {
  team_id = team_id;
  user_id = user_id;
  role = role;
  joined_at = now;
  updated_at = now;
}

abbrev pub listed_role : Result CollaborationError TeamMember → Option TeamRole
listed_role (ok m) = some m.role
listed_role (err e) = none

module _ {W : Type 0} where
  -- No other team of the owner has the slug.
  abbrev pub slug_free : Result CollaborationError Team → Collaborates W (Unit {0})
  slug_free (ok team) = raise slug_already_exists
  slug_free (err e) = require (is_team_not_found e) e

  abbrev pub role_found : Result CollaborationError TeamMember → Collaborates W (Option TeamRole)
  role_found (ok m) = give (some m.role)
  role_found (err e) = require (is_member_not_found e) e >> give none

-- The fields that the input sets; `slug` is that of its name.
abbrev pub updated_team : ℕ → UpdateTeamInput → String → Team → Team
updated_team now input slug team = record team {
  name = or_else input.name team.name;
  slug = slug;
  description = or_else input.description team.description;
  visibility = or_else input.visibility team.visibility;
  updated_at = now;
}

module _ {W : Type 0} (d : Ports W) where
  -- The count of members for an output.
  unfoldable pub count_members : ℕ → Collaborates W ℤ
  count_members team_id = do n ← try (d.count team_id); give (count_or_zero n)

  unfoldable pub check_slug : ℕ → String → Collaborates W (Unit {0})
  check_slug owner_id slug = do
    existing ← try (d.find_by_owner_and_slug owner_id slug)
    slug_free existing

module _ {W : Type 0} (d : Ports W) (x : Texts) (cfg : Config) where
  -- What `CreateTeam` runs in a transaction.
  unfoldable pub store_team : ℕ → Team → Collaborates W (Unit {0})
  store_team now team = do
    call same (d.create_team team)
    call same (d.add_member (new_member now team.id team.owner_id owner))

  unfoldable pub create_team : ℕ → ℕ → ℕ → CreateTeamInput → Collaborates W TeamOutput
  create_team new_id now owner_id input = do
    slug ← generate_slug x input.name
    check_slug d owner_id slug
    let team = new_team cfg new_id now owner_id slug input
    d.run_in_transaction (store_team now team)
    give (team_to_output team (pos 1) (some owner))

  -- The role of the requester, if there is one.
  unfoldable pub role_of_requester : ℕ → Option ℕ → Collaborates W (Option TeamRole)
  role_of_requester team_id none = give none
  role_of_requester team_id (some u) = do member ← try (d.find_member team_id u); role_found member

  unfoldable pub get_team : ℕ → String → Option ℕ → Collaborates W TeamOutput
  get_team owner_id slug requester_id = do
    team ← call same (d.find_by_owner_and_slug owner_id slug)
    my_role ← role_of_requester team.id requester_id
    require (not (is_private team.visibility && is_none my_role)) team_not_found
    member_count ← count_members d team.id
    give (team_to_output team member_count my_role)

  -- The loop of `ListMyTeams`.
  unfoldable pub view_teams : ℕ → List Team → Collaborates W (List TeamOutput)
  view_teams user_id [] = give []
  view_teams user_id (team ∷ teams) = do
    member_count ← count_members d team.id
    member ← try (d.find_member team.id user_id)
    outputs ← view_teams user_id teams
    give (team_to_output team member_count (listed_role member) ∷ outputs)

  unfoldable pub list_my_teams : ℕ → ℤ → ℤ → Collaborates W (List TeamOutput)
  list_my_teams user_id limit offset = do
    teams ← call same (d.find_by_user user_id (clamp_limit limit) offset)
    view_teams user_id teams

  -- The slug of an updated name.
  unfoldable pub updated_slug : Option String → Team → Collaborates W String
  updated_slug none team = give team.slug
  updated_slug (some name) team = generate_slug x name

  unfoldable pub update_team : ℕ → ℕ → ℕ → UpdateTeamInput → Collaborates W TeamOutput
  update_team now team_id requester_id input = do
    member ← call no_permission (d.find_member team_id requester_id)
    require (role_has_permission member.role perm_update_team) insufficient_permission
    team ← call same (d.find_team team_id)
    slug ← updated_slug input.name team
    let new = updated_team now input slug team
    call same (d.update_team new)
    member_count ← count_members d new.id
    give (team_to_output new member_count (some member.role))

  -- What `DeleteTeam` runs in a transaction.
  unfoldable pub remove_team : ℕ → Collaborates W (Unit {0})
  remove_team team_id = do
    call same (d.cancel_pending_by_team team_id)
    call same (d.delete_team team_id)

  unfoldable pub delete_team : ℕ → ℕ → Collaborates W (Unit {0})
  delete_team team_id requester_id = do
    member ← call no_permission (d.find_member team_id requester_id)
    require (role_has_permission member.role perm_delete_team) only_owner_can_delete
    d.run_in_transaction (remove_team team_id)
