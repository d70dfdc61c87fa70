-- ===== src/Collaboration/Views.antt =====
-- internal/domain/collaboration/config.go, the inputs and outputs of
-- internal/port/inbound/collaboration.go, and the helpers of internal/domain/collaboration/domain.go. A
-- time is in seconds, and a duration too.
use Prim.Native.String.{len, ◌++◌ as text_append}
use text.Mathlib.Text.{get?}
use uniedit_server.Common.{
  ℕ, ℤ, pos, ◌+◌, ltb, le_ℤ, lt_ℤ, ◌==◌, String_Eq, if◌then◌else◌, String, Option, none, some, List,
  Bool, Result, ok, err, give, raise, deref,
}
use uniedit_server.Collaboration.Model.{
  TeamRole, TeamVisibility, Team, TeamInvitation, InvitationStatus, UserInfo, CollaborationError,
}
use uniedit_server.Collaboration.Ports.{Collaborates}

pub record Config : Type 0 where
  pub default_member_limit : ℤ
  pub invitation_expiry : ℤ
  pub invitation_token_length : ℤ
  pub base_url : String

abbrev pub week : ℤ
week = pos 604800

abbrev pub default_config : Config
default_config = record {
  default_member_limit = pos 5;
  invitation_expiry = week;
  invitation_token_length = pos 32;
  base_url = "";
}

abbrev positive_or : ℤ → ℤ → ℤ
positive_or d z = if le_ℤ z (pos 0) then d else z

unfoldable pub validate : Config → Config
validate c = record c {
  default_member_limit = positive_or (pos 5) c.default_member_limit;
  invitation_expiry = positive_or week c.invitation_expiry;
  invitation_token_length = positive_or (pos 32) c.invitation_token_length;
}

-- The configuration that `NewDomain` keeps.
unfoldable pub domain_config : Option Config → Config
domain_config none = validate default_config
domain_config (some c) = validate c

-- The functions of Go's libraries on texts: `strings.ToLower`, `strings.TrimSpace`, the replacement of
-- each longest run of characters outside `a-z0-9` by a hyphen, the removal of hyphens at both ends,
-- and `base64.URLEncoding.EncodeToString`.
pub record Texts : Type 0 where
  pub to_lower : String → String
  pub trim_space : String → String
  pub hyphenate : String → String
  pub trim_hyphens : String → String
  pub encode_to_string : List ℕ → String

pub record CreateTeamInput : Type 0 where
  pub name : String
  pub description : String
  pub visibility : TeamVisibility

pub record UpdateTeamInput : Type 0 where
  pub name : Option String
  pub description : Option String
  pub visibility : Option TeamVisibility

pub record TeamOutput : Type 0 where
  pub id : ℕ
  pub owner_id : ℕ
  pub name : String
  pub slug : String
  pub description : String
  pub visibility : TeamVisibility
  pub member_count : ℤ
  pub member_limit : ℤ
  pub created_at : ℕ
  pub updated_at : ℕ
  pub my_role : Option TeamRole

pub record MemberOutput : Type 0 where
  pub user_id : ℕ
  pub email : String
  pub name : String
  pub role : TeamRole
  pub joined_at : ℕ

pub record InviteInput : Type 0 where
  pub email : String
  pub role : TeamRole

pub record InvitationOutput : Type 0 where
  pub id : ℕ
  pub team_id : ℕ
  pub team_name : String
  pub inviter_id : ℕ
  pub inviter_name : String
  pub invitee_email : String
  pub role : TeamRole
  pub status : InvitationStatus
  pub expires_at : ℕ
  pub created_at : ℕ
  pub accepted_at : Option ℕ
  pub token : String
  pub accept_url : String

abbrev pub team_to_output : Team → ℤ → Option TeamRole → TeamOutput
team_to_output team member_count my_role = record {
  id = team.id;
  owner_id = team.owner_id;
  name = team.name;
  slug = team.slug;
  description = team.description;
  visibility = team.visibility;
  member_count = member_count;
  member_limit = team.member_limit;
  created_at = team.created_at;
  updated_at = team.updated_at;
  my_role = my_role;
}

abbrev team_name_of : Option Team → String
team_name_of none = ""
team_name_of (some t) = t.name

abbrev inviter_name_of : Option UserInfo → String
inviter_name_of none = ""
inviter_name_of (some u) = u.name

-- The link of an invitation, where there is a base.
abbrev accept_url_of : String → String → String
accept_url_of base token =
    if base == ""
    then ""
    else text_append base (text_append "/invitations/" (text_append token "/accept"))

abbrev pub invitation_to_output : Config → TeamInvitation → Bool → InvitationOutput
invitation_to_output cfg inv include_token = record {
  id = inv.id;
  team_id = inv.team_id;
  team_name = team_name_of inv.team;
  inviter_id = inv.inviter_id;
  inviter_name = inviter_name_of inv.inviter;
  invitee_email = inv.invitee_email;
  role = inv.role;
  status = inv.status;
  expires_at = inv.expires_at;
  created_at = inv.created_at;
  accepted_at = inv.accepted_at;
  token = if include_token then inv.token else "";
  accept_url = if include_token then accept_url_of cfg.base_url inv.token else "";
}

-- The bounds of `limit` in the three lists.
unfoldable pub clamp_limit : ℤ → ℤ
clamp_limit limit =
    let l = if le_ℤ limit (pos 0) then pos 20 else limit in if lt_ℤ (pos 100) l then pos 100 else l

-- A slice that is out of range panics.
module _ {W : Type 0} (x : Texts) where
  unfoldable pub generate_slug : String → Collaborates W String
  generate_slug name =
      let slug = x.trim_hyphens (x.hyphenate (x.to_lower name)) in
      if ltb 50 (len slug) then deref (get? slug 0 50) else give slug

  -- `random` is what `rand.Read` gives: the bytes, as many as `length` says, or an error.
  unfoldable pub generate_secure_token :
      Result CollaborationError (List ℕ) → ℕ → Collaborates W String
  generate_secure_token (err e) length = raise e
  generate_secure_token (ok bytes) length = deref (get? (x.encode_to_string bytes) 0 (length + 10))
