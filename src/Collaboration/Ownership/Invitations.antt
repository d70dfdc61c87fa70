-- ===== src/Collaboration/Ownership/Invitations.antt =====
-- The operations on invitations keep the one owner of a team, and invite nobody to be an owner.
use uniedit_server.Common.{
  ◌≢◌, ℕ, ℕ_Eq, ◌==◌, String, String_Eq, Option, none, some, List, Result, ok, err, try, give, Safe,
  SafePort, Any, Safe-give, Safe-raise, Safe-require, Safe-call, Safe-try, Safe-bind, Safe-if,
  Safe-imply, Safe-weaken, Safe-call_then, Safe-require_then, Safe-deref,
}
use uniedit_server.Collaboration.Model.{
  TeamRole, owner, TeamRole_Eq, Team, TeamMember, TeamInvitation, CollaborationError, is_pending,
  is_expired, expired, accepted, rejected, revoked, UserInfo,
}
use uniedit_server.Collaboration.Roles.{
  role_has_permission, perm_invite, role_can_assign, is_valid_invite_role,
}
use uniedit_server.Collaboration.Ports.{Ports, CollaborationPort}
use uniedit_server.Collaboration.Views.{Config, Texts, InviteInput, generate_secure_token}
use uniedit_server.Collaboration.Table.{Rows, Table, Reads}
use uniedit_server.Collaboration.Ownership.{
  Owned, valid_not_owner, Reads-Safe, member-Safe, token-Safe, add_member-Safe,
  create_invitation-Safe, transaction-Safe,
}
use uniedit_server.Collaboration.Teams.{new_member, is_member_not_found}
use uniedit_server.Collaboration.Invitations.{
  may_invite, check_limit, check_user, invite, send_invitation, check_invitee, check_expiry,
  join_team, accept_invitation, reject_invitation, revoke_invitation, not_member, none_pending,
  find_inviter, inviter_of, new_invitation, mark_expired,
}
use uniedit_server.Collaboration.Ownership.Teams.{count_members-Safe}

module _ {W : Type 0} {d : Ports W} {v : Rows W} (t : Table d v) (team user : ℕ) where
  reads : {A : Type 0} {p : CollaborationPort W A} → Reads v p → SafePort (Owned v team user) p Any
  reads r = Reads-Safe t team user r

  may_invite-Safe :
      (x : Texts) (cfg : Config) (i u : ℕ) (role : TeamRole)
      → Safe (Owned v team user) (may_invite d x cfg i u role) (λ b. role ≢ owner)
  unfolding may_invite
  may_invite-Safe x cfg i u role = Safe-call_then _ (member-Safe t team user i u) (λ m p.
      Safe-require_then (role_has_permission m.role perm_invite) _ (λ a.
        Safe-require_then (is_valid_invite_role role) _ (λ e.
          Safe-imply (Safe-require (role_can_assign m.role role) _)
            (λ b f. valid_not_owner role e))))

  check_limit-Safe :
      (x : Texts) (cfg : Config) (g : Team) (i : ℕ)
      → Safe (Owned v team user) (check_limit d x cfg g i) Any
  unfolding check_limit
  check_limit-Safe x cfg g i =
      Safe-call_then _ (reads (t.reads_count i)) (λ n p. Safe-weaken (Safe-require _ _))

  not_member-Safe :
      (r : Result CollaborationError TeamMember) → Safe (Owned v team user) (not_member r) Any
  not_member-Safe (ok a) = Safe-raise _
  not_member-Safe (err e) = Safe-weaken (Safe-require (is_member_not_found e) e)

  none_pending-Safe : (o : Option TeamInvitation) → Safe (Owned v team user) (none_pending o) Any
  none_pending-Safe none = Safe-give _ tt
  none_pending-Safe (some i) = Safe-raise _

  check_user-Safe :
      (x : Texts) (cfg : Config) (i : ℕ) (o : Option UserInfo)
      → Safe (Owned v team user) (check_user d x cfg i o) Any
  unfolding check_user
  check_user-Safe x cfg i none = Safe-give _ tt
  check_user-Safe x cfg i (some u) =
      Safe-bind (try (d.find_member i u.id)) not_member
        (Safe-try _ (member-Safe t team user i u.id)) (λ r p. not_member-Safe r)

  secure_token-Safe :
      (x : Texts) (r : Result CollaborationError (List ℕ)) (n : ℕ)
      → Safe (Owned v team user) (generate_secure_token x r n) Any
  unfolding generate_secure_token
  secure_token-Safe x (err e) n = Safe-raise _
  secure_token-Safe x (ok bytes) n = Safe-deref _

  find_inviter-Safe :
      (x : Texts) (cfg : Config) (u : ℕ) → Safe (Owned v team user) (find_inviter d x cfg u) Any
  unfolding find_inviter
  find_inviter-Safe x cfg u =
      Safe-bind (try (d.user_by_id u)) (λ r. give (inviter_of r))
        (Safe-try _ (reads (t.reads_user u))) (λ r p. Safe-give _ tt)

  invite-Safe :
      (x : Texts) (cfg : Config) (b : Result CollaborationError (List ℕ)) (i now g u : ℕ)
      (role : TeamRole) (in_team : Team) (email : String)
      → role ≢ owner
      → Safe (Owned v team user) (invite d x cfg b i now g u role in_team email) Any
  unfolding invite
  invite-Safe x cfg b i now g u role in_team email n =
      Safe-call_then _ (reads (t.reads_email email)) (λ o p.
        Safe-bind _ _ (check_user-Safe x cfg g o) (λ a q.
          Safe-call_then _ (reads (t.reads_pending g email)) (λ old e.
            Safe-bind _ _ (none_pending-Safe old) (λ c f.
              Safe-bind _ _ (secure_token-Safe x b _) (λ token h.
                Safe-call_then _
                  (create_invitation-Safe t team user
                    (new_invitation d x cfg i now g u email o role token) n)
                  (λ j k. Safe-bind _ _ (find_inviter-Safe x cfg u) (λ l s. Safe-give _ tt)))))))

  pub send_invitation-Safe :
      (x : Texts) (cfg : Config) (b : Result CollaborationError (List ℕ)) (i now g u : ℕ)
      (input : InviteInput)
      → Safe (Owned v team user) (send_invitation d x cfg b i now g u input) Any
  unfolding send_invitation
  send_invitation-Safe x cfg b i now g u input =
      Safe-bind _ _ (may_invite-Safe x cfg g u input.role) (λ a n.
        Safe-call_then _ (reads (t.reads_team g)) (λ in_team p.
          Safe-bind _ _ (check_limit-Safe x cfg in_team g)
            (λ c q. invite-Safe x cfg b i now g u input.role in_team _ n)))

  check_invitee-Safe :
      (x : Texts) (cfg : Config) (i : TeamInvitation) (email : String)
      → Safe (Owned v team user) (check_invitee d x cfg i email) Any
  unfolding check_invitee
  check_invitee-Safe x cfg i email =
      Safe-require_then (x.to_lower i.invitee_email == x.to_lower email) _
        (λ a. Safe-weaken (Safe-require (is_pending i) _))

  mark_expired-Safe :
      (x : Texts) (cfg : Config) (i : ℕ) → Safe (Owned v team user) (mark_expired d x cfg i) Any
  unfolding mark_expired
  mark_expired-Safe x cfg i =
      Safe-bind (try (d.update_status i expired)) (λ r. give tt)
        (Safe-try _ (reads (t.writes_status i expired))) (λ r p. Safe-give _ tt)

  check_expiry-Safe :
      (x : Texts) (cfg : Config) (now : ℕ) (i : TeamInvitation)
      → Safe (Owned v team user) (check_expiry d x cfg now i) Any
  unfolding check_expiry
  check_expiry-Safe x cfg now i =
      Safe-if (is_expired now i)
        (Safe-bind _ _ (mark_expired-Safe x cfg i.id) (λ a p. Safe-raise _)) (Safe-give _ tt)

  join_team-Safe :
      (x : Texts) (cfg : Config) (now : ℕ) (i : TeamInvitation) (g : Team) (u : ℕ)
      → i.role ≢ owner
      → Safe (Owned v team user) (join_team d x cfg now i g u) Any
  unfolding join_team
  join_team-Safe x cfg now i g u n = Safe-bind _ _ (check_limit-Safe x cfg g g.id) (λ a p.
      Safe-call_then _ (add_member-Safe t team user (new_member now g.id u i.role) (λ e. n))
        (λ b q. Safe-call _ _ (reads (t.writes_status i.id accepted))))

  pub accept_invitation-Safe :
      (x : Texts) (cfg : Config) (now : ℕ) (token : String) (u : ℕ) (email : String)
      → Safe (Owned v team user) (accept_invitation d x cfg now token u email) Any
  unfolding accept_invitation
  accept_invitation-Safe x cfg now token u email =
      Safe-call_then _ (token-Safe t team user token) (λ i n.
        Safe-bind _ _ (check_invitee-Safe x cfg i email) (λ a p.
          Safe-bind _ _ (check_expiry-Safe x cfg now i) (λ b q.
            Safe-call_then _ (reads (t.reads_team i.team_id)) (λ g e.
              Safe-bind _ _ (transaction-Safe t team user _ (join_team-Safe x cfg now i g u n))
                (λ c f.
                  Safe-bind _ _ (count_members-Safe t team user g.id) (λ k h. Safe-give _ tt))))))

  pub reject_invitation-Safe :
      (x : Texts) (cfg : Config) (token email : String)
      → Safe (Owned v team user) (reject_invitation d x cfg token email) Any
  unfolding reject_invitation
  reject_invitation-Safe x cfg token email = Safe-call_then _ (token-Safe t team user token) (λ i n.
      Safe-bind _ _ (check_invitee-Safe x cfg i email)
        (λ a p. Safe-call _ _ (reads (t.writes_status i.id rejected))))

  pub revoke_invitation-Safe :
      (x : Texts) (cfg : Config) (i u : ℕ)
      → Safe (Owned v team user) (revoke_invitation d x cfg i u) Any
  unfolding revoke_invitation
  revoke_invitation-Safe x cfg i u = Safe-call_then _ (reads (t.reads_invitation i)) (λ inv p.
      Safe-call_then _ (member-Safe t team user inv.team_id u) (λ m q.
        Safe-require_then (role_has_permission m.role perm_invite) _ (λ a.
          Safe-require_then (is_pending inv) _
            (λ e. Safe-call _ _ (reads (t.writes_status i revoked))))))
