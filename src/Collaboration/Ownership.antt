-- ===== src/Collaboration/Ownership.antt =====
-- Each port keeps the one owner of a team, under the conditions that the operations check.
pub mod Teams
pub mod Members
pub mod Invitations
use uniedit_server.Common.{
  ◌≡◌, ◌≢◌, sym, ◌∙◌, subst, inl, inr, ℕ, ℕ_Eq, Bool-cases, ◌==◌, String, Option, none, some, arith,
  Safe, SafePort, Any, Bool-cases, Answered-Any, Returned-Any, Answered-if, ap, ◌&&◌, not, true,
}
use uniedit_server.Collaboration.Model.{TeamRole, owner, TeamRole_Eq, TeamMember, TeamInvitation}
use uniedit_server.Collaboration.Roles.{is_valid_invite_role}
use uniedit_server.Collaboration.Ports.{Ports, Collaborates, CollaborationPort}
use uniedit_server.Collaboration.Table.{Rows, Keeps, Reads, Sets, Table}

module _ {W : Type 0} (v : Rows W) (team user : ℕ) where
  -- The user is the only owner of the team, and nobody is invited to be an owner.
  pub record Owned (w : W) : Type 0 where
    pub owns : v.role_of w team user ≡ some owner
    pub only : (u : ℕ) → v.role_of w team u ≡ some owner → u ≡ user
    pub not_offered : ¬ (v.Offers w owner)

module _ {W : Type 0} {d : Ports W} {v : Rows W} (t : Table d v) (team user : ℕ) where
  pub Owned-Keeps : (w w' : W) → Keeps v w w' → Owned v team user w → Owned v team user w'
  Owned-Keeps w w' k o = record {
    owns = k.0 team user ∙ o.owns;
    only = λ u e. o.only u (sym (k.0 team u) ∙ e);
    not_offered = λ f. o.not_offered (k.1 owner f);
  }

  -- A change of the role of another user, to another role.
  pub Owned-Sets :
      (i u : ℕ) (r : Option TeamRole) (w w' : W)
      → Sets v i u r w w'
      → (team ≡ i → user ≢ u)
      → (team ≡ i → r ≢ some owner)
      → Owned v team user w
      → Owned v team user w'
  Owned-Sets i u r w w' k a b o = record {
    owns = elim (k.0 team user) [ inl e ↦ e ∙ o.owns | inr c ↦ absurd (a c.0 c.1) ];
    only = λ u' e. elim (k.0 team u') [
      | inl f ↦ o.only u' (sym f ∙ e)
      | inr c ↦ absurd (b c.0 (sym c.2 ∙ e))
    ];
    not_offered = λ f. o.not_offered (k.1 owner f);
  }

  -- A new member, who is an owner in another team only.
  pub Owned-add_member :
      (m : TeamMember) (w : W)
      → (team ≡ m.team_id → m.role ≢ owner)
      → Owned v team user w
      → Owned v team user (d.add_member m w).1
  Owned-add_member m w n o = elim (Bool-cases (team == m.team_id && user == m.user_id)) [
    | inl e ↦
        let here : (team ≡ m.team_id) × (user ≡ m.user_id) = ground arith in
        let old : v.role_of w m.team_id m.user_id ≡ some owner =
          sym (ap (λ i. v.role_of w i user) here.0 ∙ ap (v.role_of w m.team_id) here.1) ∙ o.owns in
        Owned-Keeps w _ ((t.add_member m w).1 (λ g. ground arith)) o
    | inr e ↦
        Owned-Sets m.team_id m.user_id (some m.role) w _ (t.add_member m w).0 (λ f g. ground arith)
          (λ f g. n f (ground arith)) o
  ]

  pub Reads-Safe :
      {A : Type 0} {p : CollaborationPort W A} → Reads v p → SafePort (Owned v team user) p Any
  Reads-Safe {p = p} r = record {
    safe = λ w o. (Owned-Keeps w (p w).1 (r.keeps w) o, Answered-Any (p w).0);
  }

  -- The member that is found is the owner only in the row of the team and its user.
  abbrev pub Other : ℕ → ℕ → TeamMember → Type 0
  Other i u m = m.role ≢ owner → team ≡ i → user ≢ u

  pub member-Safe : (i u : ℕ) → SafePort (Owned v team user) (d.find_member i u) (Other i u)
  member-Safe i u = record {
    safe = λ w o. (
      Owned-Keeps w (d.find_member i u w).1 ((t.reads_member i u).keeps w) o,
      Answered-if _ (d.find_member i u w).0 (λ m e n a b.
          let old : v.role_of w i u ≡ some owner =
            sym (ap (λ j. v.role_of w j user) a ∙ ap (v.role_of w i) b) ∙ o.owns in
          n (ground (arith, t.member_found i u m w e, old))),
    );
  }

  pub token-Safe :
      (s : String) → SafePort (Owned v team user) (d.find_by_token s) (λ i. i.role ≢ owner)
  token-Safe s = record {
    safe = λ w o. (
      Owned-Keeps w (d.find_by_token s w).1 ((t.reads_token s).keeps w) o,
      Answered-if _ (d.find_by_token s w).0
          (λ i e n. o.not_offered (subst (v.Offers w) n (t.token_found s i w e))),
    );
  }

  pub add_member-Safe :
      (m : TeamMember)
      → (team ≡ m.team_id → m.role ≢ owner)
      → SafePort (Owned v team user) (d.add_member m) Any
  add_member-Safe m n = record {
    safe = λ w o. (Owned-add_member m w n o, Answered-Any (d.add_member m w).0);
  }

  pub update_role-Safe :
      (i u : ℕ) (r : TeamRole)
      → (team ≡ i → user ≢ u)
      → r ≢ owner
      → SafePort (Owned v team user) (d.update_role i u r) Any
  update_role-Safe i u r a b = record {
    safe = λ w o. (
      Owned-Sets i u (some r) w _ (t.update_role i u r w) a (λ e f. b (ground arith)) o,
      Answered-Any (d.update_role i u r w).0,
    );
  }

  pub remove_member-Safe :
      (i u : ℕ) → (team ≡ i → user ≢ u) → SafePort (Owned v team user) (d.remove_member i u) Any
  remove_member-Safe i u a = record {
    safe = λ w o. (
      Owned-Sets i u none w _ (t.remove_member i u w) a (λ e f. ground arith) o,
      Answered-Any (d.remove_member i u w).0,
    );
  }

  pub create_invitation-Safe :
      (i : TeamInvitation)
      → i.role ≢ owner
      → SafePort (Owned v team user) (d.create_invitation i) Any
  create_invitation-Safe i n = record {
    safe = λ w o.
        let k = t.create_invitation i w in
        (
          record {
            owns = k.0 team user ∙ o.owns;
            only = λ u e. o.only u (sym (k.0 team u) ∙ e);
            not_offered = λ f. elim (k.1 owner f) [ inl g ↦ o.not_offered g | inr e ↦ n (sym e) ];
          },
          Answered-Any (d.create_invitation i w).0,
        );
  }

  pub transaction-Safe :
      (f : Collaborates W (Unit {0}))
      → Safe (Owned v team user) f Any
      → Safe (Owned v team user) (d.run_in_transaction f) Any
  transaction-Safe f s = record {
    safe = λ w o. (
      elim (t.run_in_transaction f w) [
        | inl k ↦ Owned-Keeps w _ k o
        | inr k ↦ Owned-Keeps (f w).1 _ k (s.safe w o).0
      ],
      Returned-Any (d.run_in_transaction f w).0,
    );
  }

pub not_owner : (r : TeamRole) → not (r == owner) ≡ true → r ≢ owner
not_owner r e n = ground arith

pub valid_not_owner : (r : TeamRole) → is_valid_invite_role r ≡ true → r ≢ owner
unfolding is_valid_invite_role
valid_not_owner r e n = ground arith
