-- ===== src/Collaboration/Examples.antt =====
-- A team in memory: members and the roles that invitations offer, with every other call a success that
-- changes nothing.
use Prim.Native.String.{len}
use uniedit_server.Common.{
  ◌≡◌, ◌≢◌, refl, ℕ, ℕ_Eq, pos, ◌==◌, ◌&&◌, if◌then◌else◌, String, List, [], ◌∷◌, length, Option,
  none, some, inl, inr, Result, ok, err, returns, panics, arith, ap, ◌+◌, ◌⊎◌, ◌≤◌, ◌*◌, ◌/◌, ◌<◌,
}
use uniedit_server.Collaboration.Model.{
  TeamRole, owner, admin, member, guest, Team, private, active, TeamMember, TeamInvitation, pending,
  CollaborationError, member_not_found, team_not_found,
}
use uniedit_server.Collaboration.Ports.{Ports}
use uniedit_server.Collaboration.Views.{Texts, default_config, generate_secure_token}
use uniedit_server.Collaboration.Table.{Rows, Table, Reads}
use uniedit_server.Collaboration.Ownership.{Owned}
use uniedit_server.Collaboration.Calls.{
  run, call_update_member_role, call_remove_member, call_leave_team,
}
use uniedit_server.Collaboration.History.{run-Owned}
use uniedit_server.Collaboration.Tokens.{Base64, generate_secure_token_lem}

-- The members, the newest entry of a user first; a removed one has no role.
pub record Row : Type 0 where
  pub team_id : ℕ
  pub user_id : ℕ
  pub role : Option TeamRole

abbrev lookup : List Row → ℕ → ℕ → Option TeamRole
lookup [] t u = none
lookup (r ∷ rows) t u =
    let rest = lookup rows t u in if t == r.team_id && u == r.user_id then r.role else rest

abbrev entry : ℕ → ℕ → Option TeamRole → Row
entry t u r = record { team_id = t; user_id = u; role = r }

abbrev as_member : ℕ → ℕ → Option TeamRole → Result CollaborationError TeamMember
as_member t u none = err member_not_found
as_member t u (some r) =
    ok (record { team_id = t; user_id = u; role = r; joined_at = 1; updated_at = 1 })

abbrev add : TeamMember → Option TeamRole → List Row → List Row
add m none rows = entry m.team_id m.user_id (some m.role) ∷ rows
add m (some r) rows = rows

abbrev team : Team
team = record {
  id = 7;
  owner_id = 5;
  name = "Editors";
  slug = "editors";
  description = "";
  visibility = private;
  member_limit = pos 5;
  status = active;
  created_at = 1;
  updated_at = 1;
}

abbrev invitation : TeamInvitation
invitation = record {
  id = 3;
  team_id = 7;
  inviter_id = 5;
  invitee_email = "a@b.c";
  invitee_id = none;
  role = guest;
  token = "t";
  status = pending;
  expires_at = 100;
  created_at = 1;
  accepted_at = none;
  team = none;
  inviter = none;
}

abbrev memory : Ports (List Row)
memory = record {
  create_team = λ t w. (ok tt, w);
  find_team = λ t w. (ok team, w);
  find_by_owner_and_slug = λ u s w. (err team_not_found, w);
  find_by_user = λ u l o w. (ok [], w);
  update_team = λ t w. (ok tt, w);
  delete_team = λ t w. (ok tt, w);
  add_member = λ m w. (ok tt, add m (lookup w m.team_id m.user_id) w);
  find_member = λ t u w. (as_member t u (lookup w t u), w);
  find_by_team_with_users = λ t w. (ok [], w);
  update_role = λ t u r w. (ok tt, entry t u (some r) ∷ w);
  remove_member = λ t u w. (ok tt, entry t u none ∷ w);
  count = λ t w. (ok (pos 1), w);
  create_invitation = λ i w. (ok tt, w);
  find_invitation = λ i w. (ok invitation, w);
  find_by_token = λ s w. (ok invitation, w);
  find_pending_by_email = λ t s w. (ok none, w);
  find_by_team = λ t s l o w. (ok [], w);
  find_by_email = λ s st l o w. (ok [], w);
  update_status = λ i s w. (ok tt, w);
  cancel_pending_by_team = λ t w. (ok tt, w);
  user_by_email = λ s w. (ok none, w);
  user_by_id = λ u w. (ok none, w);
  run_in_transaction = λ f w. f w;
}

abbrev rows : Rows (List Row)
rows = record { role_of = lookup; Offers = λ w r. r ≡ guest }

add_sets :
    (m : TeamMember) (o : Option TeamRole) (w : List Row) (t u : ℕ)
    → (lookup (add m o w) t u ≡ lookup w t u)
      ⊎ ((t ≡ m.team_id) × (u ≡ m.user_id) × (lookup (add m o w) t u ≡ some m.role))
add_sets m none w t u = ground arith
add_sets m (some r) w t u = inl refl

add_known : (m : TeamMember) (o : Option TeamRole) (w : List Row) → o ≢ none → add m o w ≡ w
add_known m none w n = absurd (n refl)
add_known m (some r) w n = refl

still : {A : Type 0} (r : Result CollaborationError A) → Reads rows (λ w. (r, w))
still r = record { keeps = λ w. ((λ t u. refl), (λ s e. e)) }

memory-Table : Table memory rows
memory-Table = record {
  add_member = λ m w.
      let old = lookup w m.team_id m.user_id in
      (
        ((λ t u. add_sets m old w t u), (λ s e. e)),
        λ n. ((λ t u. ap (λ l. lookup l t u) (add_known m old w n)), (λ s e. e)),
      );
  update_role = λ t u r w. ((λ t' u'. ground arith), (λ s e. e));
  remove_member = λ t u w. ((λ t' u'. ground arith), (λ s e. e));
  create_invitation = λ i w. ((λ t u. refl), (λ r e. inl e));
  run_in_transaction = λ f w. inr ((λ t u. refl), (λ r e. e));
  member_found = λ t u m w e. ground arith;
  token_found = λ s i w e. ground arith;
  reads_member = λ t u. record { keeps = λ w. ((λ t u. refl), (λ s e. e)) };
  reads_token = λ s. still _;
  reads_invitation = λ i. still _;
  reads_pending = λ t s. still _;
  reads_team = λ t. still _;
  reads_slug = λ t s. still _;
  reads_count = λ t. still _;
  reads_email = λ s. still _;
  reads_user = λ u. still _;
  writes_team = λ t. still _;
  updates_team = λ t. still _;
  deletes_team = λ t. still _;
  writes_status = λ i s. still _;
  cancels_pending = λ t. still _;
}

abbrev first_rows : List Row
first_rows = entry 7 5 (some owner) ∷ entry 7 6 (some admin) ∷ entry 7 8 (some guest) ∷ []

abbrev texts : Texts
texts = record {
  to_lower = λ s. s;
  trim_space = λ s. s;
  hyphenate = λ s. s;
  trim_hyphens = λ s. s;
  encode_to_string = λ bytes. "AAECAwQFBgcICQoLDA0ODxAREhMUFRYXGBka";
}

first_Owned : Owned rows 7 5 first_rows
first_Owned = record { owns = refl; only = λ u e. ground arith; not_offered = λ e. ground arith }

-- An admin tries to demote and to remove the owner and promotes a guest, and the owner tries to leave.
run-Owned_example : Owned rows 7 5 (
    run memory texts default_config
      (call_update_member_role 7 5 6 member
        ∷ call_remove_member 7 5 6
        ∷ call_update_member_role 7 8 6 admin
        ∷ call_leave_team 7 5
        ∷ [])
      first_rows)
run-Owned_example =
    run-Owned memory-Table texts default_config 7 5 _ first_rows (tt, (tt, (tt, (tt, tt))))
      first_Owned

-- 27 bytes.
abbrev bytes : List ℕ
bytes =
    0 ∷ 1 ∷ 2 ∷ 3 ∷ 4 ∷ 5 ∷ 6 ∷ 7 ∷ 8 ∷ 9 ∷ 10 ∷ 11 ∷ 12 ∷ 13 ∷ 14 ∷ 15 ∷ 16 ∷ 17 ∷ 18 ∷ 19 ∷ 20
    ∷ 21 ∷ 22 ∷ 23 ∷ 24 ∷ 25 ∷ 26 ∷ []

bytes-Base64 : Base64 texts bytes
bytes-Base64 = record {
  len-encode = refl;
  len-slice = λ h. ground arith;
  slice_nothing = refl;
  slice_past = λ h. refl;
}

generate_secure_token_lem_example :
    (length bytes + 10 ≤ 4 * ((length bytes + 2) / 3)
      → ((s : String) × (generate_secure_token texts (ok bytes) 27 first_rows
            ≡ (returns s, first_rows))
          × (len s ≡ length bytes + 10)))
    × (4 * ((length bytes + 2) / 3) < length bytes + 10
        → generate_secure_token texts (ok bytes) 27 first_rows ≡ (panics, first_rows))
    × (28 ≤ length bytes → length bytes + 10 ≤ 4 * ((length bytes + 2) / 3))
generate_secure_token_lem_example = generate_secure_token_lem texts bytes first_rows bytes-Base64
