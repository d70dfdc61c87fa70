-- ===== src/User/Passwords.antt =====
-- What a changed password lets its user do, and the single use of a token.
use uniedit_server.Common.{
  Returned, Safe, SafePort, Any, Answered-Any, Safe-give, Safe-call, Safe-call_then, Ensures-imply,
  Reply, fails_with, panics, Option, none, not, try, require, Ensures-try, Ensures-give, ◌≡◌, refl,
  ◌∙◌, ap, subst, ℕ, String, true, some, ok, returns, Ensures, ensured, Ensures-found, Ensures-call,
  Ensures-require, Ensures-bind, false, arith,
}
use uniedit_server.User.Model.{
  EmailVerification, UserError, can_login, email_already_exists, registration, User, from_port,
}
use uniedit_server.User.Ports.{Ports, Bcrypt, EmailSender}
use uniedit_server.User.Service.Accounts.{long_enough, get_user, hash_password, change_password}
use uniedit_server.User.Service.Registration.{
  dropped, send, new_verification, RegisterInput, Fresh, is_taken, check_email, register, ignoring,
  send_verification_email, new_row, verified,
}

-- The table of users: a user is found under the id, and as updated; and a generated hash matches its
-- password.
pub record UserTable {W : Type 0} (d : Ports W) (b : Bcrypt) : Type 0 where
  pub found_id : (id : ℕ) (u : User) (w w' : W) → d.find_by_id id w ≡ (ok (some u), w') → u.id ≡ id
  pub update_found :
      (u : User) (w w' : W)
      → d.update_user u w ≡ (ok tt, w')
      → (d.find_by_id u.id w').0 ≡ ok (some u)
  pub generate-matches :
      (salt : ℕ) (password hash : String)
      → b.generate salt password ≡ ok hash
      → b.matches hash password ≡ true

-- The user is stored with a hash of the password.
pub record HasPassword {W : Type 0} (d : Ports W) (b : Bcrypt) (id : ℕ) (password : String) (w : W)
    : Type 0 where
  pub user : User
  pub hash : String
  pub stored : (d.find_by_id id w).0 ≡ ok (some user)
  pub hashed : user.password_hash ≡ some hash
  pub matching : b.matches hash password ≡ true

module _ {W : Type 0} (d : Ports W) (b : Bcrypt) (t : UserTable d b) where
  update-HasPassword :
      (id salt : ℕ) (password hash : String) (u : User) (w w' : W)
      → u.id ≡ id
      → b.generate salt password ≡ ok hash
      → d.update_user (record u { password_hash = some hash }) w ≡ (ok tt, w')
      → HasPassword d b id password w'
  update-HasPassword id salt password hash u w w' i g e = record {
    user = record u { password_hash = some hash };
    hash = hash;
    stored =
        subst (λ j. (d.find_by_id j w').0 ≡ ok (some (record u { password_hash = some hash }))) i
          (t.update_found _ w w' e);
    hashed = refl;
    matching = t.generate-matches salt password hash g;
  }

  get_user-Ensures :
      {Q : User → W → Type 0} (id : ℕ) (w : W)
      → ((u : User) (w' : W) → d.find_by_id id w ≡ (ok (some u), w') → Q u w')
      → Ensures (get_user d id) w Q
  unfolding get_user
  get_user-Ensures id w q = Ensures-bind _ _ w (
      Ensures-call from_port (d.find_by_id id) w
        (λ o w' e. Ensures-found o _ w' (λ u f. q u w' (e ∙ ap (λ x. (ok x, w')) f))))

  hash_password-Ensures :
      {Q : String → W → Type 0} (salt : ℕ) (password : String) (w : W)
      → ((hash : String) → b.generate salt password ≡ ok hash → Q hash w)
      → Ensures (hash_password d b salt password) w Q
  unfolding hash_password
  hash_password-Ensures {Q = Q} salt password w q =
      Ensures-call from_port (λ v. (b.generate salt password, v)) w
        (λ h w' e. subst (Q h) (ap (λ r. r.1) e) (q h (ap (λ r. r.0) e)))

  -- The stored hash allowed the change from `current` to `new`, which is stored.
  abbrev pub Change : ℕ → String → String → W → W → Type 0
  Change id current new w w' =
      (long_enough new ≡ true)
      × ((u : User) × (hash : String) × ((d.find_by_id id w).0 ≡ ok (some u))
          × (u.password_hash ≡ some hash)
          × (b.matches hash current ≡ true))
      × HasPassword d b id new w'

  change_password-Ensures :
      (salt id : ℕ) (current new : String) (w : W)
      → Ensures (change_password d b salt id current new) w (λ x w'. Change id current new w w')
  unfolding change_password
  change_password-Ensures salt id current new w = Ensures-bind _ _ w (
      Ensures-require (long_enough new) _ w (λ l. Ensures-bind _ _ w (
        get_user-Ensures id w (λ u w1 f. Ensures-bind _ _ w1 (
          Ensures-found u.password_hash _ w1 (λ old o. Ensures-bind _ _ w1 (
            Ensures-require (b.matches old current) _ w1 (λ m. Ensures-bind _ _ w1 (
              hash_password-Ensures salt new w1 (λ hash g. Ensures-call from_port _ w1 (λ x w2 s. (
                l,
                (u, old, ap (λ r. r.0) f, o, m),
                update-HasPassword id salt new hash u w1 w2 (t.found_id id u w w1 f) g s,
              ))))))))))))

  -- A change of password that succeeds gives a password of 8 bytes or more; before it the user was
  -- stored with a hash that the current password matches, and after it with one that the new
  -- password matches.
  pub change_password_lem :
      (salt id : ℕ) (current new : String) (w w' : W)
      → change_password d b salt id current new w ≡ (returns tt, w')
      → (long_enough new ≡ true)
        × ((u : User) × (hash : String) × ((d.find_by_id id w).0 ≡ ok (some u))
            × (u.password_hash ≡ some hash)
            × (b.matches hash current ≡ true))
        × HasPassword d b id new w'
  change_password_lem salt id current new w w' e =
      ensured _ tt w w' (change_password-Ensures salt id current new w) e

  check_email-Ensures :
      {Q : Unit {0} → W → Type 0} (email : String) (w : W)
      → ((w' : W) → is_taken (d.find_by_email email w).0 ≡ false → Q tt w')
      → Ensures (check_email d email) w Q
  unfolding check_email
  check_email-Ensures email w q =
      Ensures-bind (try (d.find_by_email email))
        (λ r. require (not (is_taken r)) email_already_exists) w
        (Ensures-try _ w (λ r w1 e.
          Ensures-require (not (is_taken r)) _ w1
            (λ n. q w1 (ap (λ x. is_taken x.0) e ∙ ground arith))))

-- The rows of the users: a user who is created is there, and the writes of tokens and the sending of
-- emails change no row.
pub record RegisteredRows {W : Type 0} (d : Ports W) (v : W → ℕ → Option User) : Type 0 where
  pub create_row : (u : User) (w w' : W) → d.create_user u w ≡ (ok tt, w') → v w' u.id ≡ some u
  pub verification_keeps :
      (x : EmailVerification) (id : ℕ) (w : W) → v (d.create_verification x w).1 id ≡ v w id
  pub email_keeps :
      (s : EmailSender W) (email name token : String) (id : ℕ) (w : W)
      → d.email_sender ≡ some s
      → v (s.send_verification_email email name token w).1 id ≡ v w id

module _ {W : Type 0} (d : Ports W) {v : W → ℕ → Option User} (k : RegisteredRows d v) (id : ℕ)
    (u : User) where
  abbrev Row : W → Type 0
  Row w = v w id ≡ some u

  send-Safe :
      (s : Option (EmailSender W)) (user : User) (token : String)
      → d.email_sender ≡ s
      → Safe Row (send d s user registration token) Any
  unfolding send
  send-Safe none user token e = Safe-give tt tt
  send-Safe (some s) user token e = Safe-call _ _ (record {
    safe = λ w i. (
      k.email_keeps s user.email user.name token id w e ∙ i,
      Answered-Any (s.send_verification_email user.email user.name token w).0,
    );
  })

  token-SafePort : (fresh : Fresh) → SafePort {S = String} Row (λ w. (fresh.token, w)) Any
  token-SafePort fresh = record { safe = λ w i. (i, Answered-Any fresh.token) }

  verification-SafePort :
      (x : EmailVerification) → SafePort {S = String} Row (d.create_verification x) Any
  verification-SafePort x = record {
    safe = λ w i. (k.verification_keeps x id w ∙ i, Answered-Any (d.create_verification x w).0);
  }

  send_verification_email-Safe :
      (fresh : Fresh) (now : ℕ) (user : User)
      → Safe Row (send_verification_email d fresh now user registration) Any
  unfolding send_verification_email
  send_verification_email-Safe fresh now user =
      Safe-call_then from_port (token-SafePort fresh) (λ token q.
        Safe-call_then from_port
          (verification-SafePort (new_verification fresh.token_id now user registration token))
          (λ x y. send-Safe d.email_sender user token refl))

  ignoring-Ensures :
      (fresh : Fresh) (now : ℕ) (user : User) (w : W)
      → Row w
      → Ensures
          (ignoring (send_verification_email d fresh now user registration))
          w
          (λ x w'. Row w')
  ignoring-Ensures fresh now user w h = record {
    holds =
        kept (send_verification_email d fresh now user registration w)
          ((send_verification_email-Safe fresh now user).safe w h).0;
  }
    where
      kept :
          (r : Reply UserError (Unit {0}) × W)
          → Row r.1
          → Returned (λ x. Row (dropped r).1) (dropped r).0
      kept (returns a, w1) i = i
      kept (fails_with e, w1) i = i
      kept (panics, w1) i = tt

module _ {W : Type 0} (d : Ports W) (b : Bcrypt) (t : UserTable d b) {v : W → ℕ → Option User}
    (k : RegisteredRows d v) where
  -- What `Register` promises of the user that it returns.
  abbrev pub Registered : RegisterInput → W → User → W → Type 0
  Registered input w u w' =
      (v w' u.id ≡ some u)
      × (is_taken (d.find_by_email input.email w).0 ≡ false)
      × (long_enough input.password ≡ true)
      × (u.email ≡ input.email)
      × (can_login u ≡ false)
      × (can_login (verified u) ≡ true)
      × ((hash : String) × (u.password_hash ≡ some hash) × (b.matches hash input.password ≡ true))

  register-Ensures :
      (fresh : Fresh) (salt new_id now : ℕ) (input : RegisterInput) (w : W)
      → Ensures (register d b fresh salt new_id now input) w (λ u w'. Registered input w u w')
  unfolding register can_login
  register-Ensures fresh salt new_id now input w = Ensures-bind _ _ w (
      check_email-Ensures d b t input.email w (λ w1 n. Ensures-bind _ _ w1 (
        Ensures-require (long_enough input.password) _ w1 (λ l. Ensures-bind _ _ w1 (
          hash_password-Ensures d b t salt input.password w1 (λ hash g. Ensures-bind _ _ w1 (
            Ensures-call from_port (d.create_user (new_row new_id now input hash)) w1 (λ x w2 c.
              Ensures-bind _ _ w2 (
                Ensures-imply _ w2
                  (ignoring-Ensures d k new_id (new_row new_id now input hash) fresh now
                    (new_row new_id now input hash) w2
                    (k.create_row (new_row new_id now input hash) w1 w2 c))
                  (λ y row. Ensures-give _ _ (
                    row,
                    n,
                    l,
                    refl,
                    refl,
                    refl,
                    (hash, refl, t.generate-matches salt input.password hash g),
                  )))))))))))

  -- Where the rows of the users keep what is created: a registration that succeeds was for an email that no
  -- user was found under and a password of 8 bytes or more. The user that it returns is in the table, with
  -- that email and a hash that the password matches; the user cannot log in, and with the changes that
  -- `VerifyEmail` makes to a row could.
  pub register_lem :
      (fresh : Fresh) (salt new_id now : ℕ) (input : RegisterInput) (u : User) (w w' : W)
      → register d b fresh salt new_id now input w ≡ (returns u, w')
      → (v w' u.id ≡ some u)
        × (is_taken (d.find_by_email input.email w).0 ≡ false)
        × (long_enough input.password ≡ true)
        × (u.email ≡ input.email)
        × (can_login u ≡ false)
        × (can_login (verified u) ≡ true)
        × ((hash : String) × (u.password_hash ≡ some hash) × (b.matches hash input.password ≡ true))
  register_lem fresh salt new_id now input u w w' e =
      ensured _ u w w' (register-Ensures fresh salt new_id now input w) e
