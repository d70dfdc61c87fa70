-- ===== src/Auth/Access.antt =====
-- Whose keys a user reaches, and which keys are valid.
use uniedit_server.Common.{
  ◌≡◌, ◌≢◌, refl, sym, ◌∙◌, ℕ, ℕ_Eq, ℤ, le_ℤ, String, true, false, not, ok, returns, call, arith,
  Ensures, ensured, Ensures-give, Ensures-call, Ensures-bind, Ensures-all, Ensures-require,
}
use uniedit_server.Auth.Model.{SystemApiKey, is_key_expired, is_key_valid, from_port}
use uniedit_server.Auth.Keys.{generate_api_key}
use uniedit_server.Auth.Ports.{Ports}
use uniedit_server.Auth.SystemKeys.{
  CreateSystemApiKeyInput, SystemApiKeyCreateResult, new_system_key, rotated_key,
  create_system_api_key, get_system_api_key, rotate_system_api_key, validate_system_api_key,
}

module _ {W : Type 0} (d : Ports W) where
  -- `ValidateSystemAPIKey` accepts the key that is stored under the hash of a text exactly when it is
  -- active and not expired.
  pub validate-is_key_valid :
      (now : ℕ) (api_key : String) (k : SystemApiKey) (w w1 : W)
      → d.get_system_key_by_hash (d.hash_api_key api_key) w ≡ (ok k, w1)
      → (is_key_valid now k ≡ true → (validate_system_api_key d now api_key w).0 ≡ returns k)
        × (is_key_valid now k ≡ false
            → (x : SystemApiKey) → (validate_system_api_key d now api_key w).0 ≢ returns x)
  unfolding validate_system_api_key is_key_valid
  validate-is_key_valid now api_key k w w1 e = (λ v. ground (arith, e), λ v x h. ground (arith, e))

-- The table of keys of the system: a key that is created or updated is found under its hash, and
-- after an update the hash that the row had before is gone, unless it is the new one.
pub record KeyTable {W : Type 0} (d : Ports W) : Type 0 where
  pub create_found :
      (k : SystemApiKey) (w w' : W)
      → d.create_system_key k w ≡ (ok tt, w')
      → (d.get_system_key_by_hash k.key_hash w').0 ≡ ok k
  pub update_found :
      (k : SystemApiKey) (w w' : W)
      → d.update_system_key k w ≡ (ok tt, w')
      → (d.get_system_key_by_hash k.key_hash w').0 ≡ ok k
  pub update_replaces :
      (id : ℕ) (hash : String) (old k : SystemApiKey) (w w1 w2 : W)
      → d.get_system_key id w ≡ (ok old, w1)
      → old.key_hash ≡ hash
      → k.id ≡ old.id
      → k.key_hash ≢ hash
      → d.update_system_key k w1 ≡ (ok tt, w2)
      → (x : SystemApiKey) → (d.get_system_key_by_hash hash w2).0 ≢ ok x

module _ {W : Type 0} (d : Ports W) (t : KeyTable d) where
  abbrev created : ℕ → ℕ → ℕ → CreateSystemApiKeyInput → String → SystemApiKeyCreateResult
  created user_id new_id now input id =
      let k = generate_api_key d.hash_api_key id in
      record { key = new_system_key new_id now user_id input k; raw_api_key = k.raw_key }

  create-Ensures :
      (limit : ℤ) (id : String) (new_id now user_id : ℕ) (input : CreateSystemApiKeyInput) (w : W)
      → Ensures (create_system_api_key d limit id new_id now user_id input) w (λ r w'.
        (later : ℕ) → (validate_system_api_key d later r.raw_api_key w').0 ≡ returns r.key)
  unfolding create_system_api_key generate_api_key validate_system_api_key is_key_expired
  create-Ensures limit id new_id now user_id input w = Ensures-bind _ _ w (
      Ensures-all (call from_port (d.count_by_user user_id)) w (λ n w1. Ensures-bind _ _ w1 (
        Ensures-require (not (le_ℤ limit n)) _ w1 (λ c. Ensures-bind _ _ w1 (
          Ensures-call from_port
            (d.create_system_key
              (new_system_key new_id now user_id input (generate_api_key d.hash_api_key id)))
            w1
            (λ x w2 e.
              Ensures-give (created user_id new_id now input id) w2
                (λ later. ground (arith, t.create_found _ w1 w2 e))))))))

  -- The text that `CreateSystemAPIKey` hands out is accepted as its key in the world that it leaves, at
  -- every time: the days of expiry that the input asks for have no effect.
  pub created_key_validates :
      (limit : ℤ) (id : String) (new_id now later user_id : ℕ) (input : CreateSystemApiKeyInput)
      (r : SystemApiKeyCreateResult) (w w' : W)
      → create_system_api_key d limit id new_id now user_id input w ≡ (returns r, w')
      → (validate_system_api_key d later r.raw_api_key w').0 ≡ returns r.key
  created_key_validates limit id new_id now later user_id input r w w' e =
      ensured _ r w w' (create-Ensures limit id new_id now user_id input w) e later

  -- After a rotation by the owner of a key that is found and valid, whose new text has another hash: the
  -- new text is accepted as the rotated key, and a text with the old hash is not accepted.
  pub rotated_key_validates :
      (id old_key : String) (user_id key_id now : ℕ) (k : SystemApiKey) (w w1 w2 : W)
      → d.get_system_key key_id w ≡ (ok k, w1)
      → k.user_id ≡ user_id
      → is_key_valid now k ≡ true
      → d.hash_api_key old_key ≡ k.key_hash
      → (generate_api_key d.hash_api_key id).key_hash ≢ k.key_hash
      → d.update_system_key (rotated_key (generate_api_key d.hash_api_key id) k) w1 ≡ (ok tt, w2)
      → let new = generate_api_key d.hash_api_key id in
        (rotate_system_api_key d id user_id key_id w
          ≡ (returns (record { key = rotated_key new k; raw_api_key = new.raw_key }), w2))
        × ((validate_system_api_key d now new.raw_key w2).0 ≡ returns (rotated_key new k))
        × ((x : SystemApiKey) → (validate_system_api_key d now old_key w2).0 ≢ returns x)
  unfolding rotate_system_api_key get_system_api_key validate_system_api_key generate_api_key
      is_key_valid is_key_expired
  rotated_key_validates id old_key user_id key_id now k w w1 w2 e u v h n f =
      let new = rotated_key (generate_api_key d.hash_api_key id) k in
      let found = t.update_found new w1 w2 f in
      let gone =
        t.update_replaces key_id (d.hash_api_key old_key) k new w w1 w2 e (sym h) refl
          (λ g. n (g ∙ h)) f in
      (ground (arith, e, f), ground (arith, found), λ x y. ground (arith, gone x, y))
