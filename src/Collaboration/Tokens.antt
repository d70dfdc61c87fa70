-- ===== src/Collaboration/Tokens.antt =====
-- The length of a token, and the panic of a slice that is out of range.
use Prim.Native.String.{len, slice}
use uniedit_server.Common.{
  ◌≡◌, ℕ, ◌+◌, ◌*◌, ◌/◌, ◌≤◌, ◌<◌, List, length, String, ok, returns, panics, arith,
}
use uniedit_server.Collaboration.Views.{Texts, generate_secure_token}

-- What base64 promises of the encoding of some bytes: four characters for each three bytes begun, each
-- of one byte, so that a slice of the text that ends within it has as many bytes as it says, and one
-- that ends past it is the text.
pub record Base64 (x : Texts) (bytes : List ℕ) : Type 0 where
  pub len-encode : len (x.encode_to_string bytes) ≡ 4 * ((length bytes + 2) / 3)
  pub len-slice :
      length bytes + 10 ≤ len (x.encode_to_string bytes)
      → len (slice (x.encode_to_string bytes) 0 (length bytes + 10)) ≡ length bytes + 10
  pub slice_nothing : len (slice (x.encode_to_string bytes) 0 0) ≡ 0
  pub slice_past :
      len (x.encode_to_string bytes) < length bytes + 10
      → slice (x.encode_to_string bytes) 0 (length bytes + 10) ≡ x.encode_to_string bytes

module _ {W : Type 0} (x : Texts) where
  -- A token of `n` random bytes has `n + 10` characters where their encoding is that long, which it is
  -- for every `n` of 28 or more; where it is shorter, as for 27 bytes, `generateSecureToken` panics.
  pub generate_secure_token_lem :
      (bytes : List ℕ) (w : W)
      → Base64 x bytes
      → (length bytes + 10 ≤ 4 * ((length bytes + 2) / 3)
          → ((s : String) × (generate_secure_token x (ok bytes) (length bytes) w ≡ (returns s, w))
              × (len s ≡ length bytes + 10)))
        × (4 * ((length bytes + 2) / 3) < length bytes + 10
            → generate_secure_token x (ok bytes) (length bytes) w ≡ (panics, w))
        × (28 ≤ length bytes → length bytes + 10 ≤ 4 * ((length bytes + 2) / 3))
  unfolding generate_secure_token
  generate_secure_token_lem bytes w b =
      let n = length bytes in
      (
        λ h. (
          slice (x.encode_to_string bytes) 0 (n + 10),
          ground (arith, b.len-encode, b.len-slice, b.slice_nothing),
          ground (arith, b.len-encode, b.len-slice),
        ),
        λ h. ground (arith, b.len-encode, b.slice_past),
        λ h. omega arith,
      )
