-- ===== src/Auth/Password.antt =====
-- Passwords of src/auth/mod.rs: Argon2id, and PBKDF2 for the hashes that are older than it.
pub mod Laws
use Prim.Native.Char.{Char, code}
use Prim.Native.String.{◌++◌}
use Prim.Native.String
use evorule_rule.Prelude.{
  ℕ, String, Bool, true, false, not, ◌&&◌, Option, none, some, List, [], ◌∷◌, length, is_some, ◌==◌,
  if◌then◌else◌,
}
use evorule_rule.Auth.Digest.{as_bytes, hex, unhex, pbkdf2_hmac_sha256}

-- `Sha256::digest` of the crate `sha2` and `hash_password_into` of `argon2`, over bytes.
pub record Hashes : Type 0 where
  pub sha256 : List ℕ → List ℕ
  pub argon2id : (password salt : List ℕ) → List ℕ

-- `strip_prefix` of `str`, the prefix first.
abbrev pub strip_prefix : String → String → Option String
strip_prefix String.[] s = some s
strip_prefix (String.◌∷◌ c p) String.[] = none
strip_prefix (String.◌∷◌ c p) (String.◌∷◌ d s) =
    let rest = strip_prefix p s in if code c == code d then rest else none

-- The lengths are compared first, then every byte.
unfoldable pub bytes_eq : List ℕ → List ℕ → Bool
bytes_eq [] [] = true
bytes_eq (a ∷ front) (b ∷ rest) = (a == b) && bytes_eq front rest
bytes_eq _ _ = false

unfoldable pub password_hash_prefix : String
password_hash_prefix = "a2$"

module _ (hashes : Hashes) where
  unfoldable pub hash_password : (password salt : String) → String
  unfolding password_hash_prefix
  hash_password password salt =
      password_hash_prefix ++ hex (hashes.argon2id (as_bytes password) (unhex salt))

  -- The stored hash without the prefix of its generation, or an older hash.
  abbrev pub verify_by : (iterations : ℕ) (password salt expected : String) → Option String → Bool
  verify_by iterations password salt expected (some stripped) =
      bytes_eq (unhex stripped) (hashes.argon2id (as_bytes password) (unhex salt))
  verify_by iterations password salt expected none =
      bytes_eq (unhex expected)
        (pbkdf2_hmac_sha256 hashes.sha256 (as_bytes password) (unhex salt) iterations 32)

  unfoldable pub verify_password : (iterations : ℕ) (password salt expected : String) → Bool
  unfolding password_hash_prefix
  verify_password iterations password salt expected =
      verify_by iterations password salt expected (strip_prefix password_hash_prefix expected)

unfoldable pub needs_rehash : String → Bool
unfolding password_hash_prefix
needs_rehash expected = not (is_some (strip_prefix password_hash_prefix expected))
