-- ===== src/KeyRing.antt =====
-- src/model/secret.rs: the ring of two generations of keys, and src/auth/mod.rs: the verification of
-- a token against both generations.
pub mod Rotation
mod Tests
use evorule_rule.Prelude.{
  ℕ, String, Bool, true, false, Option, none, some, is_some, List, Result, ok, err, if◌then◌else◌,
  not, leb, str_eq, guard, ok_or, map_err, ◌>>=◌, ◌>>◌,
}
use evorule_rule.Model.Auth.{TokenClaims}
use evorule_rule.Store.State.{StoreError}

pub data SecretScope : Type 0 where
  jwt tenant_credentials api_hash_salt dek db_credentials : SecretScope

abbrev pub key : SecretScope → String
key jwt = "jwt"
key tenant_credentials = "tenant_credentials"
key api_hash_salt = "api_hash_salt"
key dek = "dek"
key db_credentials = "db_credentials"

-- The derived `PartialEq`.
abbrev pub scope_eq : SecretScope → SecretScope → Bool
scope_eq jwt jwt = true
scope_eq tenant_credentials tenant_credentials = true
scope_eq api_hash_salt api_hash_salt = true
scope_eq dek dek = true
scope_eq db_credentials db_credentials = true
scope_eq _ _ = false

-- `HashMap<SecretScope, Vec<u8>>`.
abbrev pub Keys : Type 0
Keys = SecretScope → Option (List ℕ)

abbrev insert : SecretScope → Option (List ℕ) → Keys → Keys
insert scope value keys t = if scope_eq scope t then value else keys t

pub record KeyRing : Type 0 where
  pub active : Keys
  pub previous : Keys

abbrev pub empty : KeyRing
empty = record { active = λ t. none; previous = λ t. none }

unfoldable pub set_active : SecretScope → List ℕ → KeyRing → KeyRing
set_active scope value ring = record ring { active = insert scope (some value) ring.active }

unfoldable pub access_active : SecretScope → KeyRing → Option (List ℕ)
access_active scope ring = ring.active scope

unfoldable pub access_previous : SecretScope → KeyRing → Option (List ℕ)
access_previous scope ring = ring.previous scope

-- `or_else`.
abbrev or_else : Option (List ℕ) → Option (List ℕ) → Option (List ℕ)
or_else none other = other
or_else (some v) other = some v

unfoldable pub access_any : SecretScope → KeyRing → Option (List ℕ)
unfolding access_active access_previous
access_any scope ring = or_else (access_active scope ring) (access_previous scope ring)

unfoldable pub has_active : SecretScope → KeyRing → Bool
has_active scope ring = is_some (ring.active scope)

-- The ring after a rotation to the key `new_value`: the old active key, or no key where there was
-- none, is the previous one. The audit record that `rotate` also returns is left out.
unfoldable pub rotate : SecretScope → List ℕ → KeyRing → KeyRing
rotate scope new_value ring = record {
  previous = insert scope (ring.active scope) ring.previous;
  active = insert scope (some new_value) ring.active;
}

-- The errors of src/auth/mod.rs.
pub data AuthError : Type 0 where
  username_taken invalid_credentials user_disabled tenant_not_found org_not_found org_disabled
        not_org_member invalid_token :
      AuthError
  wrong_token_type : (expected : String) → AuthError
  token_user_not_found : AuthError
  store : StoreError → AuthError
  json : (text : String) → AuthError

-- What the verification takes from the crates for HMAC, base64 and JSON: whether a text has three
-- parts of which the last is the signature of the first two under a secret, and the claims that
-- the second part encodes (`none` where it is not base64).
pub record Jwt : Type 0 where
  pub signed : (token secret : String) → Bool
  pub payload : (token : String) → Option (Result String TokenClaims)

module _ (crates : Jwt) where
  unfoldable pub verify_with_secret :
      (token : String) (now : ℕ) (expected_type secret : String) → Result AuthError TokenClaims
  verify_with_secret token now expected_type secret = do
    guard (crates.signed token secret) invalid_token
    decoded ← ok_or (crates.payload token) invalid_token
    claims ← map_err json decoded
    guard (not (leb claims.exp now)) invalid_token
    guard (str_eq claims.token_type expected_type) (wrong_token_type expected_type)
    ok claims

  -- The previous secret is tried after the active one; where both refuse, the error is the first.
  abbrev second_try :
      (token : String) (now : ℕ) (expected_type : String)
      → AuthError
      → Option String
      → Result AuthError TokenClaims
  second_try token now expected_type e none = err e
  second_try token now expected_type e (some prev) =
      map_err (λ f. e) (verify_with_secret token now expected_type prev)

  abbrev first_try :
      (token : String) (now : ℕ) (expected_type : String)
      → Option String
      → Result AuthError TokenClaims
      → Result AuthError TokenClaims
  first_try token now expected_type previous (ok claims) = ok claims
  first_try token now expected_type previous (err e) = second_try token now expected_type e previous

  unfoldable pub verify_token :
      (secret : String) (previous_secret : Option String) (token : String) (now : ℕ)
      (expected_type : String)
      → Result AuthError TokenClaims
  verify_token secret previous_secret token now expected_type =
      first_try token now expected_type previous_secret
        (verify_with_secret token now expected_type secret)
