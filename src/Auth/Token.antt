-- ===== src/Auth/Token.antt =====
-- The tokens of src/auth/mod.rs: three parts in base64, the last of which is an HMAC of the others.
pub mod Issued
use Prim.Native.Char.{Char, code}
use Prim.Native.String.{◌++◌}
use Prim.Native.String
use evorule_rule.Prelude.{
  ℕ, ◌+◌, ◌*◌, String, Bool, true, false, Option, none, some, List, [], ◌∷◌, Result, ok, err,
  map_err, ◌>>=◌, ◌==◌, if◌then◌else◌,
}
use evorule_rule.Model.Auth.{Role, as_str, User, TokenClaims}
use evorule_rule.KeyRing.{Jwt}
use evorule_rule.Auth.Digest.{as_bytes, hmac_sha256}
use evorule_rule.Auth.Password.{bytes_eq}

-- The crates: `sha2`, `base64` (`URL_SAFE_NO_PAD`) and `serde_json`, whose errors are texts.
pub record Encoding : Type 0 where
  pub sha256 : List ℕ → List ℕ
  pub encode : List ℕ → String
  pub decode : String → Option (List ℕ)
  pub header : List ℕ
  pub to_vec : TokenClaims → List ℕ
  pub from_slice : List ℕ → Result String TokenClaims

-- `split('.')`: a text without a dot is its one part.
abbrev to_first : Char → List String → List String
to_first c [] = String.◌∷◌ c String.[] ∷ []
to_first c (p ∷ ps) = String.◌∷◌ c p ∷ ps

abbrev pub split : String → List String
split String.[] = String.[] ∷ []
split (String.◌∷◌ c s) =
    let rest = split s in if code c == 46 then String.[] ∷ rest else to_first c rest

abbrev pub access_ttl_secs : ℕ
access_ttl_secs = 15 * 60

abbrev pub refresh_ttl_secs : ℕ
refresh_ttl_secs = 30 * 24 * 60 * 60

module _ (e : Encoding) where
  abbrev pub signature : (secret header payload : String) → List ℕ
  signature secret header payload =
      hmac_sha256 e.sha256 (as_bytes secret) (as_bytes (header ++ "." ++ payload))

  unfoldable pub sign : (secret : String) → TokenClaims → String
  sign secret claims =
      let header = e.encode e.header in
      let payload = e.encode (e.to_vec claims) in
      (header ++ "." ++ payload) ++ "." ++ e.encode (signature secret header payload)

  abbrev given : List ℕ → Option (List ℕ) → Bool
  given expected none = false
  given expected (some decoded) = bytes_eq expected decoded

  abbrev signed_parts : (secret : String) → List String → Bool
  signed_parts secret (h ∷ (p ∷ (s ∷ []))) = given (signature secret h p) (e.decode s)
  signed_parts secret _ = false

  abbrev parsed : Option (List ℕ) → Option (Result String TokenClaims)
  parsed none = none
  parsed (some bytes) = some (e.from_slice bytes)

  abbrev payload_of : List String → Option (Result String TokenClaims)
  payload_of (h ∷ (p ∷ (s ∷ []))) = parsed (e.decode p)
  payload_of _ = none

  -- The two readings of a token in `verify_with_secret`.
  abbrev pub jwt : Jwt
  jwt = record {
    signed = λ token secret. signed_parts secret (split token);
    payload = λ token. payload_of (split token);
  }

  abbrev pub claims_for : User → String → Role → ℕ → String → ℕ → String → TokenClaims
  claims_for user org_id role now token_type ttl jti = record {
    sub = user.user_id;
    tenant_id = org_id;
    role = as_str role;
    token_type = token_type;
    iat = now;
    exp = now + ttl;
    jti = jti;
  }

  -- `jti` is the identifier that `uuidish` draws.
  unfoldable pub issue_access_token_in :
      (secret : String) → User → (org_id : String) → Role → (now : ℕ) (jti : String) → String
  unfolding sign
  issue_access_token_in secret user org_id role now jti =
      sign secret (claims_for user org_id role now "access" access_ttl_secs jti)

  unfoldable pub issue_refresh_token_in :
      (secret : String) → User → (org_id : String) → Role → (now : ℕ) (jti : String) → String
  unfolding sign
  issue_refresh_token_in secret user org_id role now jti =
      sign secret (claims_for user org_id role now "refresh" refresh_ttl_secs jti)

  unfoldable issue_access_token : (secret : String) → User → (now : ℕ) (jti : String) → String
  unfolding issue_access_token_in
  issue_access_token secret user now jti =
      issue_access_token_in secret user user.tenant_id user.role now jti

  unfoldable issue_refresh_token : (secret : String) → User → (now : ℕ) (jti : String) → String
  unfolding issue_refresh_token_in
  issue_refresh_token secret user now jti =
      issue_refresh_token_in secret user user.tenant_id user.role now jti
