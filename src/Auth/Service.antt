-- ===== src/Auth/Service.antt =====
-- The flows of src/auth/mod.rs: register and login.
pub mod Growth
pub mod Login
pub mod Granted
use Prim.Native.String.{◌++◌}
use evorule_rule.Prelude.{
  ℕ, suc, ◌+◌, String, Bool, true, false, not, Option, none, some, List, Result, ok, err, ok_or,
  is_some, is_none, leb, length, str_eq, if◌then◌else◌,
}
use evorule_rule.Model.Auth.{Role, User, AuthAudit, TokenClaims}
use evorule_rule.KeyRing.{AuthError, verify_token}
use evorule_rule.Accounts.State.{Accounts}
use evorule_rule.Accounts.Users.{
  get_tenant, create_user, get_user, get_user_by_username, get_user_by_username_any,
  update_user_password_hash,
}
use evorule_rule.Accounts.Orgs.{get_org, upsert_user_org_role, get_user_org_role}
use evorule_rule.Accounts.Tokens.{record_auth_audit, revoke_token, is_token_revoked}
use evorule_rule.Auth.Digest.{as_bytes, hex}
use evorule_rule.Auth.Password.{Hashes, hash_password, verify_password, needs_rehash}
use evorule_rule.Auth.Token.{
  Encoding, jwt, issue_access_token_in, issue_refresh_token_in, access_ttl_secs, refresh_ttl_secs,
}
use evorule_rule.Auth.Clock.{iso_from_unix}
use evorule_rule.Auth.Flow.{
  Host, Flow, pure, fail, from, read, try_read, ◌>>=◌, ◌>>◌, check, refuse_if, when, write,
  try_write, lenient_write,
}

pub record AuthTokens : Type 0 where
  pub access_token : String
  pub refresh_token : String
  pub access_expires_at : ℕ
  pub refresh_expires_at : ℕ

pub record AuthService : Type 0 where
  pub secret : String
  pub previous_secret : Option String
  pub pbkdf2_iterations : ℕ

-- The crates of a service, with the random bytes of the draws.
pub record Crates : Type 0 where
  pub encoding : Encoding
  pub argon2id : (password salt : List ℕ) → List ℕ
  pub random : ℕ → List ℕ

module _ (crates : Crates) where
  abbrev pub hashes : Hashes
  hashes = record { sha256 = crates.encoding.sha256; argon2id = crates.argon2id }

  -- `uuidish`, and `generate_salt`, which is the same.
  unfoldable pub uuidish : Flow String
  uuidish h = (ok (hex (crates.random h.drawn)), record h { drawn = suc h.drawn })

  -- A row that cannot be written is only logged.
  unfoldable pub record_audit :
      (tenant_id : String) (user_id : Option String) (action outcome : String)
      (detail : Option String) (created_at : String)
      → Flow (Unit {0})
  record_audit tenant_id user_id action outcome detail created_at = do
    id ← uuidish
    lenient_write (
        record_auth_audit (record {
          audit_id = "aa_" ++ id;
          action = action;
          user_id = user_id;
          tenant_id = tenant_id;
          outcome = outcome;
          detail = detail;
          created_at = created_at;
        }))

  -- The role of a member, else the role of the user in the organisation of the account.
  abbrev pub member_role : String → User → Option Role → Result AuthError Role
  member_role org_id user (some role) = ok role
  member_role org_id user none =
      if str_eq user.tenant_id org_id then ok user.role else err AuthError.not_org_member

  unfoldable pub effective_role : User → (org_id : String) → Accounts → Result AuthError Role
  effective_role user org_id s = member_role org_id user (get_user_org_role org_id user.user_id s)

  module _ (service : AuthService) where
    unfoldable pub tokens_for_in : User → (org_id : String) → Role → (now : ℕ) → Flow AuthTokens
    unfolding issue_access_token_in issue_refresh_token_in
    tokens_for_in user org_id role now = do
      access ← uuidish
      refresh ← uuidish
      pure (record {
        access_token =
            issue_access_token_in crates.encoding service.secret user org_id role now access;
        refresh_token =
            issue_refresh_token_in crates.encoding service.secret user org_id role now refresh;
        access_expires_at = now + access_ttl_secs;
        refresh_expires_at = now + refresh_ttl_secs;
      })

    abbrev pub enrol : User → (now : ℕ) → Flow User
    enrol user now = do
      try_write (create_user user)
      try_write (upsert_user_org_role user.tenant_id user.user_id user.role (iso_from_unix now))
      record_audit user.tenant_id (some user.user_id) "register" "success" none (iso_from_unix now)
      pure user

    unfoldable pub register : (tenant_id username password : String) → Role → (now : ℕ) → Flow User
    register tenant_id username password role now = do
      tenant ← read (get_tenant tenant_id)
      check (is_some tenant) AuthError.tenant_not_found
      org ← read (get_org tenant_id)
      check (is_some org) AuthError.org_not_found
      taken ← try_read (get_user_by_username_any username)
      check (is_none taken) AuthError.username_taken
      check (leb 8 (length (as_bytes password))) AuthError.invalid_credentials
      salt ← uuidish
      id ← uuidish
      enrol
          (record {
            user_id = "usr_" ++ id;
            tenant_id = tenant_id;
            username = username;
            password_hash = hash_password hashes password salt;
            salt = salt;
            role = role;
            disabled = false;
            created_at = iso_from_unix now;
            updated_at = iso_from_unix now;
          })
          now

    -- The audit row of a refused or a successful attempt.
    abbrev pub failed :
        (tenant_id : String) (user_id : Option String) (action detail : String) (now : ℕ)
        → Flow (Unit {0})
    failed tenant_id user_id action detail now =
        record_audit tenant_id user_id action "failure" (some detail) (iso_from_unix now)

    abbrev pub succeeded : (tenant_id user_id action : String) (now : ℕ) → Flow (Unit {0})
    succeeded tenant_id user_id action now =
        record_audit tenant_id (some user_id) action "success" none (iso_from_unix now)

    abbrev pub or_unknown : (tenant_id : String) (now : ℕ) → Option User → Flow User
    or_unknown tenant_id now (some user) = pure user
    or_unknown tenant_id now none = do
      failed tenant_id none "login" "user not found" now
      fail AuthError.invalid_credentials

    -- The user of that name in the organisation, or the one user of that name.
    abbrev pub resolve : (tenant_id username : String) (now : ℕ) → Option User → Flow User
    resolve tenant_id username now (some user) = pure user
    resolve tenant_id username now none = do
      anywhere ← try_read (get_user_by_username_any username)
      or_unknown tenant_id now anywhere

    -- An old hash becomes a new one under the same salt.
    abbrev pub migrate : User → (password : String) (now : ℕ) → Flow (Unit {0})
    migrate user password now = when (needs_rehash user.password_hash) (
        write (
          update_user_password_hash user.user_id (hash_password hashes password user.salt)
            (iso_from_unix now)))

    abbrev pub grant : User → (org_id action : String) → Role → (now : ℕ) → Flow AuthTokens
    grant user org_id action role now = do
      tokens ← tokens_for_in user org_id role now
      succeeded org_id user.user_id action now
      pure tokens

    abbrev pub verified : (password : String) → User → Bool
    verified password user =
        verify_password hashes service.pbkdf2_iterations password user.salt user.password_hash

    unfoldable pub login : (tenant_id username password : String) (now : ℕ) → Flow AuthTokens
    unfolding tokens_for_in
    login tenant_id username password now = do
      tenant ← read (get_tenant tenant_id)
      check (is_some tenant) AuthError.tenant_not_found
      found ← read (get_org tenant_id)
      org ← from (ok_or found AuthError.org_not_found)
      refuse_if org.disabled (failed tenant_id none "login" "org disabled" now)
          AuthError.org_disabled
      named ← read (get_user_by_username tenant_id username)
      user ← resolve tenant_id username now named
      refuse_if user.disabled (failed tenant_id (some user.user_id) "login" "disabled" now)
          AuthError.user_disabled
      refuse_if (not (verified password user))
          (failed tenant_id (some user.user_id) "login" "bad password" now)
          AuthError.invalid_credentials
      migrate user password now
      role ← read (effective_role user tenant_id)
      granted ← from role
      grant user tenant_id "login" granted now
