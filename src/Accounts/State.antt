-- ===== src/Accounts/State.antt =====
-- The tables of accounts in src/store/mod.rs (`init_schema`), in the order of insertion.
use evorule_rule.Prelude.{ℕ, String, Option, List, []}
use evorule_rule.Model.Auth.{Tenant, Org, User, AuthAudit, ApiKey}

-- `user_org_memberships`: the role is the text that `Role::as_str` writes.
pub record Membership : Type 0 where
  pub user_id : String
  pub org_id : String
  pub role : String
  pub created_at : String

-- `revoked_tokens`.
pub record RevokedToken : Type 0 where
  pub jti : String
  pub tenant_id : String
  pub user_id : Option String
  pub token_type : String
  pub expires_at : ℕ
  pub revoked_at : String

-- The column `users.role` is written by `Role::as_str` and read by `Role::parse`, which undoes it:
-- a row is the user.
pub record Accounts : Type 0 where
  pub tenants : List Tenant
  pub users : List User
  pub auth_audits : List AuthAudit
  pub orgs : List Org
  pub memberships : List Membership
  pub revoked_tokens : List RevokedToken
  pub api_keys : List ApiKey

abbrev pub no_accounts : Accounts
no_accounts = record {
  tenants = [];
  users = [];
  auth_audits = [];
  orgs = [];
  memberships = [];
  revoked_tokens = [];
  api_keys = [];
}
