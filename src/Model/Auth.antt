-- ===== src/Model/Auth.antt =====
-- src/model/auth.rs: roles, the actions that they allow, users, audits and token claims.
pub mod Ranks
mod Tests
use evorule_rule.Prelude.{ℕ, String, Bool, Option, none, some, leb, str_eq, if◌then◌else◌}

pub data Role : Type 0 where
  viewer rule_engineer approver admin platform_admin : Role

-- `role as u8`.
abbrev pub rank : Role → ℕ
rank viewer = 1
rank rule_engineer = 2
rank approver = 3
rank admin = 4
rank platform_admin = 5

abbrev pub as_str : Role → String
as_str viewer = "viewer"
as_str rule_engineer = "rule_engineer"
as_str approver = "approver"
as_str admin = "admin"
as_str platform_admin = "platform_admin"

unfoldable pub parse : String → Option Role
parse s =
    if str_eq s "viewer"
    then some viewer
    else if str_eq s "rule_engineer"
    then some rule_engineer
    else if str_eq s "approver"
    then some approver
    else if str_eq s "admin"
    then some admin
    else if str_eq s "platform_admin"
    then some platform_admin
    else none

pub data Action : Type 0 where
  view create edit test approve publish admin manage_orgs : Action

unfoldable pub required_rank : Action → ℕ
required_rank view = rank viewer
required_rank create = rank rule_engineer
required_rank edit = rank rule_engineer
required_rank test = rank rule_engineer
required_rank approve = rank approver
required_rank publish = rank approver
required_rank admin = rank Role.admin
required_rank manage_orgs = rank platform_admin

unfoldable pub can : Role → Action → Bool
unfolding required_rank
can role action = leb (required_rank action) (rank role)

unfoldable pub is_org_admin : Role → Bool
is_org_admin role = leb (rank admin) (rank role)

pub record Tenant : Type 0 where
  pub tenant_id : String
  pub name : String
  pub instance_id : String
  pub created_at : String

pub record Org : Type 0 where
  pub org_id : String
  pub name : String
  pub disabled : Bool
  pub created_at : String

pub record UserOrg : Type 0 where
  pub org_id : String
  pub user_id : String
  pub role : Role
  pub created_at : String

pub record User : Type 0 where
  pub user_id : String
  pub tenant_id : String
  pub username : String
  pub password_hash : String
  pub salt : String
  pub role : Role
  pub disabled : Bool
  pub created_at : String
  pub updated_at : String

pub record AuthAudit : Type 0 where
  pub audit_id : String
  pub action : String
  pub user_id : Option String
  pub tenant_id : String
  pub outcome : String
  pub detail : Option String
  pub created_at : String

-- Times are unix seconds, not negative.
pub record TokenClaims : Type 0 where
  pub sub : String
  pub tenant_id : String
  pub role : String
  pub token_type : String
  pub iat : ℕ
  pub exp : ℕ
  pub jti : String

-- A key for programs; only its hash is kept.
pub record ApiKey : Type 0 where
  pub key_id : String
  pub tenant_id : String
  pub name : String
  pub scope : String
  pub key_hash : String
  pub created_at : String
  pub revoked_at : Option String
