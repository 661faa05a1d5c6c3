-- ===== src/Auth/Reach.antt =====
-- What the operations on accounts can lead to, in any order, each by any service at any time.
use evorule_rule.Prelude.{ℕ, String, Bool, Option, ◌≡◌, ok}
use evorule_rule.Model.Auth.{Role, Tenant, Org, AuthAudit, ApiKey}
use evorule_rule.Accounts.State.{Accounts}
use evorule_rule.Accounts.Users.{ensure_default_tenant, set_user_disabled}
use evorule_rule.Accounts.Orgs.{ensure_default_org, create_org, upsert_user_org_role}
use evorule_rule.Accounts.Tokens.{record_auth_audit, create_api_key, revoke_api_key}
use evorule_rule.Accounts.Growth.{
  Extends, Extends-refl, Extends-trans, ensure_default_tenant-Extends, ensure_default_org-Extends,
  create_org-Extends, set_user_disabled-Extends, upsert_user_org_role-Extends,
  record_auth_audit-Extends, create_api_key-Extends, revoke_api_key-Extends,
}
use evorule_rule.Auth.Flow.{Host}
use evorule_rule.Auth.Service.{Crates, AuthService, register, login}
use evorule_rule.Auth.Session.{refresh, logout}
use evorule_rule.Auth.Service.Growth.{register-Grows, login-Grows}
use evorule_rule.Auth.Session.Growth.{refresh-Grows, logout-Grows}
use evorule_rule.Auth.Flow.Growth.{Grows}

-- One operation on the tables alone.
pub data Change : Accounts → Accounts → Type 0 where
  tenant_ensured :
      {s t : Accounts} {tenant : Tenant} (id name instance_id at : String)
      → ensure_default_tenant id name instance_id at s ≡ ok (tenant, t)
      → Change s t
  org_ensured :
      {s t : Accounts} {org : Org} (id name at : String)
      → ensure_default_org id name at s ≡ ok (org, t)
      → Change s t
  org_created : {s t : Accounts} (org : Org) → create_org org s ≡ ok t → Change s t
  disabled_set :
      {s : Accounts} (id : String) (disabled : Bool) (at : String)
      → Change s (set_user_disabled id disabled at s)
  role_assigned :
      {s t : Accounts} (org user : String) (role : Role) (at : String)
      → upsert_user_org_role org user role at s ≡ ok t
      → Change s t
  audited : {s t : Accounts} (audit : AuthAudit) → record_auth_audit audit s ≡ ok t → Change s t
  key_created : {s t : Accounts} (key : ApiKey) → create_api_key key s ≡ ok t → Change s t
  key_revoked :
      {s : Accounts} (tenant key at : String) → Change s (revoke_api_key tenant key at s).1

-- One operation on the accounts of a host. A method that fails may have written its audit row.
pub data Step (crates : Crates) : Host → Host → Type 0 where
  changes :
      {h : Host} {t : Accounts} → Change h.accounts t → Step crates h (record h { accounts = t })
  registers :
      {h : Host} (service : AuthService) (tenant username password : String) (role : Role) (now : ℕ)
      → Step crates h (register crates service tenant username password role now h).1
  logs_in :
      {h : Host} (service : AuthService) (tenant username password : String) (now : ℕ)
      → Step crates h (login crates service tenant username password now h).1
  refreshes :
      {h : Host} (service : AuthService) (tenant token : String) (now : ℕ)
      → Step crates h (refresh crates service tenant token now h).1
  logs_out :
      {h : Host} (service : AuthService) (token : String) (access : Option String) (now : ℕ)
      → Step crates h (logout crates service token access now h).1

-- Any number of operations, one after the other.
pub data Later (crates : Crates) : Host → Host → Type 0 where
  here : {h : Host} → Later crates h h
  next : {h k l : Host} → Later crates h k → Step crates k l → Later crates h l

Change-Extends : {s t : Accounts} → Change s t → Extends s t
Change-Extends (tenant_ensured id name i at e) = ensure_default_tenant-Extends id name i at _ _ _ e
Change-Extends (org_ensured id name at e) = ensure_default_org-Extends id name at _ _ _ e
Change-Extends (org_created org e) = create_org-Extends org _ _ e
Change-Extends (disabled_set id disabled at) = set_user_disabled-Extends id disabled at _
Change-Extends (role_assigned org user role at e) =
    upsert_user_org_role-Extends org user role at _ _ e
Change-Extends (audited audit e) = record_auth_audit-Extends audit _ _ e
Change-Extends (key_created key e) = create_api_key-Extends key _ _ e
Change-Extends (key_revoked tenant key at) = revoke_api_key-Extends tenant key at _

module _ (crates : Crates) where
  Step-Extends : {h k : Host} → Step crates h k → Extends h.accounts k.accounts
  unfolding Grows
  Step-Extends (changes c) = Change-Extends c
  Step-Extends {h = h} (registers service tenant username password role now) =
      register-Grows crates service tenant username password role now h
  Step-Extends {h = h} (logs_in service tenant username password now) =
      login-Grows crates service tenant username password now h
  Step-Extends {h = h} (refreshes service tenant token now) =
      refresh-Grows crates service tenant token now h
  Step-Extends {h = h} (logs_out service token access now) =
      logout-Grows crates service token access now h

  -- Whatever operations on the accounts follow one another, the rows of the audit log and the
  -- revocations that were there are there still, in their order, and new ones come after them.
  pub Later-Extends : {h k : Host} → Later crates h k → Extends h.accounts k.accounts
  Later-Extends {h = h} here = Extends-refl h.accounts
  Later-Extends (next later step) = Extends-trans (Later-Extends later) (Step-Extends step)
