-- ===== src/Auth/Service/Growth.antt =====
-- Registration and login only add to the audit log, and revoke nothing that was valid before.
use evorule_rule.Prelude.{ℕ, String, Option, none, some}
use evorule_rule.Model.Auth.{Role, User}
use evorule_rule.Accounts.Growth.{
  update_user_password_hash-Extends, create_user-Extends, upsert_user_org_role-Extends,
  record_auth_audit-Extends,
}
use evorule_rule.Auth.Flow.Growth.{Grows, growth, when-Grows, write-Grows}
use evorule_rule.Accounts.Growth.{Extends-refl}
use evorule_rule.Auth.Service.{
  Crates, AuthService, uuidish, record_audit, tokens_for_in, enrol, register, login, resolve,
  or_unknown, grant, migrate,
}

module _ (crates : Crates) where
  pub uuidish-Grows : Grows (uuidish crates)
  unfolding uuidish Grows
  uuidish-Grows h = Extends-refl h.accounts

  pub record_audit-Grows :
      (tenant : String) (user : Option String) (action outcome : String) (detail : Option String)
      (at : String)
      → Grows (record_audit crates tenant user action outcome detail at)
  unfolding record_audit
  record_audit-Grows tenant user action outcome detail at =
      search (growth, uuidish-Grows, record_auth_audit-Extends)

  module _ (service : AuthService) where
    pub tokens_for_in-Grows :
        (user : User) (org : String) (role : Role) (now : ℕ)
        → Grows (tokens_for_in crates service user org role now)
    unfolding tokens_for_in
    tokens_for_in-Grows user org role now = search (growth, uuidish-Grows)

    pub grant-Grows :
        (user : User) (org action : String) (role : Role) (now : ℕ)
        → Grows (grant crates service user org action role now)
    grant-Grows user org action role now = search (growth, tokens_for_in-Grows, record_audit-Grows)

    enrol-Grows : (user : User) (now : ℕ) → Grows (enrol crates service user now)
    enrol-Grows user now =
        search (growth, record_audit-Grows, create_user-Extends, upsert_user_org_role-Extends) depth
          12

    pub register-Grows :
        (tenant username password : String) (role : Role) (now : ℕ)
        → Grows (register crates service tenant username password role now)
    unfolding register
    register-Grows tenant username password role now =
        search (growth, uuidish-Grows, enrol-Grows) depth 12 fits 4000

    resolve-Grows :
        (tenant username : String) (now : ℕ) (o : Option User)
        → Grows (resolve crates service tenant username now o)
    resolve-Grows tenant username now (some user) = search growth
    resolve-Grows tenant username now none = search (growth, or_unknown-Grows) depth 12
      where
        or_unknown-Grows : (o : Option User) → Grows (or_unknown crates service tenant now o)
        or_unknown-Grows (some user) = search growth
        or_unknown-Grows none = search (growth, record_audit-Grows) depth 12

    -- Only the users change where an old hash is replaced.
    migrate-Grows :
        (user : User) (password : String) (now : ℕ)
        → Grows (migrate crates service user password now)
    migrate-Grows user password now =
        when-Grows _ _ (write-Grows _ (λ s. update_user_password_hash-Extends user.user_id _ _ s))

    pub login-Grows :
        (tenant username password : String) (now : ℕ)
        → Grows (login crates service tenant username password now)
    unfolding login
    login-Grows tenant username password now =
        search (growth, record_audit-Grows, resolve-Grows, migrate-Grows, grant-Grows) depth 14 fits
          4000
