-- ===== src/Accounts/Users.antt =====
-- The operations of src/store/mod.rs on tenants and users. The insertion of a user fails on the
-- constraints of its table, which are tried in the order of the schema.
use evorule_rule.Prelude.{
  String, Bool, not, ◌&&◌, Option, none, some, List, [], ◌∷◌, ◌++◌, Result, ok, err, ◌>>=◌, ◌>>◌,
  guard, ok_or, str_eq, any, find, select, update, if◌then◌else◌,
}
use evorule_rule.Model.Auth.{Tenant, User}
use evorule_rule.Store.State.{StoreError, sqlite, tenant_not_found, username_ambiguous}
use evorule_rule.Accounts.State.{Accounts}

abbrev pub is_tenant : String → Tenant → Bool
is_tenant id t = str_eq t.tenant_id id

unfoldable pub get_tenant : String → Accounts → Option Tenant
get_tenant id s = find (is_tenant id) s.tenants

-- `INSERT OR IGNORE`, and the row that is there then.
unfoldable pub ensure_default_tenant :
    (tenant_id name instance_id created_at : String)
    → Accounts
    → Result StoreError (Tenant × Accounts)
unfolding get_tenant
ensure_default_tenant tenant_id name instance_id created_at s =
    let row : Tenant = record {
      tenant_id = tenant_id;
      name = name;
      instance_id = instance_id;
      created_at = created_at;
    } in
    let t : Accounts =
      if any (is_tenant tenant_id) s.tenants
      then s
      else record s { tenants = s.tenants ++ row ∷ [] } in
    do tenant ← ok_or (get_tenant tenant_id t) (tenant_not_found tenant_id); ok (tenant, t)

abbrev pub is_user : String → User → Bool
is_user id u = str_eq u.user_id id

abbrev pub is_named : String → User → Bool
is_named name u = str_eq u.username name

abbrev pub is_named_in : String → String → User → Bool
is_named_in tenant name u = str_eq u.tenant_id tenant && str_eq u.username name

unfoldable pub create_user : User → Accounts → Result StoreError Accounts
create_user user s = do
  guard (not (any (is_user user.user_id) s.users))
      (sqlite "UNIQUE constraint failed: users.user_id")
  guard (not (any (is_named_in user.tenant_id user.username) s.users))
      (sqlite "UNIQUE constraint failed: users.tenant_id, users.username")
  guard (any (is_tenant user.tenant_id) s.tenants) (sqlite "FOREIGN KEY constraint failed")
  ok (record s { users = s.users ++ user ∷ [] })

unfoldable pub get_user_by_username : String → String → Accounts → Option User
get_user_by_username tenant name s = find (is_named_in tenant name) s.users

unfoldable pub get_user : String → Accounts → Option User
get_user id s = find (is_user id) s.users

unfoldable pub set_user_disabled : String → Bool → String → Accounts → Accounts
set_user_disabled id disabled at s = record s {
  users = update (is_user id) (λ u. record u { disabled = disabled; updated_at = at }) s.users;
}

unfoldable pub update_user_password_hash : String → String → String → Accounts → Accounts
update_user_password_hash id hash at s = record s {
  users = update (is_user id) (λ u. record u { password_hash = hash; updated_at = at }) s.users;
}

-- A name that two rows carry names nobody.
abbrev only : String → List User → Result StoreError (Option User)
only name [] = ok none
only name (u ∷ []) = ok (some u)
only name (u ∷ (v ∷ rest)) = err (username_ambiguous name)

unfoldable pub get_user_by_username_any : String → Accounts → Result StoreError (Option User)
get_user_by_username_any name s = only name (select (is_named name) s.users)
