-- ===== src/Accounts/Orgs.antt =====
-- The operations of src/store/mod.rs on organisations and the roles of their members.
use evorule_rule.Prelude.{
  String, Bool, false, not, ◌&&◌, Option, none, some, List, [], ◌∷◌, ◌++◌, Result, ok, ◌>>=◌, ◌>>◌,
  guard, ok_or, str_eq, any, find, update, if◌then◌else◌,
}
use evorule_rule.Model.Auth.{Org, Role, as_str, parse}
use evorule_rule.Store.State.{StoreError, org_not_found, org_already_exists, user_not_found}
use evorule_rule.Accounts.State.{Accounts, Membership}
use evorule_rule.Accounts.Users.{is_user}

abbrev pub is_org : String → Org → Bool
is_org id o = str_eq o.org_id id

unfoldable pub get_org : String → Accounts → Option Org
get_org id s = find (is_org id) s.orgs

unfoldable pub ensure_default_org :
    (org_id name created_at : String) → Accounts → Result StoreError (Org × Accounts)
unfolding get_org
ensure_default_org org_id name created_at s =
    let row : Org = record {
      org_id = org_id;
      name = name;
      disabled = false;
      created_at = created_at;
    } in
    let t : Accounts =
      if any (is_org org_id) s.orgs then s else record s { orgs = s.orgs ++ row ∷ [] } in
    do org ← ok_or (get_org org_id t) (org_not_found org_id); ok (org, t)

-- `ON CONFLICT DO NOTHING`, where no row written is the error.
unfoldable pub create_org : Org → Accounts → Result StoreError Accounts
create_org org s = do
  guard (not (any (is_org org.org_id) s.orgs)) (org_already_exists org.org_id)
  ok (record s { orgs = s.orgs ++ org ∷ [] })

abbrev pub is_member : String → String → Membership → Bool
is_member user org m = str_eq m.user_id user && str_eq m.org_id org

-- `ON CONFLICT(user_id, org_id) DO UPDATE SET role`: the time of the first assignment stays.
abbrev pub put_member : String → String → Role → String → List Membership → List Membership
put_member org user role at ms =
    if any (is_member user org) ms
    then update (is_member user org) (λ m. record m { role = as_str role }) ms
    else ms ++ record { user_id = user; org_id = org; role = as_str role; created_at = at } ∷ []

unfoldable pub upsert_user_org_role :
    (org user : String) → Role → (at : String) → Accounts → Result StoreError Accounts
upsert_user_org_role org user role at s = do
  guard (any (is_user user) s.users) (user_not_found user)
  ok (record s { memberships = put_member org user role at s.memberships })

abbrev role_of : Option Membership → Option Role
role_of none = none
role_of (some m) = parse m.role

unfoldable pub get_user_org_role : (org user : String) → Accounts → Option Role
get_user_org_role org user s = role_of (find (is_member user org) s.memberships)
