-- ===== src/Accounts/Growth.antt =====
-- Two tables of accounts only grow: the audit log and the revoked tokens.
use mathlib.Core.List.{append-nil, append_assoc}
use evorule_rule.Prelude.{
  ℕ, ◌+◌, ◌<◌, String, Bool, true, false, ◌≡◌, refl, sym, ap, ◌∙◌, inl, inr, Option, List, [], ◌∷◌,
  ◌++◌, ok, arith, Bool-cases, any, count, str_eq_refl,
}
use evorule_rule.Model.Auth.{AuthAudit, User, Role, Tenant, Org, ApiKey}
use evorule_rule.Accounts.State.{Accounts, RevokedToken}
use evorule_rule.Accounts.Users.{
  ensure_default_tenant, create_user, set_user_disabled, update_user_password_hash,
}
use evorule_rule.Accounts.Orgs.{upsert_user_org_role, ensure_default_org, create_org}
use evorule_rule.Accounts.Tokens.{
  create_api_key, revoke_api_key, record_auth_audit, has_jti, revoke_token, blocks,
  is_token_revoked,
}

-- A table that continues another.
IsPrefix : {A : Type 0} → List A → List A → Type 0
IsPrefix xs ys = (new : List _) × (ys ≡ xs ++ new)

IsPrefix-trans : {A : Type 0} (xs ys zs : List A) → IsPrefix xs ys → IsPrefix ys zs → IsPrefix xs zs
unfolding IsPrefix
IsPrefix-trans xs ys zs (a, p) (b, q) = (a ++ b, q ∙ ap (λ l. l ++ b) p ∙ append_assoc xs a b)

-- The rows of the audit log and the revocations that were there are there still, in their order,
-- and new ones come after them.
pub record Extends (s t : Accounts) : Type 0 where
  pub audits : (new : List AuthAudit) × (t.auth_audits ≡ s.auth_audits ++ new)
  pub revocations : (new : List RevokedToken) × (t.revoked_tokens ≡ s.revoked_tokens ++ new)

pub Extends-trans : {s t u : Accounts} → Extends s t → Extends t u → Extends s u
unfolding IsPrefix
Extends-trans {s = s} {t = t} {u = u} a b = record {
  audits = IsPrefix-trans s.auth_audits t.auth_audits u.auth_audits a.audits b.audits;
  revocations =
      IsPrefix-trans s.revoked_tokens t.revoked_tokens u.revoked_tokens a.revocations b.revocations;
}

-- An operation on other tables.
pub Extends-same :
    {s t : Accounts}
    → t.auth_audits ≡ s.auth_audits
    → t.revoked_tokens ≡ s.revoked_tokens
    → Extends s t
Extends-same {s = s} a r = record {
  audits = ([], a ∙ sym (append-nil s.auth_audits));
  revocations = ([], r ∙ sym (append-nil s.revoked_tokens));
}

pub Extends-refl : (s : Accounts) → Extends s s
Extends-refl s = Extends-same refl refl

pub create_user-Extends : (u : User) (s t : Accounts) → create_user u s ≡ ok t → Extends s t
unfolding create_user
create_user-Extends u s t h = Extends-same (ground (arith, h)) (ground (arith, h))

pub set_user_disabled-Extends :
    (id : String) (disabled : Bool) (at : String) (s : Accounts)
    → Extends s (set_user_disabled id disabled at s)
unfolding set_user_disabled
set_user_disabled-Extends id disabled at s = Extends-same refl refl

pub update_user_password_hash-Extends :
    (id hash at : String) (s : Accounts) → Extends s (update_user_password_hash id hash at s)
unfolding update_user_password_hash
update_user_password_hash-Extends id hash at s = Extends-same refl refl

pub upsert_user_org_role-Extends :
    (org user : String) (role : Role) (at : String) (s t : Accounts)
    → upsert_user_org_role org user role at s ≡ ok t
    → Extends s t
unfolding upsert_user_org_role
upsert_user_org_role-Extends org user role at s t h =
    Extends-same (ground (arith, h)) (ground (arith, h))

pub record_auth_audit-Extends :
    (a : AuthAudit) (s t : Accounts) → record_auth_audit a s ≡ ok t → Extends s t
unfolding record_auth_audit
record_auth_audit-Extends a s t h = record {
  audits = (a ∷ [], ground (arith, h));
  revocations = ([], ground (arith, h, append-nil s.revoked_tokens));
}

pub revoke_token-Extends :
    (jti tenant : String) (user : Option String) (kind : String) (exp : ℕ) (at : String)
    (s : Accounts)
    → Extends s (revoke_token jti tenant user kind exp at s)
unfolding revoke_token
revoke_token-Extends jti tenant user kind exp at s =
    elim (Bool-cases (any (has_jti jti) s.revoked_tokens)) [
      | inl e ↦ Extends-same (ground (arith, e)) (ground (arith, e))
      | inr e ↦ record {
        audits = ([], ground (arith, e, append-nil s.auth_audits));
        revocations = (
          record {
            jti = jti;
            tenant_id = tenant;
            user_id = user;
            token_type = kind;
            expires_at = exp;
            revoked_at = at;
          }
              ∷ [],
          ground (arith, e),
        );
      }
    ]

count-append :
    {A : Type 0} (p : A → Bool) (xs ys : List A) → count p (xs ++ ys) ≡ count p xs + count p ys
count-append p [] ys = omega arith
count-append p (x ∷ xs) ys = ground (arith, count-append p xs ys)

-- A token that is revoked stays so, as long as its revocation counts.
pub Extends-revoked :
    (jti : String) (now : ℕ) {s t : Accounts}
    → Extends s t
    → is_token_revoked jti now s ≡ true
    → is_token_revoked jti now t ≡ true
unfolding is_token_revoked
Extends-revoked jti now {s = s} {t = t} e h =
    let more = ap (count (blocks jti now)) e.revocations.1 in
    ground (arith, more, h, count-append (blocks jti now) s.revoked_tokens e.revocations.0)

-- A jti that no row names is revoked until the time given.
pub revoke_token-revoked :
    (jti tenant : String) (user : Option String) (kind : String) (exp now : ℕ) (at : String)
    (s : Accounts)
    → any (has_jti jti) s.revoked_tokens ≡ false
    → now < exp
    → is_token_revoked jti now (revoke_token jti tenant user kind exp at s) ≡ true
unfolding revoke_token is_token_revoked
revoke_token-revoked jti tenant user kind exp now at s n l =
    let row : RevokedToken = record {
      jti = jti;
      tenant_id = tenant;
      user_id = user;
      token_type = kind;
      expires_at = exp;
      revoked_at = at;
    } in
    ground (arith, n, l, str_eq_refl jti, count-append (blocks jti now) s.revoked_tokens (row ∷ []))

pub ensure_default_tenant-Extends :
    (id name instance_id at : String) (s t : Accounts) (tenant : Tenant)
    → ensure_default_tenant id name instance_id at s ≡ ok (tenant, t)
    → Extends s t
unfolding ensure_default_tenant
ensure_default_tenant-Extends id name instance_id at s t tenant h =
    Extends-same (ground (arith, h)) (ground (arith, h))

pub ensure_default_org-Extends :
    (id name at : String) (s t : Accounts) (org : Org)
    → ensure_default_org id name at s ≡ ok (org, t)
    → Extends s t
unfolding ensure_default_org
ensure_default_org-Extends id name at s t org h =
    Extends-same (ground (arith, h)) (ground (arith, h))

pub create_org-Extends : (org : Org) (s t : Accounts) → create_org org s ≡ ok t → Extends s t
unfolding create_org
create_org-Extends org s t h = Extends-same (ground (arith, h)) (ground (arith, h))

pub create_api_key-Extends :
    (key : ApiKey) (s t : Accounts) → create_api_key key s ≡ ok t → Extends s t
unfolding create_api_key
create_api_key-Extends key s t h = Extends-same (ground (arith, h)) (ground (arith, h))

pub revoke_api_key-Extends :
    (tenant key at : String) (s : Accounts) → Extends s (revoke_api_key tenant key at s).1
unfolding revoke_api_key
revoke_api_key-Extends tenant key at s = Extends-same refl refl
