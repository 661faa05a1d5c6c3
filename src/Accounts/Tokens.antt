-- ===== src/Accounts/Tokens.antt =====
-- The operations of src/store/mod.rs on the audit log of authentication, the revoked tokens and the
-- API keys.
use evorule_rule.Prelude.{
  ℕ, String, Bool, not, ◌&&◌, Option, some, [], ◌∷◌, ◌++◌, Result, ok, ◌>>◌, guard, ltb, str_eq,
  any, count, find, update, is_none, if◌then◌else◌,
}
use evorule_rule.Model.Auth.{AuthAudit, ApiKey}
use evorule_rule.Store.State.{StoreError, sqlite}
use evorule_rule.Accounts.State.{Accounts, RevokedToken}
use evorule_rule.Accounts.Users.{is_tenant}

unfoldable pub record_auth_audit : AuthAudit → Accounts → Result StoreError Accounts
record_auth_audit audit s = do
  guard (not (any (λ a. str_eq a.audit_id audit.audit_id) s.auth_audits))
      (sqlite "UNIQUE constraint failed: auth_audits.audit_id")
  ok (record s { auth_audits = s.auth_audits ++ audit ∷ [] })

abbrev pub has_jti : String → RevokedToken → Bool
has_jti jti r = str_eq r.jti jti

-- `ON CONFLICT(jti) DO NOTHING`.
unfoldable pub revoke_token :
    (jti tenant_id : String) (user_id : Option String) (token_type : String) (expires_at : ℕ)
    (revoked_at : String)
    → Accounts
    → Accounts
revoke_token jti tenant_id user_id token_type expires_at revoked_at s =
    if any (has_jti jti) s.revoked_tokens then s else record s {
      revoked_tokens =
          s.revoked_tokens
          ++ record {
            jti = jti;
            tenant_id = tenant_id;
            user_id = user_id;
            token_type = token_type;
            expires_at = expires_at;
            revoked_at = revoked_at;
          }
            ∷ [];
    }

-- `SELECT COUNT(*) … WHERE jti = ? AND expires_at > ?`.
abbrev pub blocks : String → ℕ → RevokedToken → Bool
blocks jti now r = str_eq r.jti jti && ltb now r.expires_at

unfoldable pub is_token_revoked : String → ℕ → Accounts → Bool
is_token_revoked jti now s = ltb 0 (count (blocks jti now) s.revoked_tokens)

unfoldable pub create_api_key : ApiKey → Accounts → Result StoreError Accounts
create_api_key key s = do
  guard (not (any (λ k. str_eq k.key_id key.key_id) s.api_keys))
      (sqlite "UNIQUE constraint failed: api_keys.key_id")
  guard (any (is_tenant key.tenant_id) s.tenants) (sqlite "FOREIGN KEY constraint failed")
  ok (record s { api_keys = s.api_keys ++ key ∷ [] })

-- A revoked key is found too: the caller looks at it.
unfoldable pub get_api_key_by_hash : String → Accounts → Option ApiKey
get_api_key_by_hash hash s = find (λ k. str_eq k.key_hash hash) s.api_keys

abbrev pub live_key : String → String → ApiKey → Bool
live_key tenant id k = str_eq k.tenant_id tenant && str_eq k.key_id id && is_none k.revoked_at

-- Whether a key was revoked, and the table after it.
unfoldable pub revoke_api_key : (tenant key at : String) → Accounts → Bool × Accounts
revoke_api_key tenant key at s = (
  ltb 0 (count (live_key tenant key) s.api_keys),
  record s {
    api_keys = update (live_key tenant key) (λ k. record k { revoked_at = some at }) s.api_keys;
  },
)
