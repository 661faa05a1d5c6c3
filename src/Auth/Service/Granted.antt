-- ===== src/Auth/Service/Granted.antt =====
-- The tokens that a granted login or refresh returns.
use evorule_rule.Prelude.{ℕ, suc, ◌+◌, String, ◌≡◌, refl, ap, Option, Result, ok, err}
use evorule_rule.Store.State.{StoreError}
use evorule_rule.Model.Auth.{Role, User}
use evorule_rule.Accounts.State.{Accounts}
use evorule_rule.Auth.Digest.{hex}
use evorule_rule.Auth.Token.{
  issue_access_token_in, issue_refresh_token_in, access_ttl_secs, refresh_ttl_secs,
}
use evorule_rule.Auth.Flow.{Host, kept, pure}
use evorule_rule.Auth.Flow.Inversion.{bind-ran}
use evorule_rule.Auth.Service.{
  Crates, AuthService, AuthTokens, uuidish, record_audit, tokens_for_in, grant, succeeded,
}

kept-ok : (h : Host) (r : Result StoreError Accounts) → (kept h r).0 ≡ ok tt
kept-ok h (ok s) = refl
kept-ok h (err e) = refl

module _ (crates : Crates) where
  pub record_audit-ok :
      (tenant : String) (user : Option String) (action outcome : String) (detail : Option String)
      (at : String) (h : Host)
      → (record_audit crates tenant user action outcome detail at h).0 ≡ ok tt
  unfolding record_audit uuidish
  record_audit-ok tenant user action outcome detail at h = kept-ok _ _

  module _ (service : AuthService) where
    -- The two tokens for a user in an organisation, under the next two identifiers after `drawn` draws.
    unfoldable pub minted : User → (org : String) → Role → (now drawn : ℕ) → AuthTokens
    minted user org role now drawn = record {
      access_token =
          issue_access_token_in crates.encoding service.secret user org role now
            (hex (crates.random drawn));
      refresh_token =
          issue_refresh_token_in crates.encoding service.secret user org role now
            (hex (crates.random (suc drawn)));
      access_expires_at = now + access_ttl_secs;
      refresh_expires_at = now + refresh_ttl_secs;
    }

    pub grant-ok :
        (user : User) (org action : String) (role : Role) (now : ℕ) (h : Host)
        → (grant crates service user org action role now h).0
          ≡ ok (minted user org role now h.drawn)
    unfolding tokens_for_in uuidish minted
    grant-ok user org action role now h =
        let tokens = minted user org role now h.drawn in
        let h2 = (tokens_for_in crates service user org role now h).1 in
        ap (λ r. r.0)
          (bind-ran (succeeded crates service org user.user_id action now) (λ done. pure tokens) h2
            tt (record_audit-ok _ _ _ _ _ _ h2))
