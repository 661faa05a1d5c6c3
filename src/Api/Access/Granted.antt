-- ===== src/Api/Access/Granted.antt =====
-- The token of a login gives access as the user with the role of the login.
use evorule_rule.Prelude.{ℕ, ◌+◌, ◌<◌, String, ◌≡◌, refl, inl, false, some, ok, arith}
use evorule_rule.Model.Auth.{Role, User, TokenClaims, as_str}
use evorule_rule.Model.Auth.Ranks.{parse_iff}
use evorule_rule.Accounts.State.{Accounts}
use evorule_rule.Accounts.Tokens.{is_token_revoked}
use evorule_rule.Auth.Digest.{hex}
use evorule_rule.Auth.Token.{claims_for, access_ttl_secs, issue_access_token_in}
use evorule_rule.Auth.Token.Issued.{IsFaithful, verify_token-sign}
use evorule_rule.Auth.Flow.{Host}
use evorule_rule.Auth.Service.{Crates, AuthService, AuthTokens, login}
use evorule_rule.Auth.Service.Granted.{minted}
use evorule_rule.Auth.Service.Login.{CanLogin, login_iff}
use evorule_rule.Auth.Session.{verify, is_blacklisted}
use evorule_rule.Api.Access.{require_auth}

module _ (crates : Crates) (service : AuthService) (faithful : IsFaithful crates.encoding) where
  -- The claims of the access token that a login at the time `now` mints.
  abbrev pub login_claims : User → (org : String) → Role → (now drawn : ℕ) → TokenClaims
  login_claims user org role now drawn =
      claims_for crates.encoding user org role now "access" access_ttl_secs
        (hex (crates.random drawn))

  access_verified :
      (user : User) (org : String) (role : Role) (now now2 drawn : ℕ)
      → let claims = login_claims user org role now drawn in
        crates.encoding.from_slice (crates.encoding.to_vec claims) ≡ ok claims
        → now2 < now + access_ttl_secs
        → verify crates service
            (minted crates service user org role now drawn).access_token
            now2
            "access"
          ≡ ok claims
  unfolding verify minted issue_access_token_in
  access_verified user org role now now2 drawn reads lives =
      verify_token-sign crates.encoding faithful service.secret service.previous_secret
        service.secret (login_claims user org role now drawn) now2 reads (inl refl) lives

  -- Where a user can log in, and the claims are read as they were written, the login returns tokens,
  -- and the access token gives access to every later request within its 15 minutes until it is
  -- revoked, as that user, in that organisation, with the role that the user had there.
  pub login-require_auth :
      (tenant username password : String) (now now2 : ℕ) (h : Host) (s : Accounts) (user : User)
      (role : Role)
      → CanLogin crates service tenant username password now h.accounts user role
      → let claims = login_claims user tenant role now h.drawn in
        crates.encoding.from_slice (crates.encoding.to_vec claims) ≡ ok claims
        → now2 < now + access_ttl_secs
        → is_token_revoked claims.jti now2 s ≡ false
        → (tokens : AuthTokens) × ((login crates service tenant username password now h).0
            ≡ ok tokens)
          × (require_auth crates service (some tokens.access_token) now2 s
              ≡ ok (record { user_id = user.user_id; tenant_id = tenant; role = role }))
  unfolding require_auth is_blacklisted
  login-require_auth tenant username password now now2 h s user role can reads lives live =
      let tokens = minted crates service user tenant role now h.drawn in
      (
        tokens,
        (login_iff crates service tenant username password now h tokens).1 (user, role, can, refl),
        ground (
          arith,
          access_verified user tenant role now now2 h.drawn reads lives,
          live,
          (parse_iff (as_str role) role).1 refl,
        ),
      )
