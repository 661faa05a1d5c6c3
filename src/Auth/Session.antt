-- ===== src/Auth/Session.antt =====
-- The flows of src/auth/mod.rs on a refresh token: refresh and logout.
pub mod Growth
pub mod Admitted
pub mod SingleUse
use evorule_rule.Prelude.{ℕ, String, Bool, not, Option, none, some, Result, ok, err, ok_or, str_eq}
use evorule_rule.Model.Auth.{Role, User, TokenClaims}
use evorule_rule.KeyRing.{AuthError, verify_token}
use evorule_rule.Accounts.State.{Accounts}
use evorule_rule.Accounts.Users.{get_user}
use evorule_rule.Accounts.Tokens.{revoke_token, is_token_revoked}
use evorule_rule.Auth.Token.{jwt}
use evorule_rule.Auth.Clock.{iso_from_unix}
use evorule_rule.Auth.Flow.{Flow, pure, from, read, ◌>>=◌, ◌>>◌, check, refuse_if, when, write}
use evorule_rule.Auth.Service.{
  Crates, AuthService, AuthTokens, effective_role, tokens_for_in, failed, succeeded, grant,
}

module _ (crates : Crates) (service : AuthService) where
  unfoldable pub verify :
      (token : String) (now : ℕ) (expected_type : String) → Result AuthError TokenClaims
  verify token now expected_type =
      verify_token (jwt crates.encoding) service.secret service.previous_secret token now
        expected_type

  -- The first half of `refresh`, up to the role, and the second, which revokes the old token.
  unfoldable pub refresh_checks :
      (tenant_id refresh_token : String) (now : ℕ) → Flow (TokenClaims × User × Role)
  refresh_checks tenant_id refresh_token now = do
    claims ← from (verify refresh_token now "refresh")
    check (str_eq claims.tenant_id tenant_id) AuthError.invalid_token
    revoked ← read (is_token_revoked claims.jti now)
    check (not revoked) AuthError.invalid_token
    found ← read (get_user claims.sub)
    user ← from (ok_or found AuthError.token_user_not_found)
    refuse_if user.disabled
        (failed crates service tenant_id (some user.user_id) "refresh" "disabled" now)
        AuthError.user_disabled
    role ← read (effective_role crates user tenant_id)
    granted ← from role
    pure (claims, user, granted)

  unfoldable pub rotate_token :
      (tenant_id : String) (now : ℕ) → TokenClaims × User × Role → Flow AuthTokens
  unfolding tokens_for_in
  rotate_token tenant_id now (claims, user, role) = do
    write (
        revoke_token claims.jti claims.tenant_id (some user.user_id) "refresh" claims.exp
          (iso_from_unix now))
    grant crates service user tenant_id "refresh" role now

  unfoldable pub refresh : (tenant_id refresh_token : String) (now : ℕ) → Flow AuthTokens
  unfolding refresh_checks rotate_token
  refresh tenant_id refresh_token now = do
    checked ← refresh_checks tenant_id refresh_token now
    rotate_token tenant_id now checked

  -- The access token is revoked too, where it is one of the same user.
  abbrev pub revoke_other :
      (sub : String) (now : ℕ) → Result AuthError TokenClaims → Flow (Unit {0})
  revoke_other sub now (err e) = pure tt
  revoke_other sub now (ok claims) = when (str_eq claims.sub sub) (
      write (
        revoke_token claims.jti claims.tenant_id (some claims.sub) "access" claims.exp
          (iso_from_unix now)))

  abbrev pub revoke_access : (sub : String) (now : ℕ) → Option String → Flow (Unit {0})
  revoke_access sub now none = pure tt
  revoke_access sub now (some token) = revoke_other sub now (verify token now "access")

  abbrev pub leave :
      (sub tenant_id : String) (access_token : Option String) (now : ℕ) → Flow (Unit {0})
  leave sub tenant_id access_token now = do
    revoke_access sub now access_token
    succeeded crates service tenant_id sub "logout" now

  abbrev pub end_session : (access_token : Option String) (now : ℕ) → TokenClaims → Flow (Unit {0})
  end_session access_token now claims = do
    write (
        revoke_token claims.jti claims.tenant_id (some claims.sub) "refresh" claims.exp
          (iso_from_unix now))
    leave claims.sub claims.tenant_id access_token now

  unfoldable pub logout :
      (refresh_token : String) (access_token : Option String) (now : ℕ) → Flow (Unit {0})
  logout refresh_token access_token now =
      from (verify refresh_token now "refresh") >>= end_session access_token now

  unfoldable pub is_blacklisted : TokenClaims → (now : ℕ) → Accounts → Bool
  is_blacklisted claims now s = is_token_revoked claims.jti now s
