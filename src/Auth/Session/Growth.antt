-- ===== src/Auth/Session/Growth.antt =====
-- Refresh and logout only add to the audit log and the revocations.
use evorule_rule.Prelude.{ℕ, String, Option, none, some, Result, ok, err}
use evorule_rule.Model.Auth.{Role, User, TokenClaims}
use evorule_rule.KeyRing.{AuthError}
use evorule_rule.Accounts.Growth.{revoke_token-Extends}
use evorule_rule.Auth.Flow.Growth.{Grows, growth}
use evorule_rule.Auth.Service.{Crates, AuthService}
use evorule_rule.Auth.Service.Growth.{record_audit-Grows, grant-Grows}
use evorule_rule.Auth.Session.{
  refresh_checks, rotate_token, refresh, revoke_other, revoke_access, leave, logout,
}

module _ (crates : Crates) (service : AuthService) where
  pub refresh_checks-Grows :
      (tenant token : String) (now : ℕ) → Grows (refresh_checks crates service tenant token now)
  unfolding refresh_checks
  refresh_checks-Grows tenant token now = search (growth, record_audit-Grows) depth 14 fits 4000

  pub rotate_token-Grows :
      (tenant : String) (now : ℕ) (checked : TokenClaims × User × Role)
      → Grows (rotate_token crates service tenant now checked)
  unfolding rotate_token
  rotate_token-Grows tenant now (claims, user, role) =
      search (growth, revoke_token-Extends, grant-Grows) depth 12

  pub refresh-Grows :
      (tenant token : String) (now : ℕ) → Grows (refresh crates service tenant token now)
  unfolding refresh
  refresh-Grows tenant token now = search (growth, refresh_checks-Grows, rotate_token-Grows)

  revoke_other-Grows :
      (sub : String) (now : ℕ) (r : Result AuthError TokenClaims)
      → Grows (revoke_other crates service sub now r)
  revoke_other-Grows sub now (err e) = search growth
  revoke_other-Grows sub now (ok claims) = search (growth, revoke_token-Extends) depth 12

  revoke_access-Grows :
      (sub : String) (now : ℕ) (token : Option String)
      → Grows (revoke_access crates service sub now token)
  revoke_access-Grows sub now none = search growth
  revoke_access-Grows sub now (some token) = search (growth, revoke_other-Grows)

  pub leave-Grows :
      (sub tenant : String) (access : Option String) (now : ℕ)
      → Grows (leave crates service sub tenant access now)
  leave-Grows sub tenant access now = search (growth, revoke_access-Grows, record_audit-Grows)

  pub logout-Grows :
      (token : String) (access : Option String) (now : ℕ)
      → Grows (logout crates service token access now)
  unfolding logout
  logout-Grows token access now = search (growth, revoke_token-Extends, leave-Grows) depth 12
