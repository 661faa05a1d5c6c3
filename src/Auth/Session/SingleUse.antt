-- ===== src/Auth/Session/SingleUse.antt =====
-- A refresh token that was used, or logged out, is refused from then on.
use evorule_rule.Prelude.{
  ℕ, ◌<◌, String, ◌≡◌, sym, ap, subst, inl, inr, true, false, Option, some, Result, ok, err, arith,
  any, Result-cases,
}
use evorule_rule.Model.Auth.{Role, User, TokenClaims}
use evorule_rule.KeyRing.{AuthError}
use evorule_rule.KeyRing.Rotation.{verify_token_iff}
use evorule_rule.Accounts.State.{Accounts}
use evorule_rule.Accounts.Growth.{Extends-revoked, revoke_token-revoked}
use evorule_rule.Accounts.Tokens.{has_jti, is_token_revoked}
use evorule_rule.Auth.Token.{jwt}
use evorule_rule.Auth.Clock.{iso_from_unix}
use evorule_rule.Auth.Flow.{Host, continue, from}
use evorule_rule.Auth.Flow.Growth.{Grows}
use evorule_rule.Auth.Flow.Inversion.{bind-ok, bind-ran}
use evorule_rule.Auth.Service.{Crates, AuthService, AuthTokens}
use evorule_rule.Auth.Service.Growth.{grant-Grows}
use evorule_rule.Auth.Session.{verify, rotate_token, refresh, end_session, logout}
use evorule_rule.Auth.Session.Growth.{leave-Grows}
use evorule_rule.Auth.Session.Admitted.{refresh_iff, IsAdmitted-complete}
use evorule_rule.Auth.Reach.{Later, Later-Extends}

module _ (crates : Crates) where
  -- The claims that a text encodes, whoever signed it.
  abbrev pub Encodes : String → TokenClaims → Type 0
  Encodes token claims = (jwt crates.encoding).payload token ≡ some (ok claims)

  pub verify-Encodes :
      (service : AuthService) (token : String) (now : ℕ) (kind : String) (claims : TokenClaims)
      → verify crates service token now kind ≡ ok claims
      → Encodes token claims × (now < claims.exp)
  unfolding verify
  verify-Encodes service token now kind claims v =
      let valid =
        ((verify_token_iff (jwt crates.encoding) service.secret service.previous_secret token now
            kind claims).0
          v).1 in
      (valid.decodes, valid.lives)

  -- Revoked at every time before it expires.
  pub IsSpent : TokenClaims → Accounts → Type 0
  IsSpent claims s = (t : ℕ) → t < claims.exp → is_token_revoked claims.jti t s ≡ true

  spent-refused :
      (service : AuthService) (tenant token : String) (now : ℕ) (h : Host) (claims : TokenClaims)
      → Encodes token claims
      → IsSpent claims h.accounts
      → (e : AuthError) × ((refresh crates service tenant token now h).0 ≡ err e)
  unfolding IsSpent
  spent-refused service tenant token now h claims encodes spent =
      elim (Result-cases (refresh crates service tenant token now h).0) [
        | inl (e, p) ↦ (e, p)
        | inr (tokens, p) ↦
            let (c, user, role, a, same) =
              (refresh_iff crates service tenant token now h tokens).0 p in
            let read = verify-Encodes service token now "refresh" c a.verified in
            ground (arith, encodes, read.0, read.1, spent now, a.live)
      ]

  Later-IsSpent :
      {h k : Host} (claims : TokenClaims)
      → Later crates h k
      → IsSpent claims h.accounts
      → IsSpent claims k.accounts
  unfolding IsSpent
  Later-IsSpent claims later spent t lt =
      Extends-revoked claims.jti t (Later-Extends crates later) (spent t lt)

  -- The second half of a refresh spends the token, where no revocation names it yet.
  rotate_token-IsSpent :
      (service : AuthService) (tenant : String) (now : ℕ) (claims : TokenClaims) (user : User)
      (role : Role) (h : Host)
      → any (has_jti claims.jti) h.accounts.revoked_tokens ≡ false
      → IsSpent claims (rotate_token crates service tenant now (claims, user, role) h).1.accounts
  unfolding rotate_token IsSpent Grows
  rotate_token-IsSpent service tenant now claims user role h new t lt =
      Extends-revoked claims.jti t (grant-Grows crates service user tenant "refresh" role now _) (
        revoke_token-revoked claims.jti claims.tenant_id (some user.user_id) "refresh" claims.exp t
          (iso_from_unix now) h.accounts new lt)

  logout-IsSpent :
      (service : AuthService) (token : String) (access : Option String) (now : ℕ) (h : Host)
      (claims : TokenClaims)
      → verify crates service token now "refresh" ≡ ok claims
      → any (has_jti claims.jti) h.accounts.revoked_tokens ≡ false
      → IsSpent claims (logout crates service token access now h).1.accounts
  unfolding logout IsSpent Grows
  logout-IsSpent service token access now h claims v new t lt =
      subst {A = Result AuthError (Unit {0}) × Host}
        (λ r. is_token_revoked claims.jti t r.1.accounts ≡ true)
        (sym (
          bind-ran (from (verify crates service token now "refresh"))
            (end_session crates service access now) h claims v))
        (Extends-revoked claims.jti t
          (leave-Grows crates service claims.sub claims.tenant_id access now _)
          (revoke_token-revoked claims.jti claims.tenant_id (some claims.sub) "refresh" claims.exp t
            (iso_from_unix now) h.accounts new lt))

  -- A refresh that returned tokens, or a logout that returned, with the token.
  pub data Uses (token : String) : Host → Host → Type 0 where
    refreshed :
        (service : AuthService) (tenant : String) (now : ℕ) (h : Host) (tokens : AuthTokens)
        → (refresh crates service tenant token now h).0 ≡ ok tokens
        → Uses token h (refresh crates service tenant token now h).1
    logged_out :
        (service : AuthService) (access : Option String) (now : ℕ) (h : Host)
        → (logout crates service token access now h).0 ≡ ok tt
        → Uses token h (logout crates service token access now h).1

  Uses-IsSpent :
      (token : String) {h l : Host}
      → Uses token h l
      → ((claims : TokenClaims)
          → Encodes token claims
          → any (has_jti claims.jti) h.accounts.revoked_tokens ≡ false)
      → (claims : TokenClaims) × Encodes token claims × IsSpent claims l.accounts
  unfolding refresh logout
  Uses-IsSpent token (refreshed service tenant now h tokens ran) new =
      let (claims, user, role, a, same) =
        (refresh_iff crates service tenant token now h tokens).0 ran in
      let encodes = (verify-Encodes service token now "refresh" claims a.verified).0 in
      let ends =
        ap (continue (rotate_token crates service tenant now))
          (IsAdmitted-complete crates service tenant token now h claims user role a) in
      (
        claims,
        encodes,
        subst (λ r. IsSpent claims r.1.accounts) (sym ends)
            (rotate_token-IsSpent service tenant now claims user role h (new claims encodes)),
      )
  Uses-IsSpent token (logged_out service access now h ran) new =
      let (claims, v, rest) =
        bind-ok (from (verify crates service token now "refresh"))
          (end_session crates service access now) h _ tt
          (ap (λ r. (r, (logout crates service token access now h).1)) ran) in
      let encodes = (verify-Encodes service token now "refresh" claims v).0 in
      (claims, encodes, logout-IsSpent service token access now h claims v (new claims encodes))

  -- A refresh token is used once: after a refresh that returned tokens or a logout that returned,
  -- where no revocation had named the token before it, and after any operations on the accounts that
  -- follow, each refresh with that token ends in an error, at every time, for every organisation and
  -- under whatever secrets.
  pub used_once :
      (token : String) {h l k : Host}
      → Uses token h l
      → ((claims : TokenClaims)
          → Encodes token claims
          → any (has_jti claims.jti) h.accounts.revoked_tokens ≡ false)
      → Later crates l k
      → (service : AuthService) (tenant : String) (now : ℕ)
      → (e : AuthError) × ((refresh crates service tenant token now k).0 ≡ err e)
  used_once token {k = k} uses new later service tenant now =
      let (claims, encodes, spent) = Uses-IsSpent token uses new in
      spent-refused service tenant token now k claims encodes (Later-IsSpent claims later spent)
