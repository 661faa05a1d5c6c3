-- ===== src/Auth/Session/Admitted.antt =====
-- Which refresh is granted.
use evorule_rule.Prelude.{
  ℕ, String, ◌≡◌, sym, ap, ◌∙◌, subst, ◌↔◌, false, not, some, ok, ok_or, arith, eq_iff, str_eq,
}
use evorule_rule.Model.Auth.{Role, User, TokenClaims}
use evorule_rule.KeyRing.{AuthError}
use evorule_rule.Accounts.Users.{get_user}
use evorule_rule.Accounts.Tokens.{is_token_revoked}
use evorule_rule.Auth.Flow.{Host, Flow, continue, pure, from, ◌>>=◌, ◌>>◌, check, refuse_if, read}
use evorule_rule.Auth.Flow.Inversion.{
  Ran, bind-ok, check-ok, refuse-ok, ok_or-ok, pure-ok, ok-inj, not-true,
}
use evorule_rule.Auth.Service.{Crates, AuthService, AuthTokens, effective_role, failed}
use evorule_rule.Auth.Service.Granted.{minted, grant-ok}
use evorule_rule.Auth.Session.{verify, refresh_checks, rotate_token, refresh}

module _ (crates : Crates) (service : AuthService) where
  -- A valid refresh token of the organisation, not revoked, of a user who is not disabled and has a
  -- role there.
  pub record IsAdmitted (tenant token : String) (now : ℕ) (h : Host) (claims : TokenClaims)
      (user : User) (role : Role) : Type 0 where
    pub verified : verify crates service token now "refresh" ≡ ok claims
    pub of_tenant : claims.tenant_id ≡ tenant
    pub live : is_token_revoked claims.jti now h.accounts ≡ false
    pub known : get_user claims.sub h.accounts ≡ some user
    pub enabled : user.disabled ≡ false
    pub entitled : effective_role crates user tenant h.accounts ≡ ok role

  -- The second half never fails.
  rotate_token-ok :
      (tenant : String) (now : ℕ) (checked : TokenClaims × User × Role) (h : Host)
      → (rotate_token crates service tenant now checked h).0
        ≡ ok (minted crates service checked.1 tenant checked.2 now h.drawn)
  unfolding rotate_token minted
  rotate_token-ok tenant now (claims, user, role) h =
      grant-ok crates service user tenant "refresh" role now _

  rotate_token-minted :
      (tenant : String) (now : ℕ) (checked : TokenClaims × User × Role) (k h : Host)
      (tokens : AuthTokens)
      → k ≡ h
      → (rotate_token crates service tenant now checked k).0 ≡ ok tokens
      → tokens ≡ minted crates service checked.1 tenant checked.2 now h.drawn
  rotate_token-minted tenant now checked k h tokens same e =
      ok-inj _ _ (sym e ∙ rotate_token-ok tenant now checked k)
      ∙ ap (λ l. minted crates service checked.1 tenant checked.2 now l.drawn) same

  module _ (tenant token : String) (now : ℕ) (h : Host) where
    -- The checks after the token was read, and those after the user was found.
    abbrev of_user : TokenClaims → User → Flow (TokenClaims × User × Role)
    of_user claims user = do
      refuse_if user.disabled
          (failed crates service tenant (some user.user_id) "refresh" "disabled" now)
          AuthError.user_disabled
      role ← read (effective_role crates user tenant)
      granted ← from role
      pure (claims, user, granted)

    abbrev of_claims : TokenClaims → Flow (TokenClaims × User × Role)
    of_claims claims = do
      check (str_eq claims.tenant_id tenant) AuthError.invalid_token
      revoked ← read (is_token_revoked claims.jti now)
      check (not revoked) AuthError.invalid_token
      found ← read (get_user claims.sub)
      user ← from (ok_or found AuthError.token_user_not_found)
      of_user claims user

    returned :
        (claims : TokenClaims) (user : User) (role : Role) (h' : Host)
        (checked : TokenClaims × User × Role)
        → IsAdmitted tenant token now h claims user role
        → Ran (pure (claims, user, role) h) checked h'
        → IsAdmitted tenant token now h checked.0 checked.1 checked.2 × (h' ≡ h)
    returned claims user role h' checked a p =
        let (same, kept) = pure-ok (claims, user, role) checked h h' p in
        (subst (λ t. IsAdmitted tenant token now h t.0 t.1 t.2) same a, sym kept)

    IsAdmitted-sound :
        (h' : Host) (checked : TokenClaims × User × Role)
        → Ran (refresh_checks crates service tenant token now h) checked h'
        → IsAdmitted tenant token now h checked.0 checked.1 checked.2 × (h' ≡ h)
    unfolding refresh_checks
    IsAdmitted-sound h' checked e =
        let (c, v, p) =
          bind-ok (from (verify crates service token now "refresh")) of_claims h h' checked e in
        let (same, q) =
          check-ok (str_eq c.tenant_id tenant) AuthError.invalid_token _ h h' checked p in
        let (live, r) =
          check-ok (not (is_token_revoked c.jti now h.accounts)) AuthError.invalid_token _ h h'
            checked q in
        let (u, g, s) =
          bind-ok (from (ok_or (get_user c.sub h.accounts) AuthError.token_user_not_found))
            (of_user c) h h' checked r in
        let (on, t) = refuse-ok u.disabled _ AuthError.user_disabled _ h h' checked s in
        let (role, w, done) =
          bind-ok (from (effective_role crates u tenant h.accounts)) _ h h' checked t in
        returned c u role h' checked
          (record {
            verified = v;
            of_tenant = (eq_iff c.tenant_id tenant).0 same;
            live = not-true _ live;
            known = ok_or-ok _ _ u g;
            enabled = on;
            entitled = w;
          })
          done

    pub IsAdmitted-complete :
        (claims : TokenClaims) (user : User) (role : Role)
        → IsAdmitted tenant token now h claims user role
        → refresh_checks crates service tenant token now h ≡ (ok (claims, user, role), h)
    unfolding refresh_checks
    IsAdmitted-complete claims user role a = ground (
      arith,
      a.verified,
      a.of_tenant,
      a.live,
      a.known,
      a.enabled,
      a.entitled,
      eq_iff claims.tenant_id tenant,
    )

    -- Every refresh whose checks pass is granted: a refresh returns tokens exactly where the text is a
    -- refresh token that is valid now, of the organisation asked for, not revoked, of a user who is
    -- there, is not disabled and has a role in the organisation; the tokens are new ones for that user
    -- with the role that the user has now.
    pub refresh_iff :
        (tokens : AuthTokens)
        → ((refresh crates service tenant token now h).0 ≡ ok tokens) ↔ (
            (claims : TokenClaims) × (user : User) × (role : Role) × IsAdmitted tenant token now h
              claims user role
            × (tokens ≡ minted crates service user tenant role now h.drawn))
    unfolding refresh
    refresh_iff tokens = (
      λ e.
          let checks = refresh_checks crates service tenant token now in
          let (checked, c, rest) =
            bind-ok checks (rotate_token crates service tenant now) h _ tokens
              (ap (λ r. (r, (refresh crates service tenant token now h).1)) e) in
          let a = IsAdmitted-sound (checks h).1 checked (ap (λ r. (r, (checks h).1)) c) in
          (
            checked.0,
            checked.1,
            checked.2,
            a.0,
            rotate_token-minted tenant now checked (checks h).1 h tokens a.1 (ap (λ r. r.0) rest),
          ),
      λ (claims, user, role, a, same).
          let returned = IsAdmitted-complete claims user role a in
          ap (λ r. (continue (rotate_token crates service tenant now) r).0) returned
          ∙ rotate_token-ok tenant now (claims, user, role) h
          ∙ ap ok (sym same),
    )
