-- ===== src/Auth/Service/Login.antt =====
-- Which login is granted.
use evorule_rule.Prelude.{
  ℕ, String, ◌≡◌, refl, sym, ap, ◌∙◌, subst, ◌↔◌, ◌⊎◌, inl, inr, Bool, true, false, not, Option,
  none, some, is_some, ok, ok_or, arith,
}
use evorule_rule.Model.Auth.{Role, User, Org}
use evorule_rule.KeyRing.{AuthError}
use evorule_rule.Accounts.State.{Accounts}
use evorule_rule.Accounts.Users.{
  get_tenant, get_user_by_username, get_user_by_username_any, update_user_password_hash,
}
use evorule_rule.Accounts.Orgs.{get_org, get_user_org_role}
use evorule_rule.Auth.Password.{needs_rehash}
use evorule_rule.Auth.Flow.{
  Host, Flow, continue, from, read, try_read, ◌>>=◌, ◌>>◌, refuse_if, when, write,
}
use evorule_rule.Auth.Flow.Inversion.{
  Ran, bind-ok, bind-ran, check-ok, refuse-ok, ok_or-ok, not-false, ok-inj, pure-ok, fail-ran,
  as_auth-ok, check-passed, refuse-passed, ok_or-some,
}
use evorule_rule.Auth.Service.{
  Crates, AuthService, AuthTokens, effective_role, failed, or_unknown, resolve, migrate, grant,
  verified, login,
}
use evorule_rule.Auth.Service.Granted.{minted, grant-ok}

-- The user of that name in the organisation, or the only user of that name.
unfoldable pub Names : (tenant username : String) → Accounts → User → Type 0
Names tenant username s user =
    (get_user_by_username tenant username s ≡ some user)
    ⊎ ((get_user_by_username tenant username s ≡ none)
        × (get_user_by_username_any username s ≡ ok (some user)))

module _ (crates : Crates) (service : AuthService) where
  module _ (tenant username password : String) (now : ℕ) where
    -- An organisation that is there and open, a user of that name who is not disabled and has the
    -- password, and the role that the user has there.
    pub record CanLogin (s : Accounts) (user : User) (role : Role) : Type 0 where
      pub org : Org
      pub of_tenant : is_some (get_tenant tenant s) ≡ true
      pub of_org : get_org tenant s ≡ some org
      pub is_open : org.disabled ≡ false
      pub named : Names tenant username s user
      pub enabled : user.disabled ≡ false
      pub password_ok : verified crates service password user ≡ true
      pub entitled : effective_role crates user tenant s ≡ ok role

    or_unknown-ok :
        (o : Option User) (h h' : Host) (user : User)
        → Ran (or_unknown crates service tenant now o h) user h'
        → (o ≡ some user) × (h ≡ h')
    or_unknown-ok (some u) h h' user p =
        let (same, kept) = pure-ok u user h h' p in (ap some same, kept)
    or_unknown-ok none h h' user p =
        fail-ran (failed crates service tenant none "login" "user not found" now)
          AuthError.invalid_credentials h h' user p

    resolve-ok :
        (o : Option User) (h h' : Host) (user : User)
        → Ran (resolve crates service tenant username now o h) user h'
        → ((o ≡ some user)
            ⊎ ((o ≡ none) × (get_user_by_username_any username h.accounts ≡ ok (some user))))
          × (h ≡ h')
    resolve-ok (some u) h h' user p =
        let (same, kept) = pure-ok u user h h' p in (inl (ap some same), kept)
    resolve-ok none h h' user p =
        let (o, e, q) =
          bind-ok (try_read (get_user_by_username_any username))
            (or_unknown crates service tenant now) h h' user p in
        let (same, kept) = or_unknown-ok o h h' user q in
        (inr (refl, as_auth-ok _ _ e ∙ ap ok same), kept)

    -- A new hash changes no role and draws nothing.
    when_written-ok :
        (b : Bool) (hash at : String) (h : Host) (user : User)
        → let run = when b (write (update_user_password_hash user.user_id hash at)) h in
          (run.0 ≡ ok tt)
          × (run.1.drawn ≡ h.drawn)
          × (effective_role crates user tenant run.1.accounts
              ≡ effective_role crates user tenant h.accounts)
    unfolding effective_role get_user_org_role update_user_password_hash
    when_written-ok true hash at h user = (refl, refl, refl)
    when_written-ok false hash at h user = (refl, refl, refl)

    abbrev migration : User → Flow (Unit {0})
    migration user = migrate crates service user password now

    migrate-ok :
        (h : Host) (user : User)
        → (((migration user h).0 ≡ ok tt)
            × ((migration user h).1.drawn ≡ h.drawn)
            × (effective_role crates user tenant (migration user h).1.accounts
                ≡ effective_role crates user tenant h.accounts))
    migrate-ok h user = when_written-ok (needs_rehash user.password_hash) _ _ h user

    -- The stages of `login`.
    abbrev entitle : User → Flow AuthTokens
    entitle user = do
      role ← read (effective_role crates user tenant)
      granted ← from role
      grant crates service user tenant "login" granted now

    abbrev admit : User → Flow AuthTokens
    admit user = migration user >> entitle user

    abbrev of_user : User → Flow AuthTokens
    of_user user = do
      refuse_if user.disabled
          (failed crates service tenant (some user.user_id) "login" "disabled" now)
          AuthError.user_disabled
      refuse_if (not (verified crates service password user))
          (failed crates service tenant (some user.user_id) "login" "bad password" now)
          AuthError.invalid_credentials
      admit user

    abbrev of_org : Org → Flow AuthTokens
    of_org org = do
      refuse_if org.disabled (failed crates service tenant none "login" "org disabled" now)
          AuthError.org_disabled
      named ← read (get_user_by_username tenant username)
      user ← resolve crates service tenant username now named
      of_user user

    admit-ok :
        (h h' : Host) (user : User) (tokens : AuthTokens)
        → Ran (admit user h) tokens h'
        → (role : Role) × (effective_role crates user tenant h.accounts ≡ ok role)
          × (tokens ≡ minted crates service user tenant role now h.drawn)
    admit-ok h h' user tokens p =
        let kept = migrate-ok h user in
        let (done, m, q) = bind-ok (migration user) (λ done. entitle user) h h' tokens p in
        let h2 = (migration user h).1 in
        let (role, r, s) =
          bind-ok (from (effective_role crates user tenant h2.accounts))
            (λ role. grant crates service user tenant "login" role now) h2 h' tokens q in
        (
          role,
          sym kept.2 ∙ r,
          ok-inj _ _
                (sym (ap (λ x. x.0) s) ∙ grant-ok crates service user tenant "login" role now h2)
              ∙ ap (minted crates service user tenant role now) kept.1,
        )

    admit_complete :
        (h : Host) (user : User) (role : Role)
        → effective_role crates user tenant h.accounts ≡ ok role
        → (admit user h).0 ≡ ok (minted crates service user tenant role now h.drawn)
    admit_complete h user role e =
        let kept = migrate-ok h user in
        let h2 = (migration user h).1 in
        ap (λ x. x.0) (bind-ran (migration user) (λ done. entitle user) h tt kept.0)
        ∙ ap (λ x. x.0)
            (bind-ran (from (effective_role crates user tenant h2.accounts))
              (λ role. grant crates service user tenant "login" role now) h2 role (kept.2 ∙ e))
        ∙ grant-ok crates service user tenant "login" role now h2
        ∙ ap (λ d. ok (minted crates service user tenant role now d)) kept.1

    login_sound :
        (h h' : Host) (tokens : AuthTokens)
        → Ran (login crates service tenant username password now h) tokens h'
        → (user : User) × (role : Role) × CanLogin h.accounts user role
          × (tokens ≡ minted crates service user tenant role now h.drawn)
    unfolding login Names
    login_sound h h' tokens p =
        let found = is_some (get_tenant tenant h.accounts) in
        let (t, p1) = check-ok found AuthError.tenant_not_found _ h h' tokens p in
        let (org, o, p2) =
          bind-ok (from (ok_or (get_org tenant h.accounts) AuthError.org_not_found)) of_org h h'
            tokens p1 in
        let (c, p3) = refuse-ok org.disabled _ AuthError.org_disabled _ h h' tokens p2 in
        let named =
          resolve crates service tenant username now
            (get_user_by_username tenant username h.accounts) in
        let (user, n, p4) = bind-ok named of_user h h' tokens p3 in
        let names =
          resolve-ok (get_user_by_username tenant username h.accounts) h (named h).1 user
            (ap (λ r. (r, (named h).1)) n) in
        let p5 = subst (λ k. Ran (of_user user k) tokens h') (sym names.1) p4 in
        let (d, p6) = refuse-ok user.disabled _ AuthError.user_disabled _ h h' tokens p5 in
        let (v, p7) =
          refuse-ok (not (verified crates service password user)) _ AuthError.invalid_credentials _
            h h' tokens p6 in
        let (role, e, same) = admit-ok h h' user tokens p7 in
        (
          user,
          role,
          record {
            org = org;
            of_tenant = t;
            of_org = ok_or-ok _ _ org o;
            is_open = c;
            named = names.0;
            enabled = d;
            password_ok = not-false _ v;
            entitled = e;
          },
          same,
        )

    resolve_complete :
        (h : Host) (user : User)
        → Names tenant username h.accounts user
        → resolve crates service tenant username now
            (get_user_by_username tenant username h.accounts)
            h
          ≡ (ok user, h)
    unfolding Names
    resolve_complete h user (inl here) = ground (arith, here)
    resolve_complete h user (inr (none_here, only)) = ground (arith, none_here, only)

    of_user_complete :
        (h : Host) (user : User)
        → user.disabled ≡ false
        → verified crates service password user ≡ true
        → of_user user h ≡ admit user h
    of_user_complete h user d v =
        refuse-passed user.disabled _ AuthError.user_disabled _ h d
        ∙ refuse-passed (not (verified crates service password user)) _
            AuthError.invalid_credentials (admit user) h (ap not v)

    login_complete :
        (h : Host) (user : User) (role : Role)
        → CanLogin h.accounts user role
        → login crates service tenant username password now h ≡ admit user h
    unfolding login
    login_complete h user role c =
        check-passed (is_some (get_tenant tenant h.accounts)) AuthError.tenant_not_found _ h
          c.of_tenant
        ∙ bind-ran (from (ok_or (get_org tenant h.accounts) AuthError.org_not_found)) of_org h c.org
            (ok_or-some _ _ c.org c.of_org)
        ∙ refuse-passed c.org.disabled _ AuthError.org_disabled _ h c.is_open
        ∙ ap (continue of_user) (resolve_complete h user c.named)
        ∙ of_user_complete h user c.enabled c.password_ok

    -- A login returns tokens exactly where the tenant and the organisation are there and open, the
    -- name is that of a user in the organisation or of one user alone, who is not disabled and has the
    -- password, and the user has a role in the organisation; the tokens are new ones for that user
    -- with that role.
    pub login_iff :
        (h : Host) (tokens : AuthTokens)
        → ((login crates service tenant username password now h).0 ≡ ok tokens) ↔ (
            (user : User) × (role : Role) × CanLogin h.accounts user role
            × (tokens ≡ minted crates service user tenant role now h.drawn))
    login_iff h tokens = (
      λ e.
          let run = login crates service tenant username password now h in
          login_sound h run.1 tokens (ap (λ r. (r, run.1)) e),
      λ (user, role, c, same).
          ap (λ r. r.0) (login_complete h user role c)
          ∙ admit_complete h user role c.entitled
          ∙ ap ok (sym same),
    )
