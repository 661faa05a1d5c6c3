-- ===== src/KeyRing/Rotation.antt =====
-- Which keys a ring holds after rotations.
use evorule_rule.Prelude.{
  ℕ, String, ◌≡◌, refl, ◌↔◌, ◌⊎◌, inl, inr, true, false, Option, some, List, ok, err, arith,
  Option-cases, Result-cases, eq_iff, ◌<◌,
}
use evorule_rule.Model.Auth.{TokenClaims}
use evorule_rule.KeyRing.{
  SecretScope, jwt, tenant_credentials, api_hash_salt, dek, db_credentials, scope_eq, KeyRing,
  access_active, access_previous, rotate, Jwt, verify_with_secret, verify_token,
}

scope_eq_refl : (s : SecretScope) → scope_eq s s ≡ true
scope_eq_refl jwt = refl
scope_eq_refl tenant_credentials = refl
scope_eq_refl api_hash_salt = refl
scope_eq_refl dek = refl
scope_eq_refl db_credentials = refl

-- After two rotations of a scope, the last key is active, the one before it is the previous key, and
-- the key that was active before them is gone; every other scope has the keys that it had.
pub rotate-rotate :
    (scope : SecretScope) (v w : List ℕ) (ring : KeyRing)
    → (access_active scope (rotate scope w (rotate scope v ring)) ≡ some w)
      × (access_previous scope (rotate scope w (rotate scope v ring)) ≡ some v)
      × ((other : SecretScope)
          → scope_eq scope other ≡ false
          → (access_active other (rotate scope w (rotate scope v ring)) ≡ access_active other ring)
            × (access_previous other (rotate scope w (rotate scope v ring))
                ≡ access_previous other ring))
unfolding access_active access_previous rotate
rotate-rotate scope v w ring = (
  ground (arith, scope_eq_refl scope),
  ground (arith, scope_eq_refl scope),
  λ other n. (ground (arith, n), ground (arith, n)),
)

module _ (crates : Jwt) where
  -- A token of the type asked for that has not expired, with its claims.
  pub record IsValid (token : String) (now : ℕ) (expected_type : String) (claims : TokenClaims)
      : Type 0 where
    pub decodes : crates.payload token ≡ some (ok claims)
    pub lives : now < claims.exp
    pub of_type : claims.token_type ≡ expected_type

  with_secret_sound :
      (token : String) (now : ℕ) (expected_type secret : String) (claims : TokenClaims)
      → verify_with_secret crates token now expected_type secret ≡ ok claims
      → (crates.signed token secret ≡ true) × IsValid token now expected_type claims
  unfolding verify_with_secret
  with_secret_sound token now expected_type secret claims h =
      elim (Option-cases (crates.payload token)) [
        | inl n ↦ ground arith
        | inr (ok c, e) ↦ (
          ground arith,
          record {
            decodes = ground arith;
            lives = ground arith;
            of_type = ground (arith, eq_iff c.token_type expected_type);
          },
        )
        | inr (err m, e) ↦ ground arith
      ]

  with_secret_complete :
      (token : String) (now : ℕ) (expected_type secret : String) (claims : TokenClaims)
      → crates.signed token secret ≡ true
      → IsValid token now expected_type claims
      → verify_with_secret crates token now expected_type secret ≡ ok claims
  unfolding verify_with_secret
  with_secret_complete token now expected_type secret claims s v =
      ground (arith, s, v.decodes, v.lives, v.of_type, eq_iff claims.token_type expected_type)

  Signer : (token secret : String) → Option String → Type 0
  Signer token secret previous =
      (crates.signed token secret ≡ true)
      ⊎ ((prev : String) × (previous ≡ some prev) × (crates.signed token prev ≡ true))

  verify_sound :
      (secret : String) (previous : Option String) (token : String) (now : ℕ)
      (expected_type : String) (claims : TokenClaims)
      → verify_token crates secret previous token now expected_type ≡ ok claims
      → Signer token secret previous × IsValid token now expected_type claims
  unfolding verify_token Signer
  verify_sound secret previous token now expected_type claims h =
      elim (Result-cases (verify_with_secret crates token now expected_type secret)) [
        | inl (f, e) ↦ elim (Option-cases previous) [
          | inl n ↦ ground arith
          | inr (prev, p) ↦
              let r = with_secret_sound token now expected_type prev claims (ground arith) in
              (inr (prev, p, r.0), r.1)
        ]
        | inr (c, e) ↦
            let r = with_secret_sound token now expected_type secret claims (ground arith) in
            (inl r.0, r.1)
      ]

  verify_complete :
      (secret : String) (previous : Option String) (token : String) (now : ℕ)
      (expected_type : String) (claims : TokenClaims)
      → Signer token secret previous × IsValid token now expected_type claims
      → verify_token crates secret previous token now expected_type ≡ ok claims
  unfolding verify_token Signer
  verify_complete secret previous token now expected_type claims (inl s, v) =
      ground (arith, with_secret_complete token now expected_type secret claims s v)
  verify_complete secret previous token now expected_type claims (inr (prev, p, s), v) =
      elim (Result-cases (verify_with_secret crates token now expected_type secret)) [
        | inl (f, e) ↦
            ground (arith, p, e, with_secret_complete token now expected_type prev claims s v)
        | inr (c, e) ↦
            let r = with_secret_sound token now expected_type secret c e in
            ground (arith, e, r.1.decodes, v.decodes)
      ]

  -- A token is accepted exactly where the active or the previous secret signed it, it encodes the
  -- claims, it has not expired and it is of the type asked for.
  pub verify_token_iff :
      (secret : String) (previous : Option String) (token : String) (now : ℕ)
      (expected_type : String) (claims : TokenClaims)
      → (verify_token crates secret previous token now expected_type ≡ ok claims) ↔ (
          ((crates.signed token secret ≡ true)
            ⊎ ((prev : String) × (previous ≡ some prev) × (crates.signed token prev ≡ true)))
          × IsValid token now expected_type claims)
  unfolding Signer
  verify_token_iff secret previous token now expected_type claims = (
    verify_sound secret previous token now expected_type claims,
    verify_complete secret previous token now expected_type claims,
  )
