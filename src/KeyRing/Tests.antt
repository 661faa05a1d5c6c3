-- ===== src/KeyRing/Tests.antt =====
-- Tests and instances of the keys and the verification of tokens.
use evorule_rule.Prelude.{String, ◌≡◌, refl, ◌↔◌, ◌⊎◌, true, some, ok, str_eq}
use evorule_rule.Model.Auth.{TokenClaims}
use evorule_rule.KeyRing.{Jwt, verify_token, verify_with_secret}
use evorule_rule.KeyRing.Rotation.{IsValid, verify_token_iff}

abbrev claims : TokenClaims
claims = record {
  sub = "u";
  tenant_id = "t";
  role = "viewer";
  token_type = "access";
  iat = 0;
  exp = 10;
  jti = "j";
}

-- Every token is signed by the secret of its own text.
abbrev crates : Jwt
crates = record {
  signed = λ token secret. str_eq token secret;
  payload = λ token. some (ok claims);
}

previous_accepted : verify_token crates "new" (some "old") "old" 5 "access" ≡ ok claims
unfolding verify_token verify_with_secret
previous_accepted = refl

verify_token_iff_example : (verify_token crates "new" (some "old") "old" 5 "access" ≡ ok claims) ↔ (
    ((crates.signed "old" "new" ≡ true)
      ⊎ ((prev : String) × (some "old" ≡ some prev) × (crates.signed "old" prev ≡ true)))
    × IsValid crates "old" 5 "access" claims)
verify_token_iff_example = verify_token_iff crates "new" (some "old") "old" 5 "access" claims
