-- ===== src/Api/Tests.antt =====
-- Tests and instances of the requests.
use evorule_rule.Accounts.Tokens.{is_token_revoked}
use evorule_rule.Prelude.{
  ℕ, ◌≤◌, ◌≡◌, refl, ap, inl, Option, none, some, List, [], ◌∷◌, ok, arith, length,
}
use evorule_rule.Model.Auth.{approver, TokenClaims}
use evorule_rule.Auth.Digest.{hex, unhex}
use evorule_rule.Auth.Digest.Hex.{unhex-hex, hex-NoDot}
use evorule_rule.Auth.Token.{Encoding}
use evorule_rule.Auth.Token.Issued.{IsFaithful}
use evorule_rule.Auth.Service.{Crates, AuthTokens, login}
use evorule_rule.Auth.Service.Login.{CanLogin}
use evorule_rule.Auth.Tests.{crates, service, user, accounts, host, zeros, zeros-bytes, org}
use evorule_rule.Model.Auth.{parse}
use evorule_rule.Accounts.Users.{get_tenant, get_user_by_username}
use evorule_rule.Accounts.Orgs.{get_org, get_user_org_role}
use evorule_rule.Auth.Service.{effective_role}
use evorule_rule.Auth.Service.Login.{Names}
use evorule_rule.Auth.Password.{bytes_eq, verify_password}
use evorule_rule.Api.Access.{require_auth}
use evorule_rule.Api.Access.Granted.{login-require_auth}
use evorule_rule.Api.Idempotency.{Response, Cache}
use evorule_rule.Api.Page.{paginate}
use evorule_rule.Api.Page.Walk.{follow, follow-items}

abbrev numbers : List ℕ
numbers = 1 ∷ 2 ∷ 3 ∷ []

follow-items_example :
    (follow (length numbers) numbers (some 2) 0 ≡ numbers)
    × ((offset : Option ℕ) → length (paginate numbers (some 2) offset).items ≤ 100)
follow-items_example = follow-items numbers (some 2)

abbrev no_entries : Cache
no_entries key = none

abbrev response : Response
response = record { status = 201; headers = []; body = "made" }

-- The claims of the login below, and the crates that read them again.
abbrev read_back : TokenClaims
read_back = record {
  sub = "u";
  tenant_id = "t";
  role = "approver";
  token_type = "access";
  iat = 5;
  exp = 905;
  jti = "00";
}

abbrev encoding : Encoding
encoding = record {
  sha256 = λ bytes. zeros 32;
  encode = hex;
  decode = λ s. some (unhex s);
  header = [];
  to_vec = λ c. [];
  from_slice = λ bytes. ok read_back;
}

abbrev reading : Crates
reading = record crates { encoding = encoding }

encoding-IsFaithful : IsFaithful encoding
encoding-IsFaithful = record {
  decode-encode = λ bytes h. ap some (unhex-hex bytes h);
  no_dot = hex-NoDot;
  header_bytes = tt;
  claims_bytes = λ c. tt;
  digest_bytes = λ bytes. zeros-bytes 32;
}

ann_can : CanLogin reading service "t" "ann" "password" 5 accounts user approver
unfolding get_tenant get_org get_user_by_username Names verify_password effective_role
    get_user_org_role bytes_eq unhex parse
ann_can = record {
  org = org;
  of_tenant = refl;
  of_org = refl;
  is_open = refl;
  named = inl refl;
  enabled = refl;
  password_ok = refl;
  entitled = refl;
}

login-require_auth_example :
    (tokens : AuthTokens) × ((login reading service "t" "ann" "password" 5 host).0 ≡ ok tokens)
    × (require_auth reading service (some tokens.access_token) 100 accounts
        ≡ ok (record { user_id = "u"; tenant_id = "t"; role = approver }))
unfolding hex is_token_revoked
login-require_auth_example =
    login-require_auth reading service encoding-IsFaithful "t" "ann" "password" 5 100 host accounts
      user approver ann_can refl (omega arith) refl
