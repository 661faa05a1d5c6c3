-- ===== src/Auth/Tests.antt =====
-- Tests and instances of the flows of authentication.
use evorule_rule.Prelude.{
  ℕ, ◌<◌, ◌%◌, zero, suc, String, ◌≡◌, refl, ap, ◌+◌, ◌↔◌, inr, Bool, true, false, none, some, List,
  [], ◌∷◌, Result, ok, err, arith, All, length, if◌then◌else◌, str_eq,
}
use evorule_rule.Model.Auth.{Role, viewer, approver, Org, User, TokenClaims}
use evorule_rule.KeyRing.{AuthError, verify_token, verify_with_secret}
use evorule_rule.Accounts.State.{Accounts, no_accounts}
use evorule_rule.Accounts.Users.{
  get_tenant, get_user, get_user_by_username, get_user_by_username_any,
}
use evorule_rule.Accounts.Orgs.{get_org, get_user_org_role}
use evorule_rule.Accounts.Tokens.{is_token_revoked, revoke_token, record_auth_audit}
use evorule_rule.Auth.Digest.{as_bytes, hex, unhex, pbkdf2_hmac_sha256, hmac_sha256}
use evorule_rule.Auth.Digest.Hex.{unhex-hex, hex-NoDot}
use evorule_rule.Auth.Token.{Encoding, jwt, sign}
use evorule_rule.Auth.Flow.{Host}
use evorule_rule.Auth.Service.{
  Crates, AuthService, AuthTokens, login, uuidish, record_audit, effective_role, tokens_for_in,
}
use evorule_rule.Auth.Service.Granted.{minted}
use evorule_rule.Model.Auth.{parse}
use evorule_rule.Auth.Password.{Hashes, bytes_eq, hash_password, verify_password, needs_rehash}
use evorule_rule.Auth.Password.Laws.{verify-hash_password}
use evorule_rule.Auth.Digest.Blocks.{length-pbkdf2_hmac_sha256}
use evorule_rule.Auth.Token.{issue_access_token_in, issue_refresh_token_in}
use evorule_rule.Auth.Token.Issued.{IsFaithful, verify_token-sign}
use evorule_rule.Auth.Clock.{iso_from_unix, iso_from_unix_no_z}
use evorule_rule.Auth.Clock.Calendar.{civil_from_days, in_year, year_of_era, day_of_year}
use evorule_rule.Auth.Clock.Calendar.Dates.{IsDate, civil_from_days-IsDate}
use evorule_rule.Auth.Service.Login.{CanLogin, login_iff}
use evorule_rule.Auth.Session.Admitted.{IsAdmitted, refresh_iff}
use evorule_rule.Auth.Session.SingleUse.{refreshed, used_once}
use evorule_rule.Auth.Reach.{here, next, refreshes, Later-Extends}
use evorule_rule.Accounts.Growth.{Extends}
use evorule_rule.Auth.Session.{refresh, refresh_checks, rotate_token, verify}

-- A digest is 32 zeros, a list of bytes is encoded by its digits, and the claims by their type.
abbrev pub zeros : ℕ → List ℕ
zeros zero = []
zeros (suc n) = 0 ∷ zeros n

abbrev claims_of : String → TokenClaims
claims_of kind = record {
  sub = "u";
  tenant_id = "t";
  role = "viewer";
  token_type = kind;
  iat = 0;
  exp = 900;
  jti = kind;
}

abbrev read_claims : List ℕ → Result String TokenClaims
read_claims (b ∷ []) = ok (claims_of "access")
read_claims _ = ok (claims_of "refresh")

abbrev encoding : Encoding
encoding = record {
  sha256 = λ bytes. zeros 32;
  encode = hex;
  decode = λ s. some (unhex s);
  header = 0 ∷ [];
  to_vec = λ c. if str_eq c.token_type "access" then 7 ∷ [] else 7 ∷ 7 ∷ [];
  from_slice = read_claims;
}

-- A password's digest is its length, and the draws count up.
abbrev pub crates : Crates
crates = record {
  encoding = encoding;
  argon2id = λ password salt. length password % 256 ∷ [];
  random = λ n. n % 256 ∷ [];
}

abbrev hashes : Hashes
hashes = record { sha256 = λ bytes. zeros 32; argon2id = crates.argon2id }

abbrev pub service : AuthService
service = record { secret = "k"; previous_secret = none; pbkdf2_iterations = 1 }

abbrev refresh_token : String
refresh_token = "00.0707.0000000000000000000000000000000000000000000000000000000000000000"

abbrev access_token : String
access_token = "00.07.0000000000000000000000000000000000000000000000000000000000000000"

abbrev pub user : User
user = record {
  user_id = "u";
  tenant_id = "t";
  username = "ann";
  password_hash = "a2$08";
  salt = "";
  role = viewer;
  disabled = false;
  created_at = "";
  updated_at = "";
}

abbrev pub org : Org
org = record { org_id = "t"; name = "o"; disabled = false; created_at = "" }

-- One user in one organisation, an approver there.
abbrev pub accounts : Accounts
accounts = record no_accounts {
  tenants = record { tenant_id = "t"; name = "n"; instance_id = "i"; created_at = "" } ∷ [];
  orgs = org ∷ [];
  users = user ∷ [];
  memberships = record { user_id = "u"; org_id = "t"; role = "approver"; created_at = "" } ∷ [];
}

abbrev pub host : Host
host = record { accounts = accounts; drawn = 0 }

abbrev tokens : AuthTokens
tokens = record {
  access_token = "00.07.0000000000000000000000000000000000000000000000000000000000000000";
  refresh_token = "00.0707.0000000000000000000000000000000000000000000000000000000000000000";
  access_expires_at = 905;
  refresh_expires_at = 2592005;
}

refresh_runs : (refresh crates service "t" refresh_token 5 host).0 ≡ ok tokens
unfolding refresh refresh_checks rotate_token verify verify_token verify_with_secret
    is_token_revoked get_user effective_role get_user_org_role tokens_for_in uuidish record_audit
    record_auth_audit revoke_token bytes_eq hmac_sha256 unhex parse sign issue_access_token_in
    issue_refresh_token_in hex
refresh_runs = refl

used_once_example :
    (e : AuthError) × ((refresh crates service "t" refresh_token 6
        (refresh crates service "t" refresh_token 5 host).1).0
      ≡ err e)
used_once_example =
    used_once crates refresh_token (refreshed service "t" 5 host tokens refresh_runs) (λ c e. refl)
      here service "t" 6

-- Two refreshes whose checks both ran before either revoked the token: both return tokens.
checks_run :
    (refresh_checks crates service "t" refresh_token 5 host).0
    ≡ ok (claims_of "refresh", user, approver)
unfolding refresh_checks verify verify_token verify_with_secret is_token_revoked get_user
    effective_role get_user_org_role bytes_eq hmac_sha256 unhex parse
checks_run = refl

both_refresh :
    let first = refresh crates service "t" refresh_token 5 host in
    (rotate_token crates service "t" 5 (claims_of "refresh", user, approver) first.1).0 ≡ ok tokens
unfolding refresh refresh_checks rotate_token verify verify_token verify_with_secret
    is_token_revoked get_user effective_role get_user_org_role tokens_for_in uuidish record_audit
    record_auth_audit revoke_token bytes_eq hmac_sha256 unhex parse sign issue_access_token_in
    issue_refresh_token_in hex
both_refresh = refl

Later-Extends_example :
    Extends accounts (refresh crates service "t" refresh_token 5 host).1.accounts
Later-Extends_example =
    Later-Extends crates (next (here {h = host}) (refreshes service "t" refresh_token 5))

refresh_iff_example : ((refresh crates service "t" refresh_token 5 host).0 ≡ ok tokens) ↔ (
    (claims : TokenClaims) × (user : User) × (role : Role) × IsAdmitted crates service "t"
      refresh_token 5 host claims user role
    × (tokens ≡ minted crates service user "t" role 5 0))
refresh_iff_example = refresh_iff crates service "t" refresh_token 5 host tokens

login_iff_example : ((login crates service "t" "ann" "password" 5 host).0 ≡ ok tokens) ↔ (
    (user : User) × (role : Role) × CanLogin crates service "t" "ann" "password" 5 accounts user
      role
    × (tokens ≡ minted crates service user "t" role 5 0))
login_iff_example = login_iff crates service "t" "ann" "password" 5 host tokens

login_runs : (login crates service "t" "ann" "password" 5 host).0 ≡ ok tokens
unfolding login get_tenant get_org get_user_by_username verify_password bytes_eq unhex needs_rehash
    effective_role get_user_org_role parse uuidish record_audit record_auth_audit hex hmac_sha256
login_runs = refl

-- A user who is no member is refused, and no row says so.
abbrev outsiders : Host
outsiders = record {
  accounts = record accounts {
    orgs = record org { org_id = "x" } ∷ [];
    tenants = record { tenant_id = "x"; name = "n"; instance_id = "i"; created_at = "" } ∷ [];
  };
  drawn = 0;
}

outsider_refused :
    login crates service "x" "ann" "password" 5 outsiders
    ≡ (err AuthError.not_org_member, outsiders)
unfolding login get_tenant get_org get_user_by_username get_user_by_username_any verify_password
    bytes_eq unhex needs_rehash effective_role get_user_org_role
outsider_refused = refl

pub zeros-bytes : (n : ℕ) → All (λ b. b < 256) (zeros n)
zeros-bytes zero = tt
zeros-bytes (suc n) = (omega arith, zeros-bytes n)

claims-bytes : (access : Bool) → All (λ b. b < 256) (if access then 7 ∷ [] else 7 ∷ 7 ∷ [])
claims-bytes true = (omega arith, tt)
claims-bytes false = (omega arith, (omega arith, tt))

encoding-IsFaithful : IsFaithful encoding
encoding-IsFaithful = record {
  decode-encode = λ bytes h. ap some (unhex-hex bytes h);
  no_dot = hex-NoDot;
  header_bytes = (omega arith, tt);
  claims_bytes = λ c. claims-bytes (str_eq c.token_type "access");
  digest_bytes = λ bytes. zeros-bytes 32;
}

verify_token-sign_example :
    verify_token (jwt encoding) "new" (some "k") (sign encoding "k" (claims_of "access")) 5 "access"
    ≡ ok (claims_of "access")
verify_token-sign_example =
    verify_token-sign encoding encoding-IsFaithful "new" (some "k") "k" (claims_of "access") 5 refl
      (inr refl) (omega arith)

verify-hash_password_example :
    ((verify_password hashes 1 "pass" "00" (hash_password hashes "word" "00") ≡ true) ↔ (
      hashes.argon2id (as_bytes "word") (unhex "00")
      ≡ hashes.argon2id (as_bytes "pass") (unhex "00")))
    × (needs_rehash (hash_password hashes "word" "00") ≡ false)
verify-hash_password_example =
    verify-hash_password hashes (λ password salt. (omega arith, tt)) 1 "word" "pass" "00"

length-pbkdf2_hmac_sha256_example :
    length (pbkdf2_hmac_sha256 (λ b. zeros 32) (1 ∷ []) [] 2 40) ≡ 40
length-pbkdf2_hmac_sha256_example =
    length-pbkdf2_hmac_sha256 (λ b. zeros 32) (λ b. refl) (1 ∷ []) [] 2 40

leap_day : civil_from_days 11016 ≡ record { year = 2000; month = 2; day = 29 }
unfolding civil_from_days in_year year_of_era day_of_year
leap_day = refl

civil_from_days-IsDate_example : IsDate (civil_from_days 11016) (11016 + 719528)
civil_from_days-IsDate_example = civil_from_days-IsDate 11016

midnight : iso_from_unix 951782400 ≡ "2000-02-29T00:00:00Z"
unfolding iso_from_unix iso_from_unix_no_z civil_from_days in_year year_of_era day_of_year
midnight = refl
