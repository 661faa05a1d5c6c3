-- ===== src/Validate/Credentials/Tests.antt =====
-- Tests and instances of the credential scan.
use evorule_rule.Prelude.{is_empty, false}
use evorule_rule.Prelude.{◌≡◌, refl, true, false, [], ◌∷◌, Text, codes}
use evorule_rule.Chars.{to_ascii_lowercase, is_ascii_lowercase}
use evorule_rule.Validate.Credentials.{scan_credentials, text_mem}
use evorule_rule.Validate.Credentials.Plain.{plain_secret_reported}

json_password :
    scan_credentials (codes "{\"password\": \"hunter2\"}") ≡ codes "password=hunter2" ∷ []
unfolding scan_credentials
json_password = refl

prose : scan_credentials (codes "password authentication is active; port = 8888") ≡ []
unfolding scan_credentials
prose = refl

github : scan_credentials (codes "x ghp_abc y") ≡ codes "ghp_" ∷ []
unfolding scan_credentials
github = refl

shouting : scan_credentials (codes "export API_KEY=hunter ") ≡ codes "api_key=hunter" ∷ []
unfolding scan_credentials
shouting = refl

-- The value is lower-cased before the exemption for `PLACEHOLDER` is tried.
placeholder_flagged :
    scan_credentials (codes "password: PLACEHOLDER") ≡ codes "password=placeholder" ∷ []
unfolding scan_credentials
placeholder_flagged = refl

-- A value that begins with a digit passes.
digit_passes : scan_credentials (codes "password=7hunter") ≡ []
unfolding scan_credentials
digit_passes = refl

abbrev leak : Text
leak = codes "x API_KEY=hunter y"

plain_secret_reported_example : text_mem (codes "api_key=hunter") (scan_credentials leak) ≡ true
unfolding to_ascii_lowercase is_ascii_lowercase
plain_secret_reported_example =
    plain_secret_reported leak (codes "x ") (codes "api_key") b'h' (codes "unter") b' ' (codes "y")
      refl refl refl refl refl refl

-- A value that is marked as a placeholder is reported all the same.
placeholder_reported : is_empty (scan_credentials (codes "password=PLACEHOLDER")) ≡ false
unfolding scan_credentials
placeholder_reported = refl
