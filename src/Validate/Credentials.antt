-- ===== src/Validate/Credentials.antt =====
-- `scan_credentials` of src/validate/mod.rs: the search of a text for what looks like a secret.
-- A hit is the list of code points that the program pushes: a known prefix, or `name=value`.
pub mod Detection
pub mod Hits
pub mod Plain
pub mod Placeholder
mod Tests
use evorule_rule.Prelude.{
  ℕ, zero, suc, ◌-◌, Bool, true, false, not, ◌&&◌, ◌||◌, List, [], ◌∷◌, ◌++◌, Text, codes, ◌==◌,
  leb, any, drop, length, is_empty, if◌then◌else◌,
}
use evorule_rule.Chars.{
  is_ascii_digit, to_ascii_lowercase, trim_start_matches, trim_end_matches, trim_start, text_eq,
  starts_with, contains, take_while, first_part,
}

abbrev pub fmt_prefixes : List Text
fmt_prefixes = codes "AKIA" ∷ codes "ghp_" ∷ codes "gho_" ∷ codes "ghs_" ∷ codes "ghu_" ∷ []

abbrev pub key_names : List Text
key_names =
    codes "api_key"
    ∷ codes "apikey"
    ∷ codes "access_token"
    ∷ codes "auth_token"
    ∷ codes "refresh_token"
    ∷ codes "secret"
    ∷ codes "client_secret"
    ∷ codes "private_key"
    ∷ codes "password"
    ∷ codes "passwd"
    ∷ codes "credential"
    ∷ codes "credentials"
    ∷ codes "authorization"
    ∷ codes "bearer"
    ∷ []

-- 1) The known prefixes that the text holds.
abbrev pub prefix_hits : Text → List Text → List Text
prefix_hits text [] = []
prefix_hits text (p ∷ ps) =
    let rest = prefix_hits text ps in if contains text p then p ∷ rest else rest

-- A character that may stand between a key and its separator: `' ' | '\t' | '"' | '\''`.
abbrev is_gap : ℕ → Bool
is_gap c = c == b' ' || c == 9 || c == 34 || c == 39

-- `count().min(2)` of the leading gap characters.
abbrev pub gap : Text → ℕ
gap s = let n = length (take_while is_gap s) in if leb n 2 then n else 2

-- `vtrim`: what follows the separator, less white space and opening quotes.
unfoldable pub value_text : Text → Text
unfolding trim_start
value_text s = trim_start_matches (λ c. c == 39) (trim_start_matches (λ c. c == 34) (trim_start s))

abbrev starts_no_digit : Text → Bool
starts_no_digit [] = false
starts_no_digit (c ∷ s) = not (is_ascii_digit c)

unfoldable pub non_trivial : Text → Bool
unfolding is_ascii_digit
non_trivial v =
    not (is_empty v)
    && not (starts_with v (codes "true"))
    && not (starts_with v (codes "false"))
    && not (starts_with v (codes "{"))
    && not (starts_with v (codes "["))
    && not (starts_with v (codes "<"))
    && starts_no_digit v

-- `[',', '"', '\'', ')', '}', '\n', ' ']`.
abbrev pub ends_value : ℕ → Bool
ends_value c = c == b',' || c == 34 || c == 39 || c == b')' || c == b'}' || c == 10 || c == b' '

unfoldable pub value : Text → Text
value v = trim_end_matches (λ c. c == b'{' || c == b',') (first_part ends_value v)

unfoldable pub is_accepted : Text → Bool
is_accepted val =
    not (is_empty val)
    && not (contains val (codes "提示"))
    && not (contains val (codes "示例"))
    && not (contains val (codes "占位"))
    && not (contains val (codes "PLACEHOLDER"))
    && not (contains val (codes "..."))
    && not (contains val (codes "<"))
    && not (contains val (codes "{"))

abbrev is_separator : Text → Bool
is_separator s = starts_with s (codes ":") || starts_with s (codes "=")

-- The hits at one occurrence of `name`, given the text behind it.
unfoldable pub key_hits : Text → Text → List Text
unfolding value_text non_trivial value is_accepted
key_hits name behind =
    let rest = drop (gap behind) behind in
    let v = value_text (drop 1 rest) in
    let val = value v in
    if is_separator rest && non_trivial v && is_accepted val
    then (name ++ codes "=" ++ val) ∷ []
    else []

-- The `while let` over the occurrences of `name`: the search goes on behind an occurrence, so
-- `skip` counts the characters of the last one that are still to be passed over.
unfoldable pub scan_key : Text → ℕ → Text → List Text
unfolding key_hits
scan_key name skip [] = []
scan_key name (suc skip) (c ∷ s) = scan_key name skip s
scan_key name zero (c ∷ s) =
    let hit = starts_with (c ∷ s) name in
    let here = if hit then key_hits name (drop (length name) (c ∷ s)) else [] in
    here ++ scan_key name (if hit then length name - 1 else 0) s

unfoldable pub scan_keys : List Text → Text → List Text
unfolding scan_key
scan_keys [] text = []
scan_keys (name ∷ names) text = scan_key name 0 text ++ scan_keys names text

-- `hits.retain(|h| seen.insert(h.clone()))`.
abbrev pub text_mem : Text → List Text → Bool
text_mem t = any (λ u. text_eq u t)

unfoldable pub retain_new : List Text → List Text → List Text
retain_new seen [] = []
retain_new seen (h ∷ hs) =
    let rest = retain_new (h ∷ seen) hs in if text_mem h seen then rest else h ∷ rest

unfoldable pub scan_credentials : Text → List Text
unfolding scan_keys retain_new to_ascii_lowercase
scan_credentials text =
    retain_new [] (prefix_hits text fmt_prefixes ++ scan_keys key_names (to_ascii_lowercase text))
