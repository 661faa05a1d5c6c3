-- ===== src/Validate/Law.antt =====
-- `validate_law_structure` and `validate_law_formula` of src/validate/mod.rs: the seven elements of
-- a law entry, and the shape of its formula. An error is named where the source words a message.
pub mod Formula
mod Tests
use evorule_rule.Prelude.{
  ℕ, Bool, true, false, not, ◌&&◌, ◌||◌, Option, none, some, is_some, is_none, List, [], ◌∷◌, Text,
  codes, Result, ok, err, ◌>>=◌, ◌>>◌, guard, ok_or, ltb, leb, ◌==◌, length, is_empty, all, any,
  find, if◌then◌else◌,
}
use evorule_rule.External.{Externals}
use evorule_rule.Chars.{is_ascii_digit, is_ascii_lowercase, trim, text_eq}

pub data LawError : Type 0 where
  not_an_object missing_id illegal_id missing_formula : LawError
  formula_too_short bare_equals no_separator many_separators : LawError
  missing_symbols few_symbols symbols_not_text missing_units blank_unit missing_domain : LawError
  missing_list list_not_text missing_tier : LawError

-- `f.replace("==", "=")`, where `after` says that the last character was the first `=` of a pair.
unfoldable pub normalize : (after : Bool) → Text → Text
normalize after [] = []
normalize true (c ∷ s) = if c == b'=' then normalize false s else c ∷ normalize false s
normalize false (c ∷ s) = c ∷ normalize (c == b'=') s

abbrev pub cons_head : ℕ → List Text → List Text
cons_head c [] = []
cons_head c (p ∷ ps) = (c ∷ p) ∷ ps

-- `split('=')`.
unfoldable pub split_equals : Text → List Text
split_equals [] = [] ∷ []
split_equals (c ∷ s) =
    let rest = split_equals s in if c == b'=' then [] ∷ rest else cons_head c rest

unfoldable pub check_sides : List Text → Result LawError (Unit {0})
check_sides (lhs ∷ rhs ∷ []) = guard (not (is_empty (trim lhs) || is_empty (trim rhs))) bare_equals
check_sides (part ∷ []) = err no_separator
check_sides _ = err many_separators

unfoldable pub validate_law_formula : Text → Result LawError (Unit {0})
unfolding check_sides normalize split_equals
validate_law_formula formula =
    guard (not (ltb (length (trim formula)) 3)) formula_too_short
    >> check_sides (split_equals (normalize false (trim formula)))

-- `^[a-z][a-z0-9_]*$`.
unfoldable pub id_ok : Text → Bool
id_ok [] = false
id_ok (c ∷ s) =
    is_ascii_lowercase c && all (λ d. is_ascii_lowercase d || is_ascii_digit d || d == b'_') s

abbrev and_then {ℓ κ} : {A : Type ℓ} {B : Type κ} → Option A → (A → Option B) → Option B
and_then none f = none
and_then (some a) f = f a

abbrev value_of : {J : Type 0} → Option (Text × J) → Option J
value_of none = none
value_of (some field) = some field.1

module _ (x : Externals) where
  -- `obj.get(key)`.
  abbrev get : Text → List (Text × x.Json) → Option x.Json
  get key obj = value_of (find (λ field. text_eq field.0 key) obj)

  abbrev is_blank : Option Text → Bool
  is_blank none = true
  is_blank (some s) = is_empty (trim s)

  text_list : Text → List (Text × x.Json) → Result LawError (Unit {0})
  text_list key obj = do
    items ← ok_or (and_then (get key obj) x.as_array) missing_list
    guard (not (any (λ v. is_none (x.as_str v)) items)) list_not_text

  abbrev is_tier : Option Text → Bool
  is_tier none = false
  is_tier (some t) = text_eq t (codes "light") || text_eq t (codes "full")

  unfoldable pub validate_law_structure : x.Json → Result LawError (Unit {0})
  unfolding validate_law_formula text_list id_ok
  validate_law_structure payload = do
    obj ← ok_or (x.as_object payload) not_an_object
    id ← ok_or (and_then (get (codes "id") obj) x.as_str) missing_id
    guard (id_ok id) illegal_id
    formula ← ok_or (and_then (get (codes "formula") obj) x.as_str) missing_formula
    validate_law_formula formula
    symbols ← ok_or (and_then (get (codes "symbols") obj) x.as_object) missing_symbols
    guard (not (ltb (length symbols) 2)) few_symbols
    guard (not (any (λ field. is_none (x.as_str field.1)) symbols)) symbols_not_text
    units ← ok_or (and_then (get (codes "si_units") obj) x.as_object) missing_units
    guard (not (any (λ field. is_blank (x.as_str field.1)) units)) blank_unit
    guard (not (is_blank (and_then (get (codes "domain") obj) x.as_str))) missing_domain
    text_list (codes "solvable") obj
    text_list (codes "derivation") obj
    guard (is_tier (and_then (get (codes "tier") obj) x.as_str)) missing_tier
