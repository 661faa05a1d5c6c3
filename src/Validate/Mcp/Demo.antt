-- ===== src/Validate/Mcp/Demo.antt =====
-- Data for the tests of the MCP registries: a small JSON, and a proposed server.
use evorule_rule.Prelude.{
  ℕ, Bool, true, false, Option, none, some, is_none, if◌then◌else◌, List, [], ◌∷◌, Text, codes,
}
use evorule_rule.External.{Externals}
use evorule_rule.Validate.Mcp.{get}
use evorule_rule.Demo.{demo}

-- Arrays and objects end in their empty ones.
pub data Json : Type 0 where
  null empty_array empty_object : Json
  number : ℕ → Json
  string : Text → Json
  item : (first rest : Json) → Json
  field : (key : Text) (value rest : Json) → Json

abbrev pub object_of : List (Text × Json) → Json
object_of [] = empty_object
object_of (f ∷ fields) = field f.0 f.1 (object_of fields)

abbrev pub cons_to : {A : Type 0} → A → Option (List A) → Option (List A)
cons_to a none = none
cons_to a (some rest) = some (a ∷ rest)

-- A field in front of others with other keys.
abbrev pub field_to : Text → Json → Option (List (Text × Json)) → Option (List (Text × Json))
field_to key v none = none
field_to key v (some rest) = if is_none (get key rest) then some ((key, v) ∷ rest) else none

abbrev pub fields_of : Json → Option (List (Text × Json))
fields_of empty_object = some []
fields_of (field key value rest) = field_to key value (fields_of rest)
fields_of _ = none

abbrev pub array_of : List Json → Json
array_of [] = empty_array
array_of (v ∷ vs) = item v (array_of vs)

abbrev pub items_of : Json → Option (List Json)
items_of empty_array = some []
items_of (item first rest) = cons_to first (items_of rest)
items_of _ = none

abbrev pub string_of : Json → Option Text
string_of (string s) = some s
string_of _ = none

abbrev pub number_of : Json → Option ℕ
number_of (number n) = some n
number_of _ = none

abbrev pub null_is : Json → Bool
null_is null = true
null_is _ = false

abbrev pub json : Externals
json = record demo {
  Json = Json;
  to_text = λ v. [];
  as_object = fields_of;
  as_array = items_of;
  as_str = string_of;
  as_u64 = number_of;
  is_null = null_is;
  of_str = string;
  of_array = array_of;
  of_object = object_of;
  digest = λ v. "key";
  io_services_from_rule_body = λ body. [];
  has_dynamic_service_ref = λ body. false;
}

-- A proposed server, without an approval.
abbrev pub proposed : Json
proposed = object_of (
    (codes "command", string (codes "NPX"))
    ∷ (codes "args_pattern", array_of (string (codes "-y") ∷ string (codes "@mcp/*") ∷ []))
    ∷ (codes "comment", string (codes "mail"))
    ∷ (codes "server_key", string (codes "key"))
    ∷ [])
