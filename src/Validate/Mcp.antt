-- ===== src/Validate/Mcp.antt =====
-- src/model/mcp_servers.rs and src/model/mcp_packs.rs: the entries that approve a server and the
-- packs that delegate some to a task. An error is named where the source words a message.
pub mod Servers
pub mod Packs
pub mod Fields
pub mod Approval
pub mod Demo
mod Tests
use evorule_rule.Prelude.{
  Bool, not, Option, none, some, List, [], ◌∷◌, Text, is_empty, if◌then◌else◌,
}
use evorule_rule.External.{Externals}
use evorule_rule.Chars.{trim, text_eq}

pub data McpError : Type 0 where
  not_an_object : McpError
  missing_command blank_command empty_args blank_segment inner_wildcard args_not_text args_not_array
        bare_interpreter missing_comment :
      McpError
  missing_attribution blank_attribution : (key : Text) → McpError
  wrong_key missing_key : McpError
  missing_task blank_task missing_servers no_servers server_not_text no_prefix not_a_key
        repeated_server missing_ttl zero_ttl wrong_gap missing_gap wrong_budget :
      McpError

abbrev pub and_then {ℓ κ} : {A : Type ℓ} {B : Type κ} → Option A → (A → Option B) → Option B
and_then none f = none
and_then (some a) f = f a

-- `obj.get(key)` and `obj.insert(key, value)`.
abbrev pub get : {J : Type 0} → Text → List (Text × J) → Option J
get key [] = none
get key (field ∷ obj) = if text_eq field.0 key then some field.1 else get key obj

abbrev pub insert : {J : Type 0} → Text → J → List (Text × J) → List (Text × J)
insert key value [] = (key, value) ∷ []
insert key value (field ∷ obj) =
    let rest = insert key value obj in
    if text_eq field.0 key then (key, value) ∷ obj else field ∷ rest

unfoldable pub is_stated : Text → Bool
is_stated s = not (is_empty (trim s))

module _ (x : Externals) where
  -- `obj.get(key).and_then(|v| v.as_str())`.
  abbrev pub get_str : Text → List (Text × x.Json) → Option Text
  get_str key obj = and_then (get key obj) x.as_str
