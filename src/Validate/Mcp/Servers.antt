-- ===== src/Validate/Mcp/Servers.antt =====
-- `validate_mcp_server_entry` of src/model/mcp_servers.rs, and what fills in the approval.
use evorule_rule.Prelude.{
  String, Bool, true, false, not, ◌&&◌, Option, none, some, List, [], ◌∷◌, Text, codes, Result, ok,
  err, ◌>>=◌, ◌>>◌, guard, ok_or, map, any, is_empty, if◌then◌else◌, ◌==◌,
}
use evorule_rule.External.{Externals}
use evorule_rule.Chars.{text_eq, contains, to_ascii_lowercase}
use evorule_rule.Validate.Mcp.{
  McpError, not_an_object, missing_command, blank_command, empty_args, blank_segment,
  inner_wildcard, args_not_text, args_not_array, bare_interpreter, missing_comment,
  missing_attribution, blank_attribution, wrong_key, missing_key, get, insert, is_stated, get_str,
}

abbrev pub mcp_servers_dataset_id : String
mcp_servers_dataset_id = "org.evorule.mcp.servers"

abbrev pub mcp_server_schema_ref : String
mcp_server_schema_ref = "builtin:mcp/server"

abbrev pub bare_interpreters : List Text
bare_interpreters =
    codes "npx"
    ∷ codes "uvx"
    ∷ codes "node"
    ∷ codes "python"
    ∷ codes "python3"
    ∷ codes "deno"
    ∷ codes "bun"
    ∷ []

-- `s.ends_with('*')`.
abbrev ends_with_star : Text → Bool
ends_with_star [] = false
ends_with_star (c ∷ []) = c == b'*'
ends_with_star (c ∷ (d ∷ s)) = ends_with_star (d ∷ s)

unfoldable segment_error : Text → Option McpError
segment_error s =
    if is_empty s
    then some blank_segment
    else if contains s (codes "*") && not (ends_with_star s)
    then some inner_wildcard
    else none

-- The first segment that is refused.
abbrev segments : List Text → Result McpError (Unit {0})
segments [] = ok tt
segments (s ∷ rest) = elim (segment_error s) [ some e ↦ err e | none ↦ segments rest ]

abbrev pattern_ok : Option (List Text) → Result McpError (Unit {0})
pattern_ok none = ok tt
pattern_ok (some []) = err empty_args
pattern_ok (some (s ∷ rest)) = segments (s ∷ rest)

abbrev is_absent : Option (List Text) → Bool
is_absent none = true
is_absent (some args) = is_empty args

unfoldable pub is_bare : Text → Bool
is_bare command = any (λ i. text_eq (to_ascii_lowercase command) i) bare_interpreters

unfoldable pub validate_approval_entry : Text → Option (List Text) → Result McpError (Unit {0})
unfolding is_stated segment_error is_bare
validate_approval_entry command args_pattern = do
  guard (is_stated command) blank_command
  pattern_ok args_pattern
  guard (not (is_bare command && is_absent args_pattern)) bare_interpreter

module _ (x : Externals) where
  abbrev args_of : Option (List Text) → List Text
  args_of none = []
  args_of (some args) = args

  -- The digest of the array of the command and the segments.
  unfoldable pub canonical_server_key : Text → Option (List Text) → Text
  canonical_server_key command args_pattern =
      codes (x.digest (x.of_array (map x.of_str (command ∷ args_of args_pattern))))

  abbrev all_str : List x.Json → Result McpError (List Text)
  all_str [] = ok []
  all_str (v ∷ vs) = do s ← ok_or (x.as_str v) args_not_text; rest ← all_str vs; ok (s ∷ rest)

  abbrev some_str : Result McpError (List Text) → Result McpError (Option (List Text))
  some_str (err e) = err e
  some_str (ok args) = ok (some args)

  abbrev array_str : Option (List x.Json) → Result McpError (Option (List Text))
  array_str none = err args_not_array
  array_str (some items) = some_str (all_str items)

  abbrev pub args_pattern_of : Option x.Json → Result McpError (Option (List Text))
  args_pattern_of none = ok none
  args_pattern_of (some v) = if x.is_null v then ok none else array_str (x.as_array v)

  abbrev pub stated_comment : Option Text → Result McpError (Unit {0})
  stated_comment none = err missing_comment
  stated_comment (some s) = guard (is_stated s) missing_comment

  -- One of the three parts of an approval.
  abbrev pub attribution : Bool → Text → Option Text → Result McpError (Unit {0})
  attribution required key (some s) = guard (is_stated s) (blank_attribution key)
  attribution false key none = ok tt
  attribution true key none = err (missing_attribution key)

  abbrev pub same_key : Text → Option Text → Result McpError (Unit {0})
  same_key expected none = err missing_key
  same_key expected (some k) = guard (text_eq k expected) wrong_key

  unfoldable pub validate_mcp_server_entry : x.Json → Bool → Result McpError (Unit {0})
  unfolding validate_approval_entry canonical_server_key
  validate_mcp_server_entry payload require_approval_attribution = do
    obj ← ok_or (x.as_object payload) not_an_object
    command ← ok_or (get_str x (codes "command") obj) missing_command
    args_pattern ← args_pattern_of (get (codes "args_pattern") obj)
    validate_approval_entry command args_pattern
    stated_comment (get_str x (codes "comment") obj)
    attribution require_approval_attribution (codes "approved_by")
        (get_str x (codes "approved_by") obj)
    attribution require_approval_attribution (codes "approved_at")
        (get_str x (codes "approved_at") obj)
    attribution require_approval_attribution (codes "approval_ref")
        (get_str x (codes "approval_ref") obj)
    same_key (canonical_server_key command args_pattern) (get_str x (codes "server_key") obj)

  unfoldable pub validate_mcp_server_payload : x.Json → Result McpError (Unit {0})
  unfolding validate_mcp_server_entry
  validate_mcp_server_payload payload = validate_mcp_server_entry payload true

  abbrev pub is_blank : Option Text → Bool
  is_blank none = true
  is_blank (some s) = not (is_stated s)

  -- A part that is absent or blank.
  abbrev pub fill : Text → Text → List (Text × x.Json) → List (Text × x.Json)
  fill key v obj = if is_blank (get_str x key obj) then insert key (x.of_str v) obj else obj

  abbrev pub filled : (by at ref : Text) → List (Text × x.Json) → List (Text × x.Json)
  filled by at ref obj =
      fill (codes "approval_ref") ref
        (fill (codes "approved_at") at (fill (codes "approved_by") by obj))

  abbrev pub fill_object : (by at ref : Text) → x.Json → Option (List (Text × x.Json)) → x.Json
  fill_object by at ref payload none = payload
  fill_object by at ref payload (some obj) = x.of_object (filled by at ref obj)

  unfoldable pub fill_approval_attribution : (by at ref : Text) → x.Json → x.Json
  unfolding is_stated
  fill_approval_attribution by at ref payload = fill_object by at ref payload (x.as_object payload)

  abbrev pub missing_in : Option (List (Text × x.Json)) → Bool
  missing_in none = true
  missing_in (some obj) =
      any (λ key. is_blank (get_str x key obj))
        (codes "approved_by" ∷ codes "approved_at" ∷ codes "approval_ref" ∷ [])

  unfoldable pub approval_attribution_missing : x.Json → Bool
  unfolding is_stated
  approval_attribution_missing payload = missing_in (x.as_object payload)
