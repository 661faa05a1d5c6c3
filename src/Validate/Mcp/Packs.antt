-- ===== src/Validate/Mcp/Packs.antt =====
-- `validate_mcp_pack_payload` of src/model/mcp_packs.rs.
use evorule_rule.Prelude.{
  ℕ, String, Bool, not, ◌&&◌, ◌||◌, Option, none, some, List, [], ◌∷◌, Text, codes, Result, ok, err,
  ◌>>=◌, ◌>>◌, guard, ok_or, any, all, is_empty, length, ltb, leb, ◌==◌, if◌then◌else◌,
}
use evorule_rule.External.{Externals}
use evorule_rule.Chars.{text_eq}
use evorule_rule.Validate.Mcp.{
  McpError, not_an_object, missing_task, blank_task, missing_servers, no_servers, server_not_text,
  no_prefix, not_a_key, repeated_server, missing_ttl, zero_ttl, wrong_gap, missing_gap,
  wrong_budget, and_then, get, is_stated, get_str,
}

abbrev pub mcp_packs_dataset_id : String
mcp_packs_dataset_id = "org.evorule.mcp.packs"

abbrev pub mcp_pack_schema_ref : String
mcp_pack_schema_ref = "builtin:mcp/pack"

abbrev is_ascii_hexdigit : ℕ → Bool
is_ascii_hexdigit c = (leb 48 c && leb c 57) || (leb 97 c && leb c 102) || (leb 65 c && leb c 70)

-- `strip_prefix`, the prefix first.
abbrev strip_prefix : Text → Text → Option Text
strip_prefix [] s = some s
strip_prefix (c ∷ p) [] = none
strip_prefix (c ∷ p) (d ∷ s) = let rest = strip_prefix p s in if c == d then rest else none

-- 64 hexadecimal digits after the prefix.
unfoldable pub is_server_key : Text → Result McpError (Unit {0})
is_server_key key = do
  hex ← ok_or (strip_prefix (codes "blake3:") key) no_prefix
  guard (length hex == 64 && all is_ascii_hexdigit hex) not_a_key

module _ (x : Externals) where
  -- The servers after those in `seen`.
  abbrev pub servers_ok : (seen : List Text) → List x.Json → Result McpError (Unit {0})
  servers_ok seen [] = ok tt
  servers_ok seen (v ∷ vs) = do
    key ← ok_or (x.as_str v) server_not_text
    is_server_key key
    guard (not (any (text_eq key) seen)) repeated_server
    servers_ok (key ∷ seen) vs

  abbrev gap_ok : Option x.Json → Result McpError (Unit {0})
  gap_ok none = err missing_gap
  gap_ok (some v) = elim (x.as_str v) [
    | some s ↦ guard (text_eq s (codes "block")) wrong_gap
    | none ↦ err wrong_gap
  ]

  abbrev budget_ok : Option x.Json → Result McpError (Unit {0})
  budget_ok none = ok tt
  budget_ok (some v) = elim (x.as_u64 v) [
    | some secs ↦ guard (ltb 0 secs) wrong_budget
    | none ↦ err wrong_budget
  ]

  unfoldable pub validate_mcp_pack_payload : x.Json → Result McpError (Unit {0})
  unfolding is_stated is_server_key
  validate_mcp_pack_payload payload = do
    obj ← ok_or (x.as_object payload) not_an_object
    task_ref ← ok_or (get_str x (codes "task_ref") obj) missing_task
    guard (is_stated task_ref) blank_task
    servers ← ok_or (and_then (get (codes "servers") obj) x.as_array) missing_servers
    guard (not (is_empty servers)) no_servers
    servers_ok [] servers
    ttl ← ok_or (and_then (get (codes "ttl_secs") obj) x.as_u64) missing_ttl
    guard (not (ttl == 0)) zero_ttl
    gap_ok (get (codes "on_gap") obj)
    budget_ok (get (codes "budget_secs") obj)
