-- ===== src/Validate/Mcp/Tests.antt =====
-- Tests and instances of the entries that approve a server, with a small JSON.
use evorule_rule.Validate.Mcp.{get, is_stated}
use evorule_rule.Chars.{to_ascii_lowercase, trim}
use evorule_rule.Prelude.{
  ap, ◌∙◌, inl, inr, subst, none, is_none, Option, Option-cases, arith, if◌then◌else◌, ◌≡◌, refl,
  false, some, List, [], ◌∷◌, ◌++◌, Text, codes, ok, err,
}
use evorule_rule.Validate.Mcp.{
  bare_interpreter, inner_wildcard, missing_attribution, repeated_server, not_a_key, wrong_gap,
}
use evorule_rule.Validate.Mcp.Servers.{
  validate_approval_entry, validate_mcp_server_entry, validate_mcp_server_payload,
  fill_approval_attribution, approval_attribution_missing,
}
use evorule_rule.Validate.Mcp.Packs.{validate_mcp_pack_payload}
use evorule_rule.Validate.Mcp.Fields.{DistinctKeys}
use evorule_rule.Validate.Mcp.Approval.{ReadsBack, fill_approval_attribution-validate}
use evorule_rule.Validate.Mcp.Demo.{
  field_to, empty_object, empty_array, item, field, Json, null, number, string, object_of,
  fields_of, array_of, json, proposed,
}

field_to-Distinct :
    (key : Text) (v : Json) (o : Option (List (Text × Json))) (obj : List (Text × Json))
    → ((rest : List (Text × Json)) → o ≡ some rest → DistinctKeys rest)
    → field_to key v o ≡ some obj
    → DistinctKeys obj
field_to-Distinct key v none obj k h = cc
field_to-Distinct key v (some rest) obj k h = elim (Option-cases (get key rest)) [
  | inl e ↦ subst DistinctKeys {x = (key, v) ∷ rest} (ground (arith, h, e)) (e, k rest refl)
  | inr (w, e) ↦ ground (arith, h, e)
]

fields_of-Distinct :
    (v : Json) (obj : List (Text × Json)) → fields_of v ≡ some obj → DistinctKeys obj
fields_of-Distinct empty_object [] h = tt
fields_of-Distinct empty_object (f ∷ obj) h = cc
fields_of-Distinct (field key v rest) obj h =
    field_to-Distinct key v (fields_of rest) obj (λ r e. fields_of-Distinct rest r e) h
fields_of-Distinct null obj h = cc
fields_of-Distinct empty_array obj h = cc
fields_of-Distinct (number n) obj h = cc
fields_of-Distinct (string s) obj h = cc
fields_of-Distinct (item first rest) obj h = cc

fields_of-object_of :
    (fields : List (Text × Json)) → DistinctKeys fields → fields_of (object_of fields) ≡ some fields
fields_of-object_of [] d = refl
fields_of-object_of (f ∷ fields) d =
    ap (field_to f.0 f.1) (fields_of-object_of fields d.1)
    ∙ ap (λ o. if is_none o then some ((f.0, f.1) ∷ fields) else none) d.0

json-ReadsBack : ReadsBack json
json-ReadsBack = record {
  string_read = λ s. refl;
  keys_differ = fields_of-Distinct;
  object_read = λ obj d. (obj, fields_of-object_of obj d, λ key. refl);
}

proposed_accepted : validate_mcp_server_entry json proposed false ≡ ok tt
unfolding validate_mcp_server_entry trim to_ascii_lowercase
proposed_accepted = refl

fill_approval_attribution-validate_example :
    (validate_mcp_server_payload json
        (fill_approval_attribution json (codes "ann") (codes "2026") (codes "v2") proposed)
      ≡ ok tt)
    × (approval_attribution_missing json
          (fill_approval_attribution json (codes "ann") (codes "2026") (codes "v2") proposed)
        ≡ false)
unfolding is_stated trim
fill_approval_attribution-validate_example =
    fill_approval_attribution-validate json json-ReadsBack (codes "ann") (codes "2026") (codes "v2")
      proposed refl refl refl proposed_accepted

not_in_force :
    validate_mcp_server_payload json proposed ≡ err (missing_attribution (codes "approved_by"))
unfolding validate_mcp_server_payload trim to_ascii_lowercase
not_in_force = refl

bare_alone : validate_approval_entry (codes "Node") none ≡ err bare_interpreter
unfolding validate_approval_entry trim to_ascii_lowercase
bare_alone = refl

star_inside : validate_approval_entry (codes "srv") (some (codes "a*b" ∷ [])) ≡ err inner_wildcard
unfolding validate_approval_entry trim
star_inside = refl

abbrev sixteen : Text
sixteen = codes "0123456789abcdef"

abbrev server : Text
server = codes "blake3:" ++ (sixteen ++ (sixteen ++ (sixteen ++ sixteen)))

abbrev pack : List Json → Json → Json
pack servers gap = object_of (
    (codes "task_ref", string (codes "nightly"))
    ∷ (codes "servers", array_of servers)
    ∷ (codes "ttl_secs", number 86400)
    ∷ (codes "on_gap", gap)
    ∷ [])

pack_accepted :
    validate_mcp_pack_payload json (pack (string server ∷ []) (string (codes "block"))) ≡ ok tt
unfolding validate_mcp_pack_payload trim
pack_accepted = refl

twice_refused :
    validate_mcp_pack_payload json (pack (string server ∷ string server ∷ []) null)
    ≡ err repeated_server
unfolding validate_mcp_pack_payload trim
twice_refused = refl

short_key :
    validate_mcp_pack_payload json (pack (string (codes "blake3:00") ∷ []) null) ≡ err not_a_key
unfolding validate_mcp_pack_payload trim
short_key = refl

improvised :
    validate_mcp_pack_payload json (pack (string server ∷ []) (string (codes "improvise")))
    ≡ err wrong_gap
unfolding validate_mcp_pack_payload trim
improvised = refl
