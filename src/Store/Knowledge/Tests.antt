-- ===== src/Store/Knowledge/Tests.antt =====
-- Tests and instances of the operations on knowledge entries, in a list of MCP servers.
use evorule_rule.Store.Knowledge.{insert_knowledge, activation_ok}
use evorule_rule.Validate.Mcp.Servers.{validate_mcp_server_entry, validate_mcp_server_payload}
use evorule_rule.Validate.Credentials.{scan_credentials}
use evorule_rule.Validate.Boundary.{validate_llm_boundary_gated}
use evorule_rule.Chars.{to_ascii_lowercase, trim}
use evorule_rule.Store.Query.{get_dataset, get_latest_knowledge_entry}
use evorule_rule.Prelude.{false}
use evorule_rule.Prelude.{
  String, ◌≡◌, refl, ◌↔◌, true, Option, none, some, List, [], ◌∷◌, codes, ok, err,
}
use evorule_rule.Model.Lifecycle.{draft, LifecycleStatus, candidate, active}
use evorule_rule.Model.Entry.{KnowledgeEntry, is_frozen}
use evorule_rule.Model.Dataset.{RuleDataset, knowledge, private}
use evorule_rule.Validate.Error.{mcp_refused}
use evorule_rule.Validate.Mcp.{missing_attribution}
use evorule_rule.Validate.Mcp.Demo.{Json, json, proposed}
use evorule_rule.Validate.Mcp.Servers.{
  mcp_servers_dataset_id, mcp_server_schema_ref, fill_approval_attribution,
}
use evorule_rule.Store.State.{Store, validation}
use evorule_rule.Store.Reach.{default_lifecycle}
use evorule_rule.Store.Knowledge.{
  Importer, add_knowledge_entry, transition_knowledge_entry_status,
  transition_knowledge_entry_status_machine, write_knowledge_transition, knowledge_audit,
}
use evorule_rule.Store.Knowledge.Admitted.{KeepsRegistries, SavedKnowledge, add_knowledge_entry_iff}
use evorule_rule.Store.Moves.{IsMove, Actor, human, tier_of}
use evorule_rule.Validate.Boundary.Evidence.{MayEnter}
use evorule_rule.Validate.Credentials.{scan_credentials}
use evorule_rule.Validate.Mcp.Servers.{validate_mcp_server_payload}
use evorule_rule.Store.State.{Snapshot, knowledge_key}
use evorule_rule.Store.Query.{get_dataset}
use evorule_rule.Chars.{trim}
use evorule_rule.Model.Entry.{knowledge_is_llm}
use evorule_rule.Model.Lifecycle.{rejected}
use evorule_rule.Model.Dataset.{law_set}
use evorule_rule.Prelude.{◌⊎◌, any, is_empty, unwrap_or}
use evorule_rule.Store.Knowledge.Transitions.{
  FoundKnowledge, moved_knowledge, transition_knowledge_entry_status_iff,
  transition_knowledge_entry_status_machine_iff,
}

abbrev importer : Importer json
importer e lookup = ok tt

abbrev no_schema : String → Option Json
no_schema uri = none

abbrev servers : RuleDataset json
servers = record {
  dataset_id = mcp_servers_dataset_id;
  name = "n";
  description = none;
  dataset_kind = knowledge;
  domain = [];
  tags = [];
  tenant_id = "t";
  visibility = private;
  lifecycle = default_lifecycle;
  versioning = "1";
  law_ref = none;
  version_selection = none;
  data_dependencies = none;
  event_schemas = [];
  meta = record { created_at = "0"; created_by = "u"; updated_at = none; updated_by = none };
}

abbrev proposal : Option LifecycleStatus → Json → KnowledgeEntry json
proposal status payload = record {
  entry_id = "key";
  dataset_id = mcp_servers_dataset_id;
  version = 1;
  status = status;
  provenance = "p";
  domain = "d";
  tags = [];
  payload = payload;
  schema_ref = mcp_server_schema_ref;
  governance = none;
  knowledge_kind = none;
  trust_level = none;
  license_ref = none;
  execution_contract = none;
}

abbrev store_of : List (KnowledgeEntry json) → Store json
store_of es = record {
  datasets = servers ∷ [];
  entries = [];
  entry_snapshots = [];
  entry_state_history = [];
  knowledge_entries = es;
  knowledge_snapshots = [];
  knowledge_state_history = [];
  dataset_versions = [];
  dataset_version_snapshots = [];
}

-- An entry that states no status counts as active, yet needs no approval to be added.
unstated_added :
    (is_frozen (proposal none proposed).status ≡ true)
    × (add_knowledge_entry json importer no_schema (proposal none proposed) "1" (store_of [])
        ≡ ok (record (store_of (proposal none proposed ∷ [])) {
          knowledge_snapshots =
              record {
                dataset_id = mcp_servers_dataset_id;
                content_hash = "key";
                body = proposed;
                created_at = "1";
              }
              ∷ [];
        }))
unfolding add_knowledge_entry get_dataset trim validate_llm_boundary_gated scan_credentials
    validate_mcp_server_entry
unstated_added = (refl, refl)

active_refused :
    add_knowledge_entry json importer no_schema (proposal (some active) proposed) "1" (store_of [])
    ≡ err (validation (mcp_refused (missing_attribution (codes "approved_by"))))
unfolding add_knowledge_entry get_dataset trim validate_llm_boundary_gated scan_credentials
    validate_mcp_server_entry
active_refused = refl

unapproved_refused :
    transition_knowledge_entry_status json mcp_servers_dataset_id "key" active "u" "2" "c"
      (store_of (proposal (some candidate) proposed ∷ []))
    ≡ err (validation (mcp_refused (missing_attribution (codes "approved_by"))))
unfolding transition_knowledge_entry_status get_latest_knowledge_entry validate_llm_boundary_gated
    activation_ok validate_mcp_server_payload trim to_ascii_lowercase
unapproved_refused = refl

abbrev approved : KnowledgeEntry json
approved =
    proposal (some candidate)
      (fill_approval_attribution json (codes "ann") (codes "2026") (codes "v1") proposed)

abbrev in_list : Store json
in_list = store_of (approved ∷ [])

abbrev activated : Store json
activated =
    write_knowledge_transition json mcp_servers_dataset_id "key" approved active "2"
      (knowledge_audit json mcp_servers_dataset_id "key" approved active "u" "2" "c" none) in_list

approved_activated :
    transition_knowledge_entry_status json mcp_servers_dataset_id "key" active "u" "2" "c" in_list
    ≡ ok activated
unfolding transition_knowledge_entry_status get_latest_knowledge_entry validate_llm_boundary_gated
    activation_ok validate_mcp_server_payload fill_approval_attribution trim to_ascii_lowercase
approved_activated = refl

abbrev released : Store json
released =
    write_knowledge_transition json mcp_servers_dataset_id "key" approved active "2"
      (knowledge_audit json mcp_servers_dataset_id "key" approved active "u" "2" "c" (some "T1"))
      in_list

approved_released :
    transition_knowledge_entry_status_machine json mcp_servers_dataset_id "key" active "u" "2" "c"
      "T1" "a" in_list
    ≡ ok released
unfolding transition_knowledge_entry_status_machine get_latest_knowledge_entry
    validate_llm_boundary_gated activation_ok validate_mcp_server_payload fill_approval_attribution
    trim to_ascii_lowercase
approved_released = refl

transition_knowledge_entry_status_iff_example :
    (transition_knowledge_entry_status json mcp_servers_dataset_id "key" active "u" "2" "c" in_list
      ≡ ok activated)
    ↔ ((e : KnowledgeEntry json) × (m : IsMove (unwrap_or e.status active) active) × FoundKnowledge
          json mcp_servers_dataset_id "key" in_list e
        × (knowledge_is_llm json e ≡ true → active ≡ rejected)
        × (active ≡ active
            → mcp_servers_dataset_id ≡ mcp_servers_dataset_id
            → validate_mcp_server_payload json e.payload ≡ ok tt)
        × (activated
            ≡ moved_knowledge json mcp_servers_dataset_id "key" e m "u" "2" "c" human in_list))
transition_knowledge_entry_status_iff_example =
    transition_knowledge_entry_status_iff json mcp_servers_dataset_id "key" active "u" "2" "c"
      in_list activated

transition_knowledge_entry_status_machine_iff_example :
    (transition_knowledge_entry_status_machine json mcp_servers_dataset_id "key" active "u" "2" "c"
        "T1" "a" in_list
      ≡ ok released)
    ↔ ((actor : Actor) × (e : KnowledgeEntry json) × (m : IsMove (unwrap_or e.status active) active)
        × (tier_of actor ≡ some "T1")
        × FoundKnowledge json mcp_servers_dataset_id "key" in_list e
        × (active ≡ active
            → mcp_servers_dataset_id ≡ mcp_servers_dataset_id
            → validate_mcp_server_payload json e.payload ≡ ok tt)
        × (released
            ≡ moved_knowledge json mcp_servers_dataset_id "key" e m "u" "2" "c" actor in_list))
transition_knowledge_entry_status_machine_iff_example =
    transition_knowledge_entry_status_machine_iff json mcp_servers_dataset_id "key" active "u" "2"
      "c" "T1" "a" in_list released

abbrev draft_added : Store json
draft_added = insert_knowledge json (proposal (some draft) proposed) "1" (store_of [])

abbrev new_draft : KnowledgeEntry json
new_draft = proposal (some draft) proposed

add_knowledge_entry_iff_example :
    (add_knowledge_entry json importer no_schema new_draft "1" (store_of []) ≡ ok draft_added) ↔ (
      (ds : RuleDataset json) × (snaps : List (Snapshot json)) × (get_dataset json
          mcp_servers_dataset_id
          (store_of [])
        ≡ some ds)
      × ((ds.dataset_kind ≡ knowledge) ⊎ (ds.dataset_kind ≡ law_set))
      × (is_empty (trim (codes mcp_server_schema_ref)) ≡ false)
      × MayEnter (knowledge_is_llm json new_draft) draft none
      × (scan_credentials (json.to_text proposed) ≡ [])
      × KeepsRegistries json new_draft
      × (importer new_draft no_schema ≡ ok tt)
      × (any (knowledge_key json mcp_servers_dataset_id "key" 1) [] ≡ false)
      × SavedKnowledge json new_draft "1" (store_of []) snaps
      × (draft_added ≡ record (store_of []) {
        knowledge_snapshots = snaps;
        knowledge_entries = new_draft ∷ [];
      }))
add_knowledge_entry_iff_example =
    add_knowledge_entry_iff json importer no_schema new_draft "1" (store_of []) draft_added
