-- ===== src/Store/Knowledge.antt =====
-- The operations of src/store/mod.rs on knowledge entries: add, edit a draft, delete a draft, and
-- the transitions by a human and by the machine gate, with the rules for the entries that approve
-- MCP servers and packs. An operation that fails writes nothing.
pub mod Admission
pub mod Admitted
pub mod Passed
pub mod Transitions
mod Tests
use evorule_rule.Prelude.{
  String, Bool, true, false, not, ◌&&◌, ◌||◌, Option, none, some, is_none, List, [], ◌∷◌, ◌++◌,
  Result, codes, ok, err, ◌>>=◌, ◌>>◌, guard, ok_or, map_err, unwrap_or, str_eq, any, select,
  update, is_empty, if◌then◌else◌,
}
use Prim.Native.String.{◌++◌ as ◌<>◌}
use evorule_rule.Chars.{trim}
use evorule_rule.External.{Externals}
use evorule_rule.Model.Lifecycle.{LifecycleStatus, draft, active, published, status_eq, debug}
use evorule_rule.Model.Entry.{
  KnowledgeEntry, is_frozen, is_frozen_status, knowledge_content_hash, knowledge_is_llm,
}
use evorule_rule.Model.Dataset.{RuleDataset, DatasetKind, knowledge, law_set, as_str}
use evorule_rule.Validate.Error.{ValidationError, message, mcp_refused}
use evorule_rule.Validate.Boundary.{validate_llm_boundary_gated}
use evorule_rule.Validate.Mcp.Servers.{
  mcp_servers_dataset_id, mcp_server_schema_ref, validate_mcp_server_entry,
  validate_mcp_server_payload,
}
use evorule_rule.Validate.Mcp.Packs.{
  mcp_packs_dataset_id, mcp_pack_schema_ref, validate_mcp_pack_payload,
}
use evorule_rule.Store.State.{
  Store, StoreError, HistoryRow, Snapshot, knowledge_row, knowledge_key, snapshot_row, history_row,
  validation, bundle, dataset_not_found, dataset_kind_mismatch, knowledge_missing_schema_ref,
  entry_exists, entry_frozen, entry_not_found, entry_not_deletable, illegal_transition,
}
use evorule_rule.Store.Query.{get_dataset, get_latest_knowledge_entry}
use evorule_rule.Store.Entries.{entry_legal, stamp, is_machine_tier, scan_body}

abbrev pub holds_knowledge : DatasetKind → Bool
holds_knowledge knowledge = true
holds_knowledge law_set = true
holds_knowledge _ = false

-- `matches!(status, Some(Active) | Some(Published))`: no status is not among them.
abbrev pub in_force : Option LifecycleStatus → Bool
in_force none = false
in_force (some status) = is_frozen_status status

module _ (x : Externals) where
  -- `INSERT INTO knowledge_snapshots … ON CONFLICT DO NOTHING`.
  abbrev pub put_knowledge_snapshot :
      KnowledgeEntry x → String → List (Snapshot x) → List (Snapshot x)
  put_knowledge_snapshot e now snaps =
      if any (snapshot_row x e.dataset_id (knowledge_content_hash x e)) snaps
      then snaps
      else snaps
        ++ record {
          dataset_id = e.dataset_id;
          content_hash = knowledge_content_hash x e;
          body = e.payload;
          created_at = now;
        }
          ∷ []

  abbrev pub schema_stated : KnowledgeEntry x → Result StoreError (Unit {0})
  schema_stated e =
      guard (not (is_empty (trim (codes e.schema_ref)))) (knowledge_missing_schema_ref e.entry_id)

  -- The rules of a registry for the entries of its dataset and those that name its schema.
  abbrev pub registered :
      (dataset schema : String) (words : String)
      → KnowledgeEntry x
      → Result StoreError (Unit {0})
      → Result StoreError (Unit {0})
  registered dataset schema words e rules =
      if str_eq e.dataset_id dataset || str_eq e.schema_ref schema
      then guard (str_eq e.schema_ref schema) (
          validation (
            message (
              "数据集 `"
              <> (e.dataset_id <> (words <> (schema <> ("`，实际 `" <> (e.schema_ref <> "`"))))))))
        >> rules
      else ok tt

  abbrev pub server_rules : KnowledgeEntry x → Result StoreError (Unit {0})
  server_rules e =
      registered mcp_servers_dataset_id mcp_server_schema_ref "` 为 MCP 拉起批准清单：条目必须挂 schema_ref `" e
        (map_err validation
          (map_err mcp_refused (validate_mcp_server_entry x e.payload (in_force e.status))))

  abbrev pub pack_rules : KnowledgeEntry x → Result StoreError (Unit {0})
  pack_rules e =
      registered mcp_packs_dataset_id mcp_pack_schema_ref "` 为 MCP 任务能力包：条目必须挂 schema_ref `" e
        (map_err validation (map_err mcp_refused (validate_mcp_pack_payload x e.payload)))

  -- `BundleImporter::validate_entry` of `evorule-bundle` over a knowledge entry, and the schemas
  -- that it looks up; an error is its text.
  abbrev pub Importer : Type 0
  Importer = KnowledgeEntry x → (String → Option x.Json) → Result String (Unit {0})

  -- The row and the snapshot of a new entry.
  abbrev pub insert_knowledge : KnowledgeEntry x → String → Store x → Store x
  insert_knowledge e now s = record s {
    knowledge_snapshots = put_knowledge_snapshot e now s.knowledge_snapshots;
    knowledge_entries = s.knowledge_entries ++ e ∷ [];
  }

  -- `add_knowledge_entry`, with `add_knowledge_entry_conn`.
  unfoldable pub add_knowledge_entry :
      Importer
      → (lookup_domain_schema : String → Option x.Json) → KnowledgeEntry x
      → (now : String) → Store x
      → Result StoreError (Store x)
  unfolding scan_body
  add_knowledge_entry importer lookup_domain_schema e now s = do
    ds ← ok_or (get_dataset x e.dataset_id s) (dataset_not_found e.dataset_id)
    guard (holds_knowledge ds.dataset_kind)
        (dataset_kind_mismatch ds.dataset_id "数据（knowledge/law_set）" (as_str ds.dataset_kind))
    schema_stated e
    map_err validation (
        validate_llm_boundary_gated (knowledge_is_llm x e) e.entry_id (unwrap_or e.status active)
          none)
    scan_body x e.payload
    server_rules e
    pack_rules e
    map_err bundle (importer e lookup_domain_schema)
    guard (not (any (knowledge_key x e.dataset_id e.entry_id e.version) s.knowledge_entries))
        (entry_exists e.dataset_id e.entry_id e.version)
    ok (insert_knowledge e now s)

  -- The columns that `UPDATE knowledge_entries` sets: `knowledge_meta` is not among them.
  abbrev pub overwrite_knowledge : KnowledgeEntry x → KnowledgeEntry x → KnowledgeEntry x
  overwrite_knowledge new old = record old {
    status = new.status;
    provenance = new.provenance;
    domain = new.domain;
    tags = new.tags;
    payload = new.payload;
    schema_ref = new.schema_ref;
    governance = new.governance;
  }

  unfoldable pub update_draft_knowledge_entry :
      Importer
      → (lookup_domain_schema : String → Option x.Json) → KnowledgeEntry x
      → (now : String) → Store x
      → Result StoreError (Store x)
  unfolding scan_body
  update_draft_knowledge_entry importer lookup_domain_schema e now s = do
    guard (not (is_frozen e.status)) (entry_frozen e.dataset_id e.entry_id)
    schema_stated e
    scan_body x e.payload
    map_err bundle (importer e lookup_domain_schema)
    guard (any (knowledge_key x e.dataset_id e.entry_id e.version) s.knowledge_entries)
        (entry_not_found e.dataset_id e.entry_id)
    ok (record s {
      knowledge_snapshots = put_knowledge_snapshot e now s.knowledge_snapshots;
      knowledge_entries =
          update (knowledge_key x e.dataset_id e.entry_id e.version) (overwrite_knowledge e)
            s.knowledge_entries;
    })

  unfoldable pub delete_knowledge_entry : String → String → Store x → Result StoreError (Store x)
  delete_knowledge_entry ds id s = do
    e ← ok_or (get_latest_knowledge_entry x ds id s) (entry_not_found ds id)
    guard (status_eq (unwrap_or e.status active) draft) (entry_not_deletable ds id e.status)
    ok (record s {
      knowledge_state_history = select (λ r. not (history_row ds id r)) s.knowledge_state_history;
      knowledge_entries = select (λ r. not (knowledge_row x ds id r)) s.knowledge_entries;
    })

  -- The gate of an activation in the list of MCP servers.
  unfoldable pub activation_ok : String → LifecycleStatus → x.Json → Result StoreError (Unit {0})
  activation_ok ds to payload =
      if status_eq to active && str_eq ds mcp_servers_dataset_id
      then map_err validation (map_err mcp_refused (validate_mcp_server_payload x payload))
      else ok tt

  -- The audit row of a transition; a human leaves the columns of the gate empty.
  abbrev pub knowledge_audit :
      (ds id : String)
      → KnowledgeEntry x
      → (to : LifecycleStatus) (by at cause : String) (tier : Option String) → HistoryRow
  knowledge_audit ds id e to by at cause tier = record {
    dataset_id = ds;
    entry_id = id;
    version = e.version;
    from_state = debug (unwrap_or e.status active);
    to_state = debug to;
    at = at;
    by = by;
    cause = cause;
    gate = elim tier [ none ↦ none | some t ↦ some "machine" ];
    tier = tier;
    post_review_required = elim tier [ none ↦ none | some t ↦ some (str_eq t "T1") ];
    ratified_by = none;
    ratified_at = none;
  }

  -- The `UPDATE` of the entry and the `INSERT` of its audit row, in one transaction.
  abbrev pub write_knowledge_transition :
      (ds id : String)
      → KnowledgeEntry x
      → LifecycleStatus
      → (at : String) → HistoryRow
      → Store x
      → Store x
  write_knowledge_transition ds id e to at row s = record s {
    knowledge_entries =
        update (knowledge_key x ds id e.version)
          (λ old. record old { status = some to; governance = some (stamp to at e.governance) })
          s.knowledge_entries;
    knowledge_state_history = s.knowledge_state_history ++ row ∷ [];
  }

  unfoldable pub transition_knowledge_entry_status :
      (ds id : String) (to : LifecycleStatus) (by at cause : String)
      → Store x
      → Result StoreError (Store x)
  transition_knowledge_entry_status ds id to by at cause s = do
    e ← ok_or (get_latest_knowledge_entry x ds id s) (entry_not_found ds id)
    map_err validation (validate_llm_boundary_gated (knowledge_is_llm x e) id to none)
    guard (entry_legal (unwrap_or e.status active) to)
        (illegal_transition (some (unwrap_or e.status active)) to)
    activation_ok ds to e.payload
    ok (write_knowledge_transition ds id e to at (knowledge_audit ds id e to by at cause none) s)

  unfoldable pub transition_knowledge_entry_status_machine :
      (ds id : String) (to : LifecycleStatus) (by at cause tier anchor : String)
      → Store x
      → Result StoreError (Store x)
  transition_knowledge_entry_status_machine ds id to by at cause tier anchor s = do
    guard (is_machine_tier tier)
        (validation (message ("机器闸梯位 `" <> tier <> "` 非法（仅 T0/T1 可入机器放行通路，T2 走人工）")))
    e ← ok_or (get_latest_knowledge_entry x ds id s) (entry_not_found ds id)
    map_err validation (
        validate_llm_boundary_gated (knowledge_is_llm x e) id to
          (some (record { tier = tier; checks_passed = true; state_change_id = anchor })))
    guard (entry_legal (unwrap_or e.status active) to)
        (illegal_transition (some (unwrap_or e.status active)) to)
    activation_ok ds to e.payload
    ok (
        write_knowledge_transition ds id e to at
          (knowledge_audit ds id e to by at cause (some tier)) s)
