-- ===== src/Store/Entries.antt =====
-- The operations of src/store/mod.rs on rule entries: add, edit a draft, delete a draft, and the
-- transitions by a human and by the machine gate. An operation that fails writes nothing.
pub mod Admission
pub mod Admitted
pub mod Snapshots
pub mod Backing
pub mod Transitions
use evorule_rule.Prelude.{
  ℕ, String, Bool, true, false, not, ◌&&◌, ◌||◌, Option, none, some, List, [], ◌∷◌, ◌++◌, Result,
  ok, err, ◌>>=◌, ◌>>◌, guard, ok_or, map_err, unwrap_or, str_eq, any, count, select, update,
  is_empty, ◌==◌, if◌then◌else◌,
}
use Prim.Native.String.{◌++◌ as ◌<>◌}
use evorule_rule.External.{Externals}
use evorule_rule.Model.Lifecycle.{
  LifecycleStatus, draft, candidate, active, published, rejected, status_eq, debug,
}
use evorule_rule.Model.Governance.{
  Governance, LifecycleTimestamps, default_governance, default_timestamps,
}
use evorule_rule.Model.Entry.{RuleEntry, is_frozen, rule_content_hash, rule_is_llm}
use evorule_rule.Model.Dataset.{RuleDataset, is_rule_set, as_str}
use evorule_rule.Validate.Error.{ValidationError, credential_scan_failed, message}
use evorule_rule.Validate.Boundary.{
  MachineGateContext, validate_llm_boundary, validate_llm_boundary_gated,
}
use evorule_rule.Validate.Symbols.{declared_services, validate_symbol_consistency}
use evorule_rule.Validate.Credentials.{scan_credentials}
use evorule_rule.Store.State.{
  Store, StoreError, HistoryRow, Snapshot, Codec, rule_row, rule_key, snapshot_row, history_row,
  validation, bundle, dataset_not_found, dataset_kind_mismatch, entry_exists, entry_frozen,
  entry_not_found, entry_not_deletable, illegal_transition,
}
use evorule_rule.Store.Query.{get_dataset, get_latest_entry}

-- The four transitions of an entry.
abbrev pub entry_legal : LifecycleStatus → LifecycleStatus → Bool
entry_legal draft candidate = true
entry_legal candidate active = true
entry_legal candidate rejected = true
entry_legal draft rejected = true
entry_legal _ _ = false

-- The time stamp that a transition leaves on the entry.
abbrev pub stamp_time : LifecycleStatus → String → LifecycleTimestamps → LifecycleTimestamps
stamp_time candidate at ts = record ts { candidate_at = some at }
stamp_time active at ts = record ts { active_at = some at }
stamp_time _ at ts = ts

abbrev pub stamp : LifecycleStatus → String → Option Governance → Governance
stamp to at governance =
    let gov = unwrap_or governance default_governance in
    let ts = unwrap_or gov.lifecycle_timestamps default_timestamps in
    record gov { lifecycle_timestamps = some (stamp_time to at ts) }

-- `matches!(tier, "T0" | "T1")`.
abbrev pub is_machine_tier : String → Bool
is_machine_tier tier = str_eq tier "T0" || str_eq tier "T1"

module _ (x : Externals) where
  -- `INSERT INTO entry_snapshots … ON CONFLICT DO NOTHING`.
  abbrev pub put_snapshot : RuleEntry x → String → List (Snapshot x) → List (Snapshot x)
  put_snapshot e now snaps =
      if any (snapshot_row x e.dataset_id (rule_content_hash x e)) snaps
      then snaps
      else snaps
        ++ record {
          dataset_id = e.dataset_id;
          content_hash = rule_content_hash x e;
          body = e.rule_body;
          created_at = now;
        }
          ∷ []

  unfoldable pub scan_body : x.Json → Result StoreError (Unit {0})
  scan_body body =
      let hits = scan_credentials (x.to_text body) in
      guard (is_empty hits) (validation (credential_scan_failed hits))

  -- The row and the snapshot of a new entry.
  abbrev pub insert_entry : RuleEntry x → String → Store x → Store x
  insert_entry e now s = record s {
    entry_snapshots = put_snapshot e now s.entry_snapshots;
    entries = s.entries ++ e ∷ [];
  }

  -- `add_entry`, with `add_rule_entry_conn`. `now` is `epoch_ms_now()`.
  unfoldable pub add_entry : Codec x → RuleEntry x → String → Store x → Result StoreError (Store x)
  add_entry codec e now s = do
    ds ← ok_or (get_dataset x e.dataset_id s) (dataset_not_found e.dataset_id)
    guard (is_rule_set ds.dataset_kind)
        (dataset_kind_mismatch ds.dataset_id "规则（rule）" (as_str ds.dataset_kind))
    map_err validation (validate_symbol_consistency x ds e)
    map_err validation (validate_llm_boundary x e)
    map_err bundle (codec.validate_entry e (declared_services x ds))
    scan_body e.rule_body
    guard (not (any (rule_key x e.dataset_id e.entry_id e.version) s.entries))
        (entry_exists e.dataset_id e.entry_id e.version)
    ok (insert_entry e now s)

  -- The columns that `UPDATE entries` sets: `consumed_inputs` is not among them.
  abbrev pub overwrite : RuleEntry x → RuleEntry x → RuleEntry x
  overwrite new old = record old {
    status = new.status;
    provenance = new.provenance;
    domain = new.domain;
    tags = new.tags;
    data_source_binding = new.data_source_binding;
    rule_body = new.rule_body;
    governance = new.governance;
  }

  unfoldable pub update_draft_entry : RuleEntry x → String → Store x → Result StoreError (Store x)
  update_draft_entry e now s = do
    ds ← ok_or (get_dataset x e.dataset_id s) (dataset_not_found e.dataset_id)
    guard (not (is_frozen e.status)) (entry_frozen e.dataset_id e.entry_id)
    map_err validation (validate_symbol_consistency x ds e)
    map_err validation (validate_llm_boundary x e)
    scan_body e.rule_body
    guard (any (rule_key x e.dataset_id e.entry_id e.version) s.entries)
        (dataset_not_found e.entry_id)
    ok (record s {
      entry_snapshots = put_snapshot e now s.entry_snapshots;
      entries = update (rule_key x e.dataset_id e.entry_id e.version) (overwrite e) s.entries;
    })

  unfoldable pub delete_entry : String → String → Store x → Result StoreError (Store x)
  delete_entry ds id s = do
    e ← ok_or (get_latest_entry x ds id s) (entry_not_found ds id)
    guard (status_eq (unwrap_or e.status active) draft) (entry_not_deletable ds id e.status)
    ok (record s {
      entry_state_history = select (λ r. not (history_row ds id r)) s.entry_state_history;
      entries = select (λ r. not (rule_row x ds id r)) s.entries;
    })

  -- The audit row of a transition; a human leaves the columns of the gate empty.
  abbrev pub audit_row :
      String
      → String
      → RuleEntry x
      → LifecycleStatus
      → LifecycleStatus
      → (by at cause : String) (tier : Option String) → HistoryRow
  audit_row ds id e from to by at cause tier = record {
    dataset_id = ds;
    entry_id = id;
    version = e.version;
    from_state = debug from;
    to_state = debug to;
    at = at;
    by = by;
    cause = cause;
    gate = elim tier [ none ↦ none | some t ↦ some "machine" ];
    tier = tier;
    post_review_required = elim tier [ none ↦ none | some t ↦ some (str_eq t "T1") ];
    ratified_by = none;
    ratified_at = none;
  }

  -- The `UPDATE` of the entry and the `INSERT` of its audit row, in one transaction.
  abbrev pub write_transition :
      String → String → RuleEntry x → LifecycleStatus → String → HistoryRow → Store x → Store x
  write_transition ds id e to at row s = record s {
    entries =
        update (rule_key x ds id e.version)
          (λ old. record old { status = some to; governance = some (stamp to at e.governance) })
          s.entries;
    entry_state_history = s.entry_state_history ++ row ∷ [];
  }

  unfoldable pub transition_entry_status :
      (ds id : String) (to : LifecycleStatus) (by at cause : String)
      → Store x
      → Result StoreError (Store x)
  transition_entry_status ds id to by at cause s = do
    e ← ok_or (get_latest_entry x ds id s) (entry_not_found ds id)
    map_err validation (validate_llm_boundary_gated (rule_is_llm x e) id to none)
    guard (entry_legal (unwrap_or e.status active) to)
        (illegal_transition (some (unwrap_or e.status active)) to)
    ok (
        write_transition ds id e to at
          (audit_row ds id e (unwrap_or e.status active) to by at cause none) s)

  -- `state_change_id` is the audit anchor that the boundary check carries and does not read.
  unfoldable pub transition_entry_status_machine :
      (ds id : String) (to : LifecycleStatus) (by at cause tier anchor : String)
      → Store x
      → Result StoreError (Store x)
  transition_entry_status_machine ds id to by at cause tier anchor s = do
    guard (is_machine_tier tier)
        (validation (message ("机器闸梯位 `" <> tier <> "` 非法（仅 T0/T1 可入机器放行通路，T2 走人工）")))
    e ← ok_or (get_latest_entry x ds id s) (entry_not_found ds id)
    map_err validation (
        validate_llm_boundary_gated (rule_is_llm x e) id to
          (some (record { tier = tier; checks_passed = true; state_change_id = anchor })))
    guard (entry_legal (unwrap_or e.status active) to)
        (illegal_transition (some (unwrap_or e.status active)) to)
    ok (
        write_transition ds id e to at
          (audit_row ds id e (unwrap_or e.status active) to by at cause (some tier)) s)
