-- ===== src/Store/State.antt =====
-- The tables of src/store/mod.rs (`init_schema`) as lists of rows in the order of insertion, and
-- the errors of the operations on them.
use evorule_rule.Prelude.{ℕ, String, Bool, ◌&&◌, Option, List, Text, Result, ◌==◌, str_eq}
use evorule_rule.External.{Externals}
use evorule_rule.Model.Lifecycle.{LifecycleStatus}
use evorule_rule.Model.Governance.{Governance}
use evorule_rule.Model.Entry.{RuleEntry, KnowledgeEntry}
use evorule_rule.Model.Dataset.{RuleDataset}
use evorule_rule.Validate.Error.{ValidationError}

pub data StoreError : Type 0 where
  sqlite : (text : String) → StoreError
  json : (text : String) → StoreError
  validation : ValidationError → StoreError
  version : (text : String) → StoreError
  bundle : (text : String) → StoreError
  invalid_ingest_contract : (text : String) → StoreError
  dataset_not_found : (dataset : String) → StoreError
  dataset_exists : (dataset : String) → StoreError
  publish_requires_approval : (dataset : String) → StoreError
  entry_exists : (dataset entry : String) (version : ℕ) → StoreError
  entry_frozen : (dataset entry : String) → StoreError
  entry_not_found : (dataset entry : String) → StoreError
  dataset_not_deletable : (dataset : String) (status : LifecycleStatus) → StoreError
  entry_not_deletable : (dataset entry : String) (status : Option LifecycleStatus) → StoreError
  illegal_transition : (from : Option LifecycleStatus) (to : LifecycleStatus) → StoreError
  tenant_not_found : (tenant : String) → StoreError
  org_not_found : (org : String) → StoreError
  org_already_exists : (org : String) → StoreError
  user_not_found : (user : String) → StoreError
  username_ambiguous : (username : String) → StoreError
  username_taken : (username : String) → StoreError
  invalid_role : (role : String) → StoreError
  dataset_kind_mismatch : (dataset expected actual : String) → StoreError
  knowledge_missing_schema_ref : (entry : String) → StoreError

-- `entry_state_history` and `knowledge_state_history`.
pub record HistoryRow : Type 0 where
  pub dataset_id : String
  pub entry_id : String
  pub version : ℕ
  pub from_state : String
  pub to_state : String
  pub at : String
  pub by : String
  pub cause : String
  pub gate : Option String
  pub tier : Option String
  pub post_review_required : Option Bool
  pub ratified_by : Option String
  pub ratified_at : Option String

-- `entry_snapshots` and `knowledge_snapshots`: contents by their hash.
pub record Snapshot (x : Externals) : Type 0 where
  pub dataset_id : String
  pub content_hash : String
  pub body : x.Json
  pub created_at : String

-- `dataset_versions`: which contents a version of a dataset holds.
pub record VersionRow : Type 0 where
  pub dataset_id : String
  pub version : String
  pub entry_hash : String
  pub entry_id : String
  pub created_at : String

-- A whole entry, as `dataset_version_snapshots` keeps it in its columns `kind` and `content_json`.
pub data Content (x : Externals) : Type 0 where
  rule : RuleEntry x → Content x
  knowledge : KnowledgeEntry x → Content x

pub record VersionSnapshot (x : Externals) : Type 0 where
  pub dataset_id : String
  pub version : String
  pub entry_id : String
  pub content_hash : String
  pub content : Content x
  pub created_by : String
  pub created_at : String

pub record Store (x : Externals) : Type 0 where
  pub datasets : List (RuleDataset x)
  pub entries : List (RuleEntry x)
  pub entry_snapshots : List (Snapshot x)
  pub entry_state_history : List HistoryRow
  pub knowledge_entries : List (KnowledgeEntry x)
  pub knowledge_snapshots : List (Snapshot x)
  pub knowledge_state_history : List HistoryRow
  pub dataset_versions : List VersionRow
  pub dataset_version_snapshots : List (VersionSnapshot x)

-- `WHERE dataset_id=? AND entry_id=?`, and with `AND version=?`.
abbrev pub is_row : String → String → String → String → Bool
is_row ds id row_ds row_id = str_eq row_ds ds && str_eq row_id id

module _ (x : Externals) where
  abbrev pub rule_row : String → String → RuleEntry x → Bool
  rule_row ds id e = is_row ds id e.dataset_id e.entry_id

  abbrev pub rule_key : String → String → ℕ → RuleEntry x → Bool
  rule_key ds id v e = is_row ds id e.dataset_id e.entry_id && e.version == v

  abbrev pub knowledge_row : String → String → KnowledgeEntry x → Bool
  knowledge_row ds id e = is_row ds id e.dataset_id e.entry_id

  abbrev pub knowledge_key : String → String → ℕ → KnowledgeEntry x → Bool
  knowledge_key ds id v e = is_row ds id e.dataset_id e.entry_id && e.version == v

  abbrev pub snapshot_row : String → String → Snapshot x → Bool
  snapshot_row ds hash r = str_eq r.dataset_id ds && str_eq r.content_hash hash

abbrev pub history_row : String → String → HistoryRow → Bool
history_row ds id r = is_row ds id r.dataset_id r.entry_id

-- What the writes take from `evorule-bundle` (`BundleImporter::validate_entry` over the entry and
-- the declared services, an error as its text) and from `serde_json` over the program's types.
pub record Codec (x : Externals) : Type 0 where
  pub validate_entry : RuleEntry x → List String → Result String (Unit {0})
  pub dataset_text : RuleDataset x → Text
  pub governance_text : Governance → Text
