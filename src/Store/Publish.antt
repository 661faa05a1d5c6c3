-- ===== src/Store/Publish.antt =====
-- The publication of a dataset and the making of its next version (src/store/mod.rs).
pub mod Pending
pub mod Gates
pub mod Versions
use Prim.Native.String.{◌++◌ as ◌<>◌}
use evorule_rule.Prelude.{
  String, Bool, true, false, not, ◌&&◌, Option, none, some, List, [], ◌∷◌, ◌++◌, map, Result, ok,
  ◌>>=◌, ◌>>◌, guard, ok_or, map_err, is_empty, str_eq, any, Text, if◌then◌else◌, update,
}
use evorule_rule.External.{Externals, BumpKind, major, patch}
use evorule_rule.Model.Lifecycle.{
  LifecycleStatus, Lifecycle, draft, active, published, debug, state_change,
}
use evorule_rule.Model.Governance.{Governance}
use evorule_rule.Model.Entry.{
  RuleEntry, KnowledgeEntry, rule_content_hash, knowledge_content_hash, rule_is_llm,
  knowledge_is_llm,
}
use evorule_rule.Model.Dataset.{RuleDataset}
use evorule_rule.Validate.Error.{llm_generated_not_publishable, credential_scan_failed, message}
use evorule_rule.Validate.Boundary.{validate_publish}
use evorule_rule.Validate.Credentials.{scan_credentials}
use evorule_rule.Store.State.{
  Store, StoreError, VersionRow, VersionSnapshot, Content, rule, knowledge, Codec, validation,
  version, dataset_not_found,
}
use evorule_rule.Store.Query.{get_dataset, list_entries, list_knowledge_entries}
use evorule_rule.Store.Review.{has_pending_post_review}
use evorule_rule.Store.Datasets.{refuse, advance, is_dataset, set_lifecycle, touched}

abbrev pub bump_kind_label : BumpKind → String
bump_kind_label major = "升版"
bump_kind_label patch = "Patch"

abbrev concat {ℓ} : {A : Type ℓ} → List (List A) → List A
concat [] = []
concat (xs ∷ xss) = xs ++ concat xss

module _ (x : Externals) where
  abbrev governance_texts : Codec x → Option Governance → List Text
  governance_texts codec none = []
  governance_texts codec (some g) = codec.governance_text g ∷ []

  abbrev deps_texts : Option x.DataDependencies → List Text
  deps_texts none = []
  deps_texts (some d) = x.deps_text d ∷ []

  -- Every text that the publication scans: the dataset, its dependencies, each latest entry.
  unfoldable pub scanned_texts : Codec x → (id : String) → RuleDataset x → Store x → List Text
  scanned_texts codec id ds s =
      (codec.dataset_text ds ∷ [])
      ++ deps_texts ds.data_dependencies
      ++ concat (
          map (λ e. x.to_text e.rule_body ∷ governance_texts codec e.governance)
            (list_entries x id s))
      ++ concat (
          map (λ e. x.to_text e.payload ∷ governance_texts codec e.governance)
            (list_knowledge_entries x id s))

  unfoldable pub scan_dataset_credentials :
      Codec x → (id : String) → RuleDataset x → Store x → Result StoreError (Unit {0})
  scan_dataset_credentials codec id ds s =
      let hits = concat (map scan_credentials (scanned_texts codec id ds s)) in
      guard (is_empty hits) (validation (credential_scan_failed hits))

  -- The two gates on one entry: no language model wrote it, and no machine release awaits review.
  abbrev pub entry_gate : String → Bool → String → Store x → Result StoreError (Unit {0})
  entry_gate ds is_llm id s = do
    guard (not is_llm) (validation (llm_generated_not_publishable (ds <> "/" <> id)))
    guard (not (has_pending_post_review x ds id s))
        (validation (message ("I17: entry " <> ds <> "/" <> id <> " 有未追认的机器闸放行（T1 事后追认未完成），禁止发布")))

  abbrev pub rule_gates : String → Store x → List (RuleEntry x) → Result StoreError (Unit {0})
  rule_gates ds s [] = ok tt
  rule_gates ds s (e ∷ es) = entry_gate ds (rule_is_llm x e) e.entry_id s >> rule_gates ds s es

  abbrev pub knowledge_gates :
      String → Store x → List (KnowledgeEntry x) → Result StoreError (Unit {0})
  knowledge_gates ds s [] = ok tt
  knowledge_gates ds s (e ∷ es) =
      entry_gate ds (knowledge_is_llm x e) e.entry_id s >> knowledge_gates ds s es

  -- The life cycle of a published dataset: its history ends in the change that names the version.
  abbrev pub published_life : (publisher at cause : String) → RuleDataset x → Lifecycle
  published_life publisher at cause ds =
      advance published
        (state_change active published at publisher cause
          (some (ds.dataset_id <> "@" <> x.current ds.versioning)))
        ds.lifecycle

  -- `publish_dataset_with_cause`.
  unfoldable pub publish_dataset_with_cause :
      Codec x → (id publisher at cause : String) → Store x → Result StoreError (Store x)
  publish_dataset_with_cause codec id publisher at cause s = do
    ds ← ok_or (get_dataset x id s) (dataset_not_found id)
    map_err version (x.validate_versioning ds.versioning)
    refuse (validate_publish (some ds.lifecycle.status))
    scan_dataset_credentials codec id ds s
    rule_gates id s (list_entries x id s)
    knowledge_gates id s (list_knowledge_entries x id s)
    ok (set_lifecycle x id (published_life publisher at cause ds) s)

  unfoldable pub publish_dataset :
      Codec x → (id publisher at instance_id : String) → Store x → Result StoreError (Store x)
  unfolding publish_dataset_with_cause
  publish_dataset codec id publisher at instance_id s =
      publish_dataset_with_cause codec id publisher at ("独立发布审批通过，instance_id=" <> instance_id) s

  -- `ON CONFLICT(dataset_id, version, entry_hash) DO NOTHING`.
  abbrev pub same_version_row : VersionRow → VersionRow → Bool
  same_version_row r q =
      str_eq q.dataset_id r.dataset_id
      && str_eq q.version r.version
      && str_eq q.entry_hash r.entry_hash

  abbrev pub put_version_rows : List VersionRow → List VersionRow → List VersionRow
  put_version_rows [] old = old
  put_version_rows (r ∷ rs) old =
      put_version_rows rs (if any (same_version_row r) old then old else old ++ r ∷ [])

  -- `ON CONFLICT(dataset_id, version, entry_id) DO NOTHING`.
  abbrev pub same_snapshot : VersionSnapshot x → VersionSnapshot x → Bool
  same_snapshot r q =
      str_eq q.dataset_id r.dataset_id && str_eq q.version r.version && str_eq q.entry_id r.entry_id

  abbrev pub put_version_snapshots :
      List (VersionSnapshot x) → List (VersionSnapshot x) → List (VersionSnapshot x)
  put_version_snapshots [] old = old
  put_version_snapshots (r ∷ rs) old =
      put_version_snapshots rs (if any (same_snapshot r) old then old else old ++ r ∷ [])

  abbrev pub version_rows : (id old_version at : String) → Store x → List VersionRow
  version_rows id old_version at s =
      map
        (λ e. record {
          dataset_id = id;
          version = old_version;
          entry_hash = rule_content_hash x e;
          entry_id = e.entry_id;
          created_at = at;
        })
        (list_entries x id s)
      ++ map
          (λ e. record {
            dataset_id = id;
            version = old_version;
            entry_hash = knowledge_content_hash x e;
            entry_id = e.entry_id;
            created_at = at;
          })
          (list_knowledge_entries x id s)

  abbrev pub rule_snapshot : (id old_version by at : String) → RuleEntry x → VersionSnapshot x
  rule_snapshot id old_version by at e = record {
    dataset_id = id;
    version = old_version;
    entry_id = e.entry_id;
    content_hash = rule_content_hash x e;
    content = rule e;
    created_by = by;
    created_at = at;
  }

  abbrev pub knowledge_snapshot :
      (id old_version by at : String) → KnowledgeEntry x → VersionSnapshot x
  knowledge_snapshot id old_version by at e = record {
    dataset_id = id;
    version = old_version;
    entry_id = e.entry_id;
    content_hash = knowledge_content_hash x e;
    content = knowledge e;
    created_by = by;
    created_at = at;
  }

  abbrev pub version_snapshots :
      (id old_version by at : String) → Store x → List (VersionSnapshot x)
  version_snapshots id old_version by at s =
      map (rule_snapshot id old_version by at) (list_entries x id s)
      ++ map (knowledge_snapshot id old_version by at) (list_knowledge_entries x id s)

  -- A new version is a new round of editing: the dataset is a draft again.
  abbrev pub redrafted : BumpKind → (new_version by at : String) → RuleDataset x → Lifecycle
  redrafted kind new_version by at ds =
      advance draft
        (state_change ds.lifecycle.status draft at by
          ("创建新版本 " <> new_version <> "（" <> bump_kind_label kind <> "）") none)
        ds.lifecycle

  -- The three writes of one transaction, from the dataset as it was.
  abbrev pub versioned :
      (id : String) (kind : BumpKind) (by at : String)
      → RuleDataset x
      → x.Versioning
      → Store x
      → Store x
  versioned id kind by at ds v s = record s {
    datasets =
        update (is_dataset x id)
          (λ d. record d {
            versioning = v;
            lifecycle = redrafted kind (x.current v) by at ds;
            meta = touched x by at ds;
          })
          s.datasets;
    dataset_versions =
        put_version_rows (version_rows id (x.current ds.versioning) at s) s.dataset_versions;
    dataset_version_snapshots =
        put_version_snapshots (version_snapshots id (x.current ds.versioning) by at s)
          s.dataset_version_snapshots;
  }

  -- The new version's name, and the store after it.
  unfoldable pub create_dataset_version :
      (id : String) (kind : BumpKind) (by at : String)
      → Store x
      → Result StoreError (String × Store x)
  create_dataset_version id kind by at s = do
    ds ← ok_or (get_dataset x id s) (dataset_not_found id)
    map_err version (x.validate_versioning ds.versioning)
    v ← map_err version (x.bump ds.versioning kind)
    ok (x.current v, versioned id kind by at ds v s)
