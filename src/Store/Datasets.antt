-- ===== src/Store/Datasets.antt =====
-- The operations of src/store/mod.rs on datasets: create, update, delete, the transitions of the
-- state machine, and what is open to the public.
pub mod Chain
use evorule_rule.Prelude.{
  String, Bool, true, false, not, ◌&&◌, ◌||◌, Option, none, some, List, [], ◌∷◌, ◌++◌, Result, ok,
  err, ◌>>=◌, ◌>>◌, guard, ok_or, str_eq, any, select, update, is_none, if◌then◌else◌,
}
use evorule_rule.External.{Externals}
use evorule_rule.Model.Lifecycle.{
  LifecycleStatus, Lifecycle, StateChange, draft, published, rejected, status_eq, state_change,
}
use evorule_rule.Model.Dataset.{RuleDataset, Meta, is_public}
use evorule_rule.Validate.Boundary.{validate_transition}
use evorule_rule.Store.State.{
  Store, StoreError, HistoryRow, dataset_exists, dataset_not_found, dataset_not_deletable,
  publish_requires_approval, illegal_transition,
}
use evorule_rule.Store.Query.{get_dataset}

-- A refused transition as the error that carries it.
abbrev pub refuse :
    Result (Option LifecycleStatus × LifecycleStatus) (Unit {0}) → Result StoreError (Unit {0})
refuse (ok u) = ok tt
refuse (err p) = err (illegal_transition p.0 p.1)

-- The new status, and the change at the end of the history.
abbrev pub advance : LifecycleStatus → StateChange → Lifecycle → Lifecycle
advance to change life = record { status = to; state_history = life.state_history ++ change ∷ [] }

module _ (x : Externals) where
  abbrev pub is_dataset : String → RuleDataset x → Bool
  is_dataset id d = str_eq d.dataset_id id

  -- `UPDATE datasets SET lifecycle=? WHERE dataset_id=?`.
  abbrev pub set_lifecycle : String → Lifecycle → Store x → Store x
  set_lifecycle id life s = record s {
    datasets = update (is_dataset id) (λ d. record d { lifecycle = life }) s.datasets;
  }

  abbrev pub touched : String → String → RuleDataset x → Meta
  touched by at ds = record ds.meta { updated_at = some at; updated_by = some by }

  unfoldable pub create_dataset : RuleDataset x → Store x → Result StoreError (Store x)
  create_dataset ds s = do
    guard (is_none (get_dataset x ds.dataset_id s)) (dataset_exists ds.dataset_id)
    ok (record s { datasets = s.datasets ++ ds ∷ [] })

  -- The columns that the `UPDATE` sets: the kind and the tenant stay.
  abbrev pub overwrite_dataset : RuleDataset x → RuleDataset x → RuleDataset x
  overwrite_dataset new old = record new {
    dataset_id = old.dataset_id;
    dataset_kind = old.dataset_kind;
    tenant_id = old.tenant_id;
  }

  unfoldable pub update_dataset : RuleDataset x → Store x → Result StoreError (Store x)
  update_dataset ds s = do
    guard (any (is_dataset ds.dataset_id) s.datasets) (dataset_not_found ds.dataset_id)
    ok (record s { datasets = update (is_dataset ds.dataset_id) (overwrite_dataset ds) s.datasets })

  -- The services that the dataset declares, replaced.
  unfoldable pub update_dataset_deps :
      (id : String) → x.DataDependencies → (by at : String) → Store x → Result StoreError (Store x)
  unfolding update_dataset
  update_dataset_deps id deps by at s = do
    ds ← ok_or (get_dataset x id s) (dataset_not_found id)
    update_dataset (record ds { data_dependencies = some deps; meta = touched by at ds }) s

  -- `matches!(status, Draft | Rejected)`.
  abbrev pub deletable : LifecycleStatus → Bool
  deletable status = status_eq status draft || status_eq status rejected

  -- Every row of every table that names another dataset.
  abbrev pub without_dataset : String → Store x → Store x
  without_dataset id s = record {
    entry_snapshots = select (λ r. not (str_eq r.dataset_id id)) s.entry_snapshots;
    dataset_versions = select (λ r. not (str_eq r.dataset_id id)) s.dataset_versions;
    dataset_version_snapshots =
        select (λ r. not (str_eq r.dataset_id id)) s.dataset_version_snapshots;
    entry_state_history = select (λ r. not (str_eq r.dataset_id id)) s.entry_state_history;
    entries = select (λ r. not (str_eq r.dataset_id id)) s.entries;
    knowledge_state_history = select (λ r. not (str_eq r.dataset_id id)) s.knowledge_state_history;
    knowledge_snapshots = select (λ r. not (str_eq r.dataset_id id)) s.knowledge_snapshots;
    knowledge_entries = select (λ r. not (str_eq r.dataset_id id)) s.knowledge_entries;
    datasets = select (λ r. not (str_eq r.dataset_id id)) s.datasets;
  }

  unfoldable pub delete_dataset : String → Store x → Result StoreError (Store x)
  delete_dataset id s = do
    ds ← ok_or (get_dataset x id s) (dataset_not_found id)
    guard (deletable ds.lifecycle.status) (dataset_not_deletable id ds.lifecycle.status)
    ok (without_dataset id s)

  unfoldable pub transition_dataset_status :
      (id : String) (to : LifecycleStatus) (by cause at : String)
      → Store x
      → Result StoreError (Store x)
  transition_dataset_status id to by cause at s = do
    guard (not (status_eq to published)) (publish_requires_approval id)
    ds ← ok_or (get_dataset x id s) (dataset_not_found id)
    refuse (validate_transition (some ds.lifecycle.status) to)
    ok (
        set_lifecycle id
          (advance to (state_change ds.lifecycle.status to at by cause none) ds.lifecycle) s)

  abbrev pub withdrawn : String → String → RuleDataset x → Lifecycle
  withdrawn by at ds =
      advance rejected
        (state_change ds.lifecycle.status rejected at by "撤销发布（Published→Rejected，独立审批记录在案）" none)
        ds.lifecycle

  unfoldable pub unpublish_dataset : (id by at : String) → Store x → Result StoreError (Store x)
  unpublish_dataset id by at s = do
    ds ← ok_or (get_dataset x id s) (dataset_not_found id)
    guard (status_eq ds.lifecycle.status published)
        (illegal_transition (some ds.lifecycle.status) rejected)
    ok (record s {
      datasets =
          update (is_dataset id)
            (λ d. record d { lifecycle = withdrawn by at ds; meta = touched by at ds }) s.datasets;
    })

  abbrev open_to_all : RuleDataset x → Bool
  open_to_all ds = is_public ds.visibility && status_eq ds.lifecycle.status published

  abbrev pullable : Option (RuleDataset x) → Bool
  pullable none = false
  pullable (some ds) = open_to_all ds

  unfoldable pub is_publicly_pullable : String → Store x → Bool
  is_publicly_pullable id s = pullable (get_dataset x id s)

  -- The rows of the query, each read again by its id.
  abbrev browsed :
      String → Store x → List (RuleDataset x) → Result StoreError (List (RuleDataset x))
  browsed tenant s [] = ok []
  browsed tenant s (row ∷ rows) = do
    ds ← ok_or (get_dataset x row.dataset_id s) (dataset_not_found row.dataset_id)
    rest ← browsed tenant s rows
    ok (if str_eq ds.tenant_id tenant || open_to_all ds then ds ∷ rest else rest)

  unfoldable pub list_datasets_browsable :
      String → Store x → Result StoreError (List (RuleDataset x))
  list_datasets_browsable tenant s =
      browsed tenant s
        (select (λ d. str_eq d.tenant_id tenant || is_public d.visibility) s.datasets)
