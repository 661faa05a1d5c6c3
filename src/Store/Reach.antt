-- ===== src/Store/Reach.antt =====
-- The stores that the operations of src/store/mod.rs reach from an empty one.
pub mod Invariants
pub mod Frames
pub mod Snapshots
use evorule_rule.Prelude.{
  String, ◌≡◌, refl, subst, sym, ap, inl, inr, Bool, true, false, Option-cases, [], none, some, ok,
  arith, All, All-map, All-select, not, str_eq,
}
use evorule_rule.External.{Externals, BumpKind}
use evorule_rule.Model.Lifecycle.{LifecycleStatus, Lifecycle, draft}
use evorule_rule.Model.Entry.{RuleEntry}
use evorule_rule.Model.Dataset.{RuleDataset}
use evorule_rule.Store.State.{Store, Codec}
use evorule_rule.Store.Query.{get_dataset}
use evorule_rule.Store.Entries.{
  add_entry, update_draft_entry, delete_entry, transition_entry_status,
  transition_entry_status_machine,
}
use evorule_rule.Store.Review.{ratify_post_review}
use evorule_rule.Store.Datasets.{
  create_dataset, update_dataset, update_dataset_deps, delete_dataset, transition_dataset_status,
  unpublish_dataset,
}
use evorule_rule.Store.Publish.{publish_dataset_with_cause, create_dataset_version}

-- `Lifecycle::default()`.
abbrev pub default_lifecycle : Lifecycle
default_lifecycle = record { status = draft; state_history = [] }

module _ (x : Externals) where
  abbrev pub empty : Store x
  empty = record {
    datasets = [];
    entries = [];
    entry_snapshots = [];
    entry_state_history = [];
    knowledge_entries = [];
    knowledge_snapshots = [];
    knowledge_state_history = [];
    dataset_versions = [];
    dataset_version_snapshots = [];
  }

  -- One operation that succeeds. A dataset is created with the default life cycle, and
  -- `update_dataset` writes back the life cycle that was read, as the handlers do.
  pub data Step (codec : Codec x) (s : Store x) : Store x → Type 0 where
    dataset_created :
        (ds : RuleDataset x) {s' : Store x}
        → ds.lifecycle ≡ default_lifecycle
        → create_dataset x ds s ≡ ok s'
        → Step codec s s'
    dataset_updated :
        (ds old : RuleDataset x) {s' : Store x}
        → get_dataset x ds.dataset_id s ≡ some old
        → ds.lifecycle ≡ old.lifecycle
        → update_dataset x ds s ≡ ok s'
        → Step codec s s'
    deps_updated :
        (id : String) (deps : x.DataDependencies) (by at : String) {s' : Store x}
        → update_dataset_deps x id deps by at s ≡ ok s'
        → Step codec s s'
    dataset_deleted : (id : String) {s' : Store x} → delete_dataset x id s ≡ ok s' → Step codec s s'
    dataset_moved :
        (id : String) (to : LifecycleStatus) (by cause at : String) {s' : Store x}
        → transition_dataset_status x id to by cause at s ≡ ok s'
        → Step codec s s'
    dataset_published :
        (id publisher at cause : String) {s' : Store x}
        → publish_dataset_with_cause x codec id publisher at cause s ≡ ok s'
        → Step codec s s'
    dataset_unpublished :
        (id by at : String) {s' : Store x}
        → unpublish_dataset x id by at s ≡ ok s'
        → Step codec s s'
    version_created :
        (id : String) (kind : BumpKind) (by at name : String) {s' : Store x}
        → create_dataset_version x id kind by at s ≡ ok (name, s')
        → Step codec s s'
    entry_added :
        (e : RuleEntry x) (now : String) {s' : Store x}
        → add_entry x codec e now s ≡ ok s'
        → Step codec s s'
    draft_edited :
        (e : RuleEntry x) (now : String) {s' : Store x}
        → update_draft_entry x e now s ≡ ok s'
        → Step codec s s'
    entry_deleted :
        (ds id : String) {s' : Store x} → delete_entry x ds id s ≡ ok s' → Step codec s s'
    entry_moved :
        (ds id : String) (to : LifecycleStatus) (by at cause : String) {s' : Store x}
        → transition_entry_status x ds id to by at cause s ≡ ok s'
        → Step codec s s'
    entry_released :
        (ds id : String) (to : LifecycleStatus) (by at cause tier anchor : String) {s' : Store x}
        → transition_entry_status_machine x ds id to by at cause tier anchor s ≡ ok s'
        → Step codec s s'
    ratified :
        (ds id by at : String) {s' : Store x}
        → s' ≡ (ratify_post_review x ds id by at s).1
        → Step codec s s'

  pub data Reach (codec : Codec x) : Store x → Type 0 where
    start : Reach codec empty
    step : (s : Store x) {s' : Store x} → Reach codec s → Step codec s s' → Reach codec s'
