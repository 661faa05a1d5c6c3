-- ===== src/Store/Reach/Frames.antt =====
-- The operations on datasets leave the entries and their audit rows, and those on entries leave the
-- datasets.
use evorule_rule.Prelude.{String, ◌≡◌, inl, inr, Option-cases, some, ok, arith}
use evorule_rule.External.{Externals}
use evorule_rule.Model.Lifecycle.{LifecycleStatus}
use evorule_rule.Model.Dataset.{RuleDataset}
use evorule_rule.Store.State.{Store}
use evorule_rule.Store.Query.{get_dataset}
use evorule_rule.Store.Datasets.{
  create_dataset, update_dataset, update_dataset_deps, transition_dataset_status, unpublish_dataset,
  touched,
}

module _ (x : Externals) where
  -- The rows of entries, of their audit history and of their snapshots are the same.
  abbrev pub SameEntries : Store x → Store x → Type 0
  SameEntries s s' =
      (s'.entries ≡ s.entries)
      × (s'.entry_state_history ≡ s.entry_state_history)
      × (s'.entry_snapshots ≡ s.entry_snapshots)

  pub create-SameEntries :
      (ds : RuleDataset x) (s s' : Store x) → create_dataset x ds s ≡ ok s' → SameEntries s s'
  unfolding create_dataset
  create-SameEntries ds s s' h = (ground arith, ground arith, ground arith)

  pub update-SameEntries :
      (ds : RuleDataset x) (s s' : Store x) → update_dataset x ds s ≡ ok s' → SameEntries s s'
  unfolding update_dataset
  update-SameEntries ds s s' h = (ground arith, ground arith, ground arith)

  pub deps-SameEntries :
      (id : String) (deps : x.DataDependencies) (by at : String) (s s' : Store x)
      → update_dataset_deps x id deps by at s ≡ ok s'
      → SameEntries s s'
  unfolding update_dataset_deps
  deps-SameEntries id deps by at s s' h = elim (Option-cases (get_dataset x id s)) [
    | inl n ↦ ground arith
    | inr (d, f) ↦
        update-SameEntries (record d { data_dependencies = some deps; meta = touched x by at d }) s
          s' (ground arith)
  ]

  pub transition-SameEntries :
      (id : String) (to : LifecycleStatus) (by cause at : String) (s s' : Store x)
      → transition_dataset_status x id to by cause at s ≡ ok s'
      → SameEntries s s'
  unfolding transition_dataset_status
  transition-SameEntries id to by cause at s s' h = elim (Option-cases (get_dataset x id s)) [
    | inl n ↦ ground arith
    | inr (d, f) ↦ (ground arith, ground arith, ground arith)
  ]

  pub unpublish-SameEntries :
      (id by at : String) (s s' : Store x)
      → unpublish_dataset x id by at s ≡ ok s'
      → SameEntries s s'
  unfolding unpublish_dataset
  unpublish-SameEntries id by at s s' h = elim (Option-cases (get_dataset x id s)) [
    | inl n ↦ ground arith
    | inr (d, f) ↦ (ground arith, ground arith, ground arith)
  ]
