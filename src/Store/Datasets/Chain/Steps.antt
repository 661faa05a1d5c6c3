-- ===== src/Store/Datasets/Chain/Steps.antt =====
-- The creation, the edit, the deletion and the new version of a dataset keep its history linked.
use evorule_rule.Prelude.{
  String, ◌≡◌, refl, sym, subst, inl, inr, some, none, [], ok, arith, All-update, All-append,
  All-select, All-map, Option-cases, update, not, str_eq, ◌∷◌, ◌++◌,
}
use evorule_rule.External.{Externals, BumpKind}
use evorule_rule.Model.Lifecycle.{draft}
use evorule_rule.Model.Dataset.{RuleDataset}
use evorule_rule.Store.State.{Store}
use evorule_rule.Store.Query.{get_dataset}
use evorule_rule.Store.Datasets.{
  is_dataset, touched, overwrite_dataset, create_dataset, update_dataset, update_dataset_deps,
  without_dataset, delete_dataset,
}
use evorule_rule.Store.Publish.{redrafted, versioned, create_dataset_version}
use evorule_rule.Store.Publish.Versions.{create_dataset_version_iff}
use evorule_rule.Store.Datasets.Chain.{IsLinked, AllLinked, get_dataset-IsLinked, advance-IsLinked}

module _ (x : Externals) where
  pub create-AllLinked :
      (ds : RuleDataset x) (s s' : Store x)
      → IsLinked ds.lifecycle
      → AllLinked x s
      → create_dataset x ds s ≡ ok s'
      → AllLinked x s'
  unfolding create_dataset
  create-AllLinked ds s s' l a h =
      subst (AllLinked x) {x = record s { datasets = s.datasets ++ ds ∷ [] }} {y = s'}
        (ground arith) (All-append _ s.datasets (ds ∷ []) a (l, tt))

  pub update-AllLinked :
      (ds : RuleDataset x) (s s' : Store x)
      → IsLinked ds.lifecycle
      → AllLinked x s
      → update_dataset x ds s ≡ ok s'
      → AllLinked x s'
  unfolding update_dataset
  update-AllLinked ds s s' l a h =
      subst (AllLinked x)
        {x = record s {
          datasets = update (is_dataset x ds.dataset_id) (overwrite_dataset x ds) s.datasets;
        }}
        {y = s'} (ground arith)
        (All-update _ (is_dataset x ds.dataset_id) (overwrite_dataset x ds) s.datasets (λ r t p. l)
          a)

  pub deps-AllLinked :
      (id : String) (deps : x.DataDependencies) (by at : String) (s s' : Store x)
      → AllLinked x s
      → update_dataset_deps x id deps by at s ≡ ok s'
      → AllLinked x s'
  unfolding update_dataset_deps
  deps-AllLinked id deps by at s s' a h = elim (Option-cases (get_dataset x id s)) [
    | inl n ↦ ground arith
    | inr (d, f) ↦
        update-AllLinked (record d { data_dependencies = some deps; meta = touched x by at d }) s s'
          (get_dataset-IsLinked x id s d f a) a (ground arith)
  ]

  pub delete-AllLinked :
      (id : String) (s s' : Store x)
      → AllLinked x s
      → delete_dataset x id s ≡ ok s'
      → AllLinked x s'
  unfolding delete_dataset
  delete-AllLinked id s s' a h = elim (Option-cases (get_dataset x id s)) [
    | inl n ↦ ground arith
    | inr (d, f) ↦
        subst (AllLinked x) {x = without_dataset x id s} {y = s'} (ground arith) (
          All-map _ _ _ (λ r p. p.1)
            (All-select _ (λ r. not (str_eq r.dataset_id id)) s.datasets a))
  ]

  pub version-AllLinked :
      (id : String) (kind : BumpKind) (by at : String) (s s' : Store x) (v : String)
      → AllLinked x s
      → create_dataset_version x id kind by at s ≡ ok (v, s')
      → AllLinked x s'
  version-AllLinked id kind by at s s' name a h =
      let (ds, v, b, n, w) = (create_dataset_version_iff x id kind by at s s' name).0 h in
      let next = redrafted x kind (x.current v) by at ds in
      subst (AllLinked x) {x = versioned x id kind by at ds v s} {y = s'} (sym w) (
        All-update _ (is_dataset x id)
          (λ d. record d { versioning = v; lifecycle = next; meta = touched x by at ds }) s.datasets
          (λ r t p.
            advance-IsLinked x ds.lifecycle ds.lifecycle.status draft at by _ none refl
              (get_dataset-IsLinked x id s ds b.found a))
          a)
