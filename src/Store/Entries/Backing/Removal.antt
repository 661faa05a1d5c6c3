-- ===== src/Store/Entries/Backing/Removal.antt =====
-- The deletion of a dataset leaves what stands behind the entries of the others.
use evorule_rule.Prelude.{
  String, ◌≡◌, refl, inl, inr, false, not, Option, none, some, List, [], ◌∷◌, ok, arith, subst,
  All-map, All-select, any, select, str_eq, eq_iff, Option-cases,
}
use evorule_rule.External.{Externals}
use evorule_rule.Model.Lifecycle.{LifecycleStatus, draft, candidate, active, published, rejected}
use evorule_rule.Model.Entry.{RuleEntry}
use evorule_rule.Store.State.{Store, HistoryRow}
use evorule_rule.Store.Query.{get_dataset}
use evorule_rule.Store.Datasets.{without_dataset, delete_dataset}
use evorule_rule.Store.Entries.Backing.{releases, backed_option, AllBacked}

module _ (x : Externals) where
  releases_kept :
      (id : String) (e : RuleEntry x) (st : LifecycleStatus) (rows : List HistoryRow)
      → str_eq e.dataset_id id ≡ false
      → any (releases x e st) (select (λ r. not (str_eq r.dataset_id id)) rows)
        ≡ any (releases x e st) rows
  releases_kept id e st [] h = refl
  releases_kept id e st (r ∷ rows) h = ground (
    arith,
    eq_iff r.dataset_id id,
    eq_iff r.dataset_id e.dataset_id,
    eq_iff e.dataset_id id,
    releases_kept id e st rows h,
  )

  backed_kept :
      (id : String) (e : RuleEntry x) (o : Option LifecycleStatus) (rows : List HistoryRow)
      → str_eq e.dataset_id id ≡ false
      → backed_option x (select (λ r. not (str_eq r.dataset_id id)) rows) e o
        ≡ backed_option x rows e o
  backed_kept id e none rows h = refl
  backed_kept id e (some draft) rows h = refl
  backed_kept id e (some rejected) rows h = refl
  backed_kept id e (some published) rows h = refl
  backed_kept id e (some candidate) rows h = releases_kept id e candidate rows h
  backed_kept id e (some active) rows h = releases_kept id e active rows h

  pub delete_dataset-AllBacked :
      (id : String) (s s' : Store x)
      → AllBacked x s
      → delete_dataset x id s ≡ ok s'
      → AllBacked x s'
  unfolding delete_dataset
  delete_dataset-AllBacked id s s' a h = elim (Option-cases (get_dataset x id s)) [
    | inl n ↦ ground arith
    | inr (d, f) ↦ subst (AllBacked x) {x = without_dataset x id s} {y = s'} (ground arith) (
        All-map _ _ _
          (λ r p. ground (arith, p.0, p.1, backed_kept id r r.status s.entry_state_history))
          (All-select _ (λ r. not (str_eq r.dataset_id id)) s.entries a))
  ]
