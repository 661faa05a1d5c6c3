-- ===== src/Store/Datasets/Chain.antt =====
-- The audit history of a dataset: each change starts where the one before it ended.
pub mod Steps
use evorule_rule.Prelude.{
  String, ◌≡◌, refl, sym, ap, ◌∙◌, subst, inl, inr, Bool, true, false, none, some, List, [], ◌∷◌,
  ◌++◌, ok, err, Result, Option, arith, All, All-Mem, All-update, All-append, All-select, All-map,
  Option-cases, find, update, Bool-cases, str_eq,
}
use evorule_rule.External.{Externals, BumpKind}
use evorule_rule.Model.Lifecycle.{
  LifecycleStatus, Lifecycle, StateChange, draft, active, published, rejected, debug, status_eq,
  state_change,
}
use evorule_rule.Model.Dataset.{RuleDataset}
use evorule_rule.Store.State.{Store, Codec}
use evorule_rule.Store.Query.{get_dataset}
use evorule_rule.Store.Datasets.{
  refuse, advance, is_dataset, set_lifecycle, withdrawn, touched, overwrite_dataset, create_dataset,
  update_dataset, delete_dataset, transition_dataset_status, unpublish_dataset,
}
use evorule_rule.Store.Publish.{
  redrafted, published_life, publish_dataset_with_cause, create_dataset_version,
}
use evorule_rule.Store.Publish.Gates.{publish_iff}

-- The changes lead from the first name of a state to the last.
abbrev pub Linked : String → List StateChange → String → Type 0
Linked from [] to = from ≡ to
Linked from (c ∷ cs) to = (c.from ≡ from) × Linked c.to cs to

Linked-append :
    (from : String) (cs : List StateChange) (mid : String) (c : StateChange)
    → Linked from cs mid
    → c.from ≡ mid
    → Linked from (cs ++ c ∷ []) c.to
Linked-append from [] mid c l e = (e ∙ sym l, refl)
Linked-append from (d ∷ cs) mid c l e = (l.0, Linked-append d.to cs mid c l.1 e)

-- From a draft through every change of the history to the present status.
abbrev pub IsLinked : Lifecycle → Type 0
IsLinked life = Linked (debug draft) life.state_history (debug life.status)

module _ (x : Externals) where
  abbrev pub AllLinked : Store x → Type 0
  AllLinked s = All (λ (d : RuleDataset x). IsLinked d.lifecycle) s.datasets

  found-IsLinked :
      (p : RuleDataset x → Bool) (ds : List (RuleDataset x)) (d : RuleDataset x)
      → find p ds ≡ some d
      → All (λ (d : RuleDataset x). IsLinked d.lifecycle) ds
      → IsLinked d.lifecycle
  found-IsLinked p [] d f a = cc
  found-IsLinked p (c ∷ ds) d f a = elim (Bool-cases (p c)) [
    | inl e ↦ subst (λ (o : RuleDataset x). IsLinked o.lifecycle) {x = c} {y = d} (ground arith) a.0
    | inr e ↦ found-IsLinked p ds d (ground arith) a.1
  ]

  pub get_dataset-IsLinked :
      (id : String) (s : Store x) (d : RuleDataset x)
      → get_dataset x id s ≡ some d
      → AllLinked s
      → IsLinked d.lifecycle
  unfolding get_dataset
  get_dataset-IsLinked id s d f a = found-IsLinked _ s.datasets d f a

  -- A change from the present status keeps the history linked.
  pub advance-IsLinked :
      (life : Lifecycle) (from to : LifecycleStatus) (at by cause : String) (label : Option String)
      → life.status ≡ from
      → IsLinked life
      → IsLinked (advance to (state_change from to at by cause label) life)
  advance-IsLinked life from to at by cause label e l =
      Linked-append (debug draft) life.state_history (debug life.status)
        (state_change from to at by cause label) l (ap debug (sym e))

  -- Every row of one dataset given the life cycle `life`.
  pub set_lifecycle-AllLinked :
      (id : String) (life : Lifecycle) (s : Store x)
      → IsLinked life
      → AllLinked s
      → AllLinked (set_lifecycle x id life s)
  set_lifecycle-AllLinked id life s l a =
      All-update _ (is_dataset x id) (λ d. record d { lifecycle = life }) s.datasets (λ r t p. l) a

  pub transition-AllLinked :
      (id : String) (to : LifecycleStatus) (by cause at : String) (s s' : Store x)
      → AllLinked s
      → transition_dataset_status x id to by cause at s ≡ ok s'
      → AllLinked s'
  unfolding transition_dataset_status
  transition-AllLinked id to by cause at s s' a h = elim (Option-cases (get_dataset x id s)) [
    | inl n ↦ ground arith
    | inr (d, f) ↦
        let life = advance to (state_change d.lifecycle.status to at by cause none) d.lifecycle in
        subst AllLinked {x = set_lifecycle x id life s} {y = s'} (ground arith) (
          set_lifecycle-AllLinked id life s
            (advance-IsLinked d.lifecycle d.lifecycle.status to at by cause none refl
              (get_dataset-IsLinked id s d f a))
            a)
  ]

  pub unpublish-AllLinked :
      (id by at : String) (s s' : Store x)
      → AllLinked s
      → unpublish_dataset x id by at s ≡ ok s'
      → AllLinked s'
  unfolding unpublish_dataset
  unpublish-AllLinked id by at s s' a h = elim (Option-cases (get_dataset x id s)) [
    | inl n ↦ ground arith
    | inr (d, f) ↦
        subst AllLinked
          {x = record s {
            datasets =
                update (is_dataset x id)
                  (λ r. record r { lifecycle = withdrawn x by at d; meta = touched x by at d })
                  s.datasets;
          }}
          {y = s'} (ground arith)
          (All-update _ (is_dataset x id)
            (λ r. record r { lifecycle = withdrawn x by at d; meta = touched x by at d }) s.datasets
            (λ r t l.
              advance-IsLinked d.lifecycle d.lifecycle.status rejected at by _ none refl
                (get_dataset-IsLinked id s d f a))
            a)
  ]

  pub publish-AllLinked :
      (codec : Codec x) (id publisher at cause : String) (s s' : Store x)
      → AllLinked s
      → publish_dataset_with_cause x codec id publisher at cause s ≡ ok s'
      → AllLinked s'
  publish-AllLinked codec id publisher at cause s s' a h =
      let (d, p, w) = (publish_iff x codec id publisher at cause s s').0 h in
      subst AllLinked (sym w) (
        set_lifecycle-AllLinked id (published_life x publisher at cause d) s
          (advance-IsLinked d.lifecycle active published at publisher cause _ p.is_active
            (get_dataset-IsLinked id s d p.found a))
          a)
