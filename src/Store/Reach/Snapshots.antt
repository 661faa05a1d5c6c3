-- ===== src/Store/Reach/Snapshots.antt =====
-- Every rule entry of a reached store has its snapshot.
use evorule_rule.Prelude.{String, unwrap_or, none, some, ◌≡◌, sym, subst, true, All}
use evorule_rule.External.{Externals}
use evorule_rule.Model.Lifecycle.{active}
use evorule_rule.Store.Entries.{audit_row}
use evorule_rule.Store.State.{Store, Codec}
use evorule_rule.Store.Entries.Transitions.{human-Moved, machine-Released}
use evorule_rule.Store.Entries.Snapshots.{
  AllKept, AllHashed, is_kept, add_entry-AllKept, update_draft_entry-AllKept, delete_entry-AllKept,
  transition-AllKept, delete_dataset-AllKept,
}
use evorule_rule.Store.Review.{ratify_post_review}
use evorule_rule.Store.Publish.Gates.{publish_iff}
use evorule_rule.Store.Publish.Versions.{create_dataset_version_iff}
use evorule_rule.Store.Reach.{
  Step, Reach, start, step, dataset_created, dataset_updated, deps_updated, dataset_deleted,
  dataset_moved, dataset_published, dataset_unpublished, version_created, entry_added, draft_edited,
  entry_deleted, entry_moved, entry_released, ratified,
}
use evorule_rule.Store.Reach.Frames.{
  SameEntries, create-SameEntries, update-SameEntries, deps-SameEntries, transition-SameEntries,
  unpublish-SameEntries,
}

module _ (x : Externals) where
  same_kept : (s s' : Store x) → SameEntries x s s' → AllKept x s → AllKept x s'
  same_kept s s' (e, r, k) a =
      subst (λ snaps. All (λ q. is_kept x snaps q ≡ true) s'.entries × AllHashed x snaps) (sym k)
        (subst
          (λ es. All (λ q. is_kept x s.entry_snapshots q ≡ true) es × AllHashed x s.entry_snapshots)
          (sym e) a)

  ratified-AllKept :
      (ds id by at : String) (s : Store x)
      → AllKept x s
      → AllKept x (ratify_post_review x ds id by at s).1
  unfolding ratify_post_review
  ratified-AllKept ds id by at s a = a

  Step-AllKept : (codec : Codec x) (s s' : Store x) → Step x codec s s' → AllKept x s → AllKept x s'
  Step-AllKept codec s s' (dataset_created ds l h) a =
      same_kept s s' (create-SameEntries x ds s s' h) a
  Step-AllKept codec s s' (dataset_updated ds old f l h) a =
      same_kept s s' (update-SameEntries x ds s s' h) a
  Step-AllKept codec s s' (deps_updated id deps by at h) a =
      same_kept s s' (deps-SameEntries x id deps by at s s' h) a
  Step-AllKept codec s s' (dataset_deleted id h) a = delete_dataset-AllKept x id s s' a h
  Step-AllKept codec s s' (dataset_moved id to by cause at h) a =
      same_kept s s' (transition-SameEntries x id to by cause at s s' h) a
  Step-AllKept codec s s' (dataset_published id publisher at cause h) a =
      let (ds, p, w) = (publish_iff x codec id publisher at cause s s').0 h in
      subst (AllKept x) (sym w) a
  Step-AllKept codec s s' (dataset_unpublished id by at h) a =
      same_kept s s' (unpublish-SameEntries x id by at s s' h) a
  Step-AllKept codec s s' (version_created id kind by at name h) a =
      let (ds, v, b, n, w) = (create_dataset_version_iff x id kind by at s s' name).0 h in
      subst (AllKept x) (sym w) a
  Step-AllKept codec s s' (entry_added e now h) a = add_entry-AllKept x codec e now s s' a h
  Step-AllKept codec s s' (draft_edited e now h) a = update_draft_entry-AllKept x e now s s' a h
  Step-AllKept codec s s' (entry_deleted ds id h) a = delete_entry-AllKept x ds id s s' a h
  Step-AllKept codec s s' (entry_moved ds id to by at cause h) a =
      let (e, m, w) = human-Moved x ds id to by at cause s s' h in
      subst (AllKept x) (sym w) (
        transition-AllKept x ds id e to at
          (audit_row x ds id e (unwrap_or e.status active) to by at cause none) s a)
  Step-AllKept codec s s' (entry_released ds id to by at cause tier anchor h) a =
      let (e, m, w) = machine-Released x ds id to by at cause tier anchor s s' h in
      subst (AllKept x) (sym w) (
        transition-AllKept x ds id e to at
          (audit_row x ds id e (unwrap_or e.status active) to by at cause (some tier)) s a)
  Step-AllKept codec s s' (ratified ds id by at w) a =
      subst (AllKept x) (sym w) (ratified-AllKept ds id by at s a)

  -- In every store that the operations reach from an empty one, each rule entry has a snapshot under
  -- its dataset and the digest of its body, and the body of each snapshot has the digest under which
  -- it is kept.
  pub Reach-AllKept : (codec : Codec x) (s : Store x) → Reach x codec s → AllKept x s
  Reach-AllKept codec s start = (tt, tt)
  Reach-AllKept codec s' (step s r t) = Step-AllKept codec s s' t (Reach-AllKept codec s r)
