-- ===== src/Store/Reach/Invariants.antt =====
-- What holds of every store that the operations reach.
use evorule_rule.Prelude.{String, ◌≡◌, refl, sym, subst, true, All}
use evorule_rule.External.{Externals}
use evorule_rule.Store.State.{Store, Codec}
use evorule_rule.Store.Entries.Admission.{
  add_entry-Admissible, update_draft_entry-Editable, delete_entry-Draft,
}
use evorule_rule.Store.Entries.Transitions.{human-Moved, machine-Released}
use evorule_rule.Store.Entries.Backing.{
  AllBacked, is_backed, add_entry-AllBacked, update_draft_entry-AllBacked, delete_entry-AllBacked,
}
use evorule_rule.Store.Entries.Backing.Releases.{
  human-AllBacked, machine-AllBacked, ratify-AllBacked,
}
use evorule_rule.Store.Entries.Backing.Removal.{delete_dataset-AllBacked}
use evorule_rule.Store.Review.{ratify_post_review}
use evorule_rule.Store.Datasets.Chain.{
  AllLinked, IsLinked, get_dataset-IsLinked, transition-AllLinked, publish-AllLinked,
  unpublish-AllLinked,
}
use evorule_rule.Store.Datasets.Chain.Steps.{
  create-AllLinked, update-AllLinked, deps-AllLinked, delete-AllLinked, version-AllLinked,
}
use evorule_rule.Store.Publish.Gates.{publish_iff}
use evorule_rule.Store.Publish.Versions.{create_dataset_version_iff}
use evorule_rule.Store.Reach.{
  Step, Reach, start, step, dataset_created, dataset_updated, deps_updated, dataset_deleted,
  dataset_moved, dataset_published, dataset_unpublished, version_created, entry_added, draft_edited,
  entry_deleted, entry_moved, entry_released, ratified,
}
use evorule_rule.Store.Reach.Frames.{
  SameEntries, create-SameEntries, update-SameEntries, deps-SameEntries, transition-SameEntries,
  unpublish-SameEntries,
}

module _ (x : Externals) where
  same_backed : (s s' : Store x) → SameEntries x s s' → AllBacked x s → AllBacked x s'
  same_backed s s' (e, r, k) a =
      subst (λ rows. All (λ q. is_backed x rows q ≡ true) s'.entries) (sym r)
        (subst (λ es. All (λ q. is_backed x s.entry_state_history q ≡ true) es) (sym e) a)

  Step-AllBacked :
      (codec : Codec x) (s s' : Store x) → Step x codec s s' → AllBacked x s → AllBacked x s'
  Step-AllBacked codec s s' (dataset_created ds l h) a =
      same_backed s s' (create-SameEntries x ds s s' h) a
  Step-AllBacked codec s s' (dataset_updated ds old f l h) a =
      same_backed s s' (update-SameEntries x ds s s' h) a
  Step-AllBacked codec s s' (deps_updated id deps by at h) a =
      same_backed s s' (deps-SameEntries x id deps by at s s' h) a
  Step-AllBacked codec s s' (dataset_deleted id h) a = delete_dataset-AllBacked x id s s' a h
  Step-AllBacked codec s s' (dataset_moved id to by cause at h) a =
      same_backed s s' (transition-SameEntries x id to by cause at s s' h) a
  Step-AllBacked codec s s' (dataset_published id publisher at cause h) a =
      let (ds, p, w) = (publish_iff x codec id publisher at cause s s').0 h in
      subst (AllBacked x) (sym w) a
  Step-AllBacked codec s s' (dataset_unpublished id by at h) a =
      same_backed s s' (unpublish-SameEntries x id by at s s' h) a
  Step-AllBacked codec s s' (version_created id kind by at name h) a =
      let (ds, v, b, n, w) = (create_dataset_version_iff x id kind by at s s' name).0 h in
      subst (AllBacked x) (sym w) a
  Step-AllBacked codec s s' (entry_added e now h) a = add_entry-AllBacked x codec e now s s' a h
  Step-AllBacked codec s s' (draft_edited e now h) a = update_draft_entry-AllBacked x e now s s' a h
  Step-AllBacked codec s s' (entry_deleted ds id h) a = delete_entry-AllBacked x ds id s s' a h
  Step-AllBacked codec s s' (entry_moved ds id to by at cause h) a =
      human-AllBacked x ds id to by at cause s s' a h
  Step-AllBacked codec s s' (entry_released ds id to by at cause tier anchor h) a =
      machine-AllBacked x ds id to by at cause tier anchor s s' a h
  Step-AllBacked codec s s' (ratified ds id by at w) a =
      subst (AllBacked x) (sym w) (ratify-AllBacked x ds id by at s a)

  -- In every store that the operations reach from an empty one, an entry that a language model wrote
  -- and that states its status is a draft or rejected, or it is a candidate or active and the audit
  -- history has the row of the machine gate's release of that version to that status.
  pub Reach-AllBacked : (codec : Codec x) (s : Store x) → Reach x codec s → AllBacked x s
  Reach-AllBacked codec s start = tt
  Reach-AllBacked codec s' (step s r t) = Step-AllBacked codec s s' t (Reach-AllBacked codec s r)

  ratified-AllLinked :
      (ds id by at : String) (s : Store x)
      → AllLinked x s
      → AllLinked x (ratify_post_review x ds id by at s).1
  unfolding ratify_post_review
  ratified-AllLinked ds id by at s a = a

  Step-AllLinked :
      (codec : Codec x) (s s' : Store x) → Step x codec s s' → AllLinked x s → AllLinked x s'
  Step-AllLinked codec s s' (dataset_created ds l h) a =
      create-AllLinked x ds s s' (subst IsLinked (sym l) refl) a h
  Step-AllLinked codec s s' (dataset_updated ds old f l h) a =
      update-AllLinked x ds s s'
        (subst IsLinked (sym l) (get_dataset-IsLinked x ds.dataset_id s old f a)) a h
  Step-AllLinked codec s s' (deps_updated id deps by at h) a =
      deps-AllLinked x id deps by at s s' a h
  Step-AllLinked codec s s' (dataset_deleted id h) a = delete-AllLinked x id s s' a h
  Step-AllLinked codec s s' (dataset_moved id to by cause at h) a =
      transition-AllLinked x id to by cause at s s' a h
  Step-AllLinked codec s s' (dataset_published id publisher at cause h) a =
      publish-AllLinked x codec id publisher at cause s s' a h
  Step-AllLinked codec s s' (dataset_unpublished id by at h) a =
      unpublish-AllLinked x id by at s s' a h
  Step-AllLinked codec s s' (version_created id kind by at name h) a =
      version-AllLinked x id kind by at s s' name a h
  Step-AllLinked codec s s' (entry_added e now h) a =
      let (ds, c, w) = add_entry-Admissible x codec e now s s' h in subst (AllLinked x) (sym w) a
  Step-AllLinked codec s s' (draft_edited e now h) a =
      let (ds, c, w) = update_draft_entry-Editable x e now s s' h in subst (AllLinked x) (sym w) a
  Step-AllLinked codec s s' (entry_deleted ds id h) a =
      let (e, l, d, w) = delete_entry-Draft x ds id s s' h in subst (AllLinked x) (sym w) a
  Step-AllLinked codec s s' (entry_moved ds id to by at cause h) a =
      let (e, m, w) = human-Moved x ds id to by at cause s s' h in subst (AllLinked x) (sym w) a
  Step-AllLinked codec s s' (entry_released ds id to by at cause tier anchor h) a =
      let (e, m, w) = machine-Released x ds id to by at cause tier anchor s s' h in
      subst (AllLinked x) (sym w) a
  Step-AllLinked codec s s' (ratified ds id by at w) a =
      subst (AllLinked x) (sym w) (ratified-AllLinked ds id by at s a)

  -- In every store that the operations reach from an empty one, the audit history of each dataset
  -- leads without a gap from the draft state to the status that the dataset has.
  pub Reach-AllLinked : (codec : Codec x) (s : Store x) → Reach x codec s → AllLinked x s
  Reach-AllLinked codec s start = tt
  Reach-AllLinked codec s' (step s r t) = Step-AllLinked codec s s' t (Reach-AllLinked codec s r)
