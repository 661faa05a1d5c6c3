-- ===== src/Store/Entries/Snapshots.antt =====
-- Each rule entry has a snapshot of its content.
use evorule_rule.Prelude.{
  String, ◌≡◌, refl, sym, subst, inl, inr, Bool, true, false, not, List, [], ◌∷◌, ◌++◌, ok, arith,
  All, All-append, All-update, All-select, All-map, any, any-append, select, str_eq, str_eq_refl,
  eq_iff, Option-cases, if◌then◌else◌,
}
use evorule_rule.External.{Externals}
use evorule_rule.Model.Lifecycle.{LifecycleStatus}
use evorule_rule.Model.Entry.{RuleEntry, rule_content_hash}
use evorule_rule.Store.State.{Store, Snapshot, HistoryRow, Codec, snapshot_row, rule_row, rule_key}
use evorule_rule.Store.Query.{get_dataset}
use evorule_rule.Store.Datasets.{without_dataset, delete_dataset}
use evorule_rule.Store.Entries.{
  put_snapshot, overwrite, write_transition, add_entry, update_draft_entry, delete_entry,
}
use evorule_rule.Store.Entries.Admission.{
  add_entry-Admissible, update_draft_entry-Editable, delete_entry-Draft,
}

module _ (x : Externals) where
  abbrev pub is_kept : List (Snapshot x) → RuleEntry x → Bool
  is_kept snaps e = any (snapshot_row x e.dataset_id (rule_content_hash x e)) snaps

  -- A snapshot's body has the digest under which it is kept.
  abbrev pub AllHashed : List (Snapshot x) → Type 0
  AllHashed snaps = All (λ r. r.content_hash ≡ x.digest r.body) snaps

  abbrev pub AllKept : Store x → Type 0
  AllKept s = All (λ e. is_kept s.entry_snapshots e ≡ true) s.entries × AllHashed s.entry_snapshots

  one_hashed :
      (snaps : List (Snapshot x)) (row : Snapshot x) (b : Bool)
      → AllHashed snaps
      → row.content_hash ≡ x.digest row.body
      → AllHashed (if b then snaps else snaps ++ row ∷ [])
  one_hashed snaps row true a h = a
  one_hashed snaps row false a h = All-append _ snaps (row ∷ []) a (h, tt)

  put_hashed :
      (e : RuleEntry x) (now : String) (snaps : List (Snapshot x))
      → AllHashed snaps
      → AllHashed (put_snapshot x e now snaps)
  put_hashed e now snaps a = one_hashed snaps _ (is_kept snaps e) a refl

  one_kept :
      (p : Snapshot x → Bool) (snaps : List (Snapshot x)) (row : Snapshot x) (b : Bool)
      → any p snaps ≡ true
      → any p (if b then snaps else snaps ++ row ∷ []) ≡ true
  one_kept p snaps row true h = h
  one_kept p snaps row false h = ground (arith, h, any-append p snaps (row ∷ []))

  one_added :
      (p : Snapshot x → Bool) (snaps : List (Snapshot x)) (row : Snapshot x) (b : Bool)
      → any p snaps ≡ b
      → p row ≡ true
      → any p (if b then snaps else snaps ++ row ∷ []) ≡ true
  one_added p snaps row true h k = h
  one_added p snaps row false h k = ground (arith, h, k, any-append p snaps (row ∷ []))

  put_keeps :
      (e r : RuleEntry x) (now : String) (snaps : List (Snapshot x))
      → is_kept snaps r ≡ true
      → is_kept (put_snapshot x e now snaps) r ≡ true
  put_keeps e r now snaps h =
      one_kept (snapshot_row x r.dataset_id (rule_content_hash x r)) snaps _ (is_kept snaps e) h

  put_self :
      (e : RuleEntry x) (now : String) (snaps : List (Snapshot x))
      → is_kept (put_snapshot x e now snaps) e ≡ true
  put_self e now snaps =
      one_added (snapshot_row x e.dataset_id (rule_content_hash x e)) snaps _ (is_kept snaps e) refl
        (ground (arith, str_eq_refl e.dataset_id, str_eq_refl (rule_content_hash x e)))

  pub add_entry-AllKept :
      (codec : Codec x) (e : RuleEntry x) (now : String) (s s' : Store x)
      → AllKept s
      → add_entry x codec e now s ≡ ok s'
      → AllKept s'
  add_entry-AllKept codec e now s s' a h =
      let (ds, c, w) = add_entry-Admissible x codec e now s s' h in
      subst AllKept (sym w) (
        All-append _ s.entries (e ∷ [])
            (All-map _ _ s.entries (λ r p. put_keeps e r now s.entry_snapshots p) a.0)
            (put_self e now s.entry_snapshots, tt),
        put_hashed e now s.entry_snapshots a.1,
      )

  pub update_draft_entry-AllKept :
      (e : RuleEntry x) (now : String) (s s' : Store x)
      → AllKept s
      → update_draft_entry x e now s ≡ ok s'
      → AllKept s'
  update_draft_entry-AllKept e now s s' a h =
      let (ds, c, w) = update_draft_entry-Editable x e now s s' h in
      let snaps = put_snapshot x e now s.entry_snapshots in
      subst AllKept (sym w) (
        All-update (λ r. is_kept snaps r ≡ true) (rule_key x e.dataset_id e.entry_id e.version)
            (overwrite x e) s.entries
            (λ r k p.
              subst (λ d. any (snapshot_row x d (rule_content_hash x e)) snaps ≡ true)
                (ground (arith, eq_iff r.dataset_id e.dataset_id))
                (put_self e now s.entry_snapshots))
            (All-map _ _ s.entries (λ r p. put_keeps e r now s.entry_snapshots p) a.0),
        put_hashed e now s.entry_snapshots a.1,
      )

  pub delete_entry-AllKept :
      (ds id : String) (s s' : Store x) → AllKept s → delete_entry x ds id s ≡ ok s' → AllKept s'
  delete_entry-AllKept ds id s s' a h =
      let (e, l, d, w) = delete_entry-Draft x ds id s s' h in
      subst AllKept (sym w) (
        All-map _ _ _ (λ r p. p.1)
            (All-select (λ r. is_kept s.entry_snapshots r ≡ true) (λ r. not (rule_row x ds id r))
              s.entries a.0),
        a.1,
      )

  pub transition-AllKept :
      (ds id : String) (e : RuleEntry x) (to : LifecycleStatus) (at : String) (row : HistoryRow)
      (s : Store x)
      → AllKept s
      → AllKept (write_transition x ds id e to at row s)
  transition-AllKept ds id e to at row s a = (
    All-update (λ r. is_kept s.entry_snapshots r ≡ true) (rule_key x ds id e.version) _ s.entries
        (λ r k p. p) a.0,
    a.1,
  )

  kept_elsewhere :
      (id : String) (e : RuleEntry x) (snaps : List (Snapshot x))
      → str_eq e.dataset_id id ≡ false
      → is_kept (select (λ r. not (str_eq r.dataset_id id)) snaps) e ≡ is_kept snaps e
  kept_elsewhere id e [] h = refl
  kept_elsewhere id e (r ∷ snaps) h = ground (
    arith,
    eq_iff r.dataset_id id,
    eq_iff r.dataset_id e.dataset_id,
    eq_iff e.dataset_id id,
    kept_elsewhere id e snaps h,
  )

  pub delete_dataset-AllKept :
      (id : String) (s s' : Store x) → AllKept s → delete_dataset x id s ≡ ok s' → AllKept s'
  unfolding delete_dataset
  delete_dataset-AllKept id s s' a h = elim (Option-cases (get_dataset x id s)) [
    | inl n ↦ ground arith
    | inr (d, f) ↦ subst AllKept {x = without_dataset x id s} {y = s'} (ground arith) (
      All-map _ _ _ (λ r p. ground (arith, p.0, p.1, kept_elsewhere id r s.entry_snapshots))
          (All-select _ (λ r. not (str_eq r.dataset_id id)) s.entries a.0),
      All-map _ _ _ (λ r p. p.1)
          (All-select _ (λ r. not (str_eq r.dataset_id id)) s.entry_snapshots a.1),
    )
  ]
