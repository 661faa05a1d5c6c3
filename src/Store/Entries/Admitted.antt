-- ===== src/Store/Entries/Admitted.antt =====
-- Which rule entries are added and which drafts are edited, and the rows and snapshots that are
-- there afterwards.
use evorule_rule.Prelude.{
  String, ◌≡◌, refl, sym, ap, ◌∙◌, ◌↔◌, true, false, Option, none, some, List, [], ◌∷◌, ◌++◌, ok,
  arith, any, update, unwrap_or,
}
use evorule_rule.External.{Externals}
use evorule_rule.Model.Lifecycle.{LifecycleStatus, draft, candidate, active, published, rejected}
use evorule_rule.Model.Entry.{RuleEntry, is_frozen, rule_is_llm}
use evorule_rule.Model.Dataset.{RuleDataset, DatasetKind, rule_set, is_rule_set}
use evorule_rule.Validate.Boundary.{validate_llm_boundary}
use evorule_rule.Validate.Boundary.Evidence.{MayEnter, boundary_iff}
use evorule_rule.Validate.Symbols.{declared_services}
use evorule_rule.Validate.Symbols.Agreement.{Agrees, consistency_iff}
use evorule_rule.Validate.Credentials.{scan_credentials}
use evorule_rule.Store.State.{Store, Snapshot, Codec, rule_key}
use evorule_rule.Store.Query.{get_dataset}
use evorule_rule.Store.Saved.{Saved, put-Saved, Saved-put}
use evorule_rule.Store.Entries.{put_snapshot, add_entry, update_draft_entry}
use evorule_rule.Store.Entries.Admission.{
  Sound, add_entry-Admissible, Admissible-added, update_draft_entry-Editable, Editable-edited,
}

rule_set_only : (k : DatasetKind) → is_rule_set k ≡ true → k ≡ rule_set
rule_set_only k h = ground (arith, h)

-- A status of an entry that may still be edited; one that states no status may not.
pub data IsOpen : Option LifecycleStatus → Type 0 where
  open_draft : IsOpen (some draft)
  open_candidate : IsOpen (some candidate)
  open_rejected : IsOpen (some rejected)

unfrozen-IsOpen : (status : Option LifecycleStatus) → is_frozen status ≡ false → IsOpen status
unfrozen-IsOpen none h = cc
unfrozen-IsOpen (some draft) h = open_draft
unfrozen-IsOpen (some candidate) h = open_candidate
unfrozen-IsOpen (some active) h = cc
unfrozen-IsOpen (some published) h = cc
unfrozen-IsOpen (some rejected) h = open_rejected

IsOpen-is_frozen : {status : Option LifecycleStatus} → IsOpen status → is_frozen status ≡ false
IsOpen-is_frozen open_draft = refl
IsOpen-is_frozen open_candidate = refl
IsOpen-is_frozen open_rejected = refl

module _ (x : Externals) where
  -- The content fits its dataset: the services pass their check, a language model's is a draft, rejected or
  -- states no status, and no credentials show.
  pub record Fits (e : RuleEntry x) (s : Store x) (ds : RuleDataset x) : Type 0 where
    pub found : get_dataset x e.dataset_id s ≡ some ds
    pub agrees : Agrees x ds e
    pub may_enter : MayEnter (rule_is_llm x e) (unwrap_or e.status draft) none
    pub clean : scan_credentials (x.to_text e.rule_body) ≡ []

  Sound-Fits : (e : RuleEntry x) (s : Store x) (ds : RuleDataset x) → Sound x e s ds → Fits e s ds
  unfolding validate_llm_boundary
  Sound-Fits e s ds a = record {
    found = a.found;
    agrees = (consistency_iff x ds e).0 a.consistent;
    may_enter =
        (boundary_iff (rule_is_llm x e) e.entry_id (unwrap_or e.status draft) none).0 a.boundary;
    clean = a.clean;
  }

  Fits-Sound : (e : RuleEntry x) (s : Store x) (ds : RuleDataset x) → Fits e s ds → Sound x e s ds
  unfolding validate_llm_boundary
  Fits-Sound e s ds a = record {
    found = a.found;
    consistent = (consistency_iff x ds e).1 a.agrees;
    boundary =
        (boundary_iff (rule_is_llm x e) e.entry_id (unwrap_or e.status draft) none).1 a.may_enter;
    clean = a.clean;
  }

  -- A content's snapshot is there afterwards.
  abbrev pub SavedRule : RuleEntry x → String → Store x → List (Snapshot x) → Type 0
  SavedRule e now s snaps =
      Saved x e.dataset_id (x.digest e.rule_body) e.rule_body now s.entry_snapshots snaps

  -- An entry is added exactly when its dataset exists and holds rules, each of its bindings names a
  -- service that the dataset declares and the body calls, a body with dynamic references has some
  -- declared service, a language model's states no status but draft or rejected, the bundle's check
  -- passes, its body shows no credentials and no row has its key. Its row is then the last one, a snapshot
  -- of its body is appended unless its dataset has one under the same digest, and nothing else
  -- changes.
  pub add_entry_iff :
      (codec : Codec x) (e : RuleEntry x) (now : String) (s s' : Store x)
      → (add_entry x codec e now s ≡ ok s') ↔ (
          (ds : RuleDataset x) × (snaps : List (Snapshot x)) × Fits e s ds
          × (ds.dataset_kind ≡ rule_set)
          × (codec.validate_entry e (declared_services x ds) ≡ ok tt)
          × (any (rule_key x e.dataset_id e.entry_id e.version) s.entries ≡ false)
          × SavedRule e now s snaps
          × (s' ≡ record s { entry_snapshots = snaps; entries = s.entries ++ e ∷ [] }))
  add_entry_iff codec e now s s' = (
    λ h.
        let (ds, a, w) = add_entry-Admissible x codec e now s s' h in
        (
          ds,
          put_snapshot x e now s.entry_snapshots,
          Sound-Fits e s ds a.sound,
          rule_set_only ds.dataset_kind a.of_rules,
          a.executable,
          a.fresh,
          put-Saved x e.dataset_id (x.digest e.rule_body) e.rule_body now s.entry_snapshots,
          w,
        ),
    λ (ds, snaps, fits, kind, runs, fresh, saved, w).
        Admissible-added x codec e now s ds (record {
          sound = Fits-Sound e s ds fits;
          of_rules = ap is_rule_set kind;
          executable = runs;
          fresh = fresh;
        })
        ∙ ap ok (
            ap (λ t. record s { entry_snapshots = t; entries = s.entries ++ e ∷ [] })
              (Saved-put x e.dataset_id (x.digest e.rule_body) e.rule_body now saved)
            ∙ sym w),
  )

  -- What an edit leaves of a row: the key and the consumed inputs are the old ones.
  abbrev pub rewritten : RuleEntry x → RuleEntry x → RuleEntry x
  rewritten new old = record {
    entry_id = old.entry_id;
    dataset_id = old.dataset_id;
    version = old.version;
    status = new.status;
    provenance = new.provenance;
    domain = new.domain;
    tags = new.tags;
    data_source_binding = new.data_source_binding;
    consumed_inputs = old.consumed_inputs;
    rule_body = new.rule_body;
    governance = new.governance;
  }

  -- A row is overwritten exactly when the dataset exists, the new content states the status draft,
  -- candidate or rejected, its services pass as those of a new entry, a language model's is no
  -- candidate, its body shows no credentials and a row has its key; the status of that row is not
  -- asked for. Every row with the key then has the new content but for the consumed inputs, a
  -- snapshot of the body is appended unless there is one under the same digest, and nothing else
  -- changes.
  pub update_draft_entry_iff :
      (e : RuleEntry x) (now : String) (s s' : Store x)
      → (update_draft_entry x e now s ≡ ok s') ↔ (
          (ds : RuleDataset x) × (snaps : List (Snapshot x)) × Fits e s ds
          × IsOpen e.status
          × (any (rule_key x e.dataset_id e.entry_id e.version) s.entries ≡ true)
          × SavedRule e now s snaps
          × (s' ≡ record s {
            entry_snapshots = snaps;
            entries = update (rule_key x e.dataset_id e.entry_id e.version) (rewritten e) s.entries;
          }))
  update_draft_entry_iff e now s s' = (
    λ h.
        let (ds, a, w) = update_draft_entry-Editable x e now s s' h in
        (
          ds,
          put_snapshot x e now s.entry_snapshots,
          Sound-Fits e s ds a.sound,
          unfrozen-IsOpen e.status a.unfrozen,
          a.present,
          put-Saved x e.dataset_id (x.digest e.rule_body) e.rule_body now s.entry_snapshots,
          w,
        ),
    λ (ds, snaps, fits, unfrozen, present, saved, w).
        Editable-edited x e now s ds (record {
          sound = Fits-Sound e s ds fits;
          unfrozen = IsOpen-is_frozen unfrozen;
          present = present;
        })
        ∙ ap ok (
            ap
              (λ t. record s {
                entry_snapshots = t;
                entries =
                    update (rule_key x e.dataset_id e.entry_id e.version) (rewritten e) s.entries;
              })
              (Saved-put x e.dataset_id (x.digest e.rule_body) e.rule_body now saved)
            ∙ sym w),
  )
