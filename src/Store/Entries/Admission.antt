-- ===== src/Store/Entries/Admission.antt =====
-- Which entries are added, which drafts are edited and which entries are deleted.
use evorule_rule.Prelude.{
  String, ◌≡◌, refl, inl, inr, true, false, some, [], ok, arith, Option-cases, any, Text, List, ◌∷◌,
  not, update, select, is_empty,
}
use evorule_rule.External.{Externals}
use evorule_rule.Model.Lifecycle.{draft}
use evorule_rule.Model.Entry.{RuleEntry, is_frozen}
use evorule_rule.Model.Dataset.{RuleDataset, is_rule_set}
use evorule_rule.Validate.Boundary.{validate_llm_boundary}
use evorule_rule.Validate.Symbols.{declared_services, validate_symbol_consistency}
use evorule_rule.Validate.Credentials.{scan_credentials}
use evorule_rule.Store.State.{Store, Codec, rule_key, rule_row, history_row}
use evorule_rule.Store.Query.{get_dataset, get_latest_entry}
use evorule_rule.Store.Entries.{
  scan_body, insert_entry, put_snapshot, overwrite, add_entry, update_draft_entry, delete_entry,
}

empty_nil : (ts : List Text) → is_empty ts ≡ true → ts ≡ []
empty_nil [] h = refl
empty_nil (t ∷ ts) h = cc

module _ (x : Externals) where
  -- The checks that a new entry and an edited draft share.
  pub record Sound (e : RuleEntry x) (s : Store x) (ds : RuleDataset x) : Type 0 where
    pub found : get_dataset x e.dataset_id s ≡ some ds
    pub consistent : validate_symbol_consistency x ds e ≡ ok tt
    pub boundary : validate_llm_boundary x e ≡ ok tt
    pub clean : scan_credentials (x.to_text e.rule_body) ≡ []

  pub scan_clean :
      (body : x.Json) → scan_body x body ≡ ok tt → scan_credentials (x.to_text body) ≡ []
  unfolding scan_body
  scan_clean body h = empty_nil _ (ground arith)

  pub clean_scan :
      (body : x.Json) → scan_credentials (x.to_text body) ≡ [] → scan_body x body ≡ ok tt
  unfolding scan_body
  clean_scan body h = ground (arith, h)

  pub record Admissible (codec : Codec x) (e : RuleEntry x) (s : Store x) (ds : RuleDataset x)
      : Type 0 where
    pub sound : Sound e s ds
    pub of_rules : is_rule_set ds.dataset_kind ≡ true
    pub executable : codec.validate_entry e (declared_services x ds) ≡ ok tt
    pub fresh : any (rule_key x e.dataset_id e.entry_id e.version) s.entries ≡ false

  pub add_entry-Admissible :
      (codec : Codec x) (e : RuleEntry x) (now : String) (s s' : Store x)
      → add_entry x codec e now s ≡ ok s'
      → (ds : RuleDataset x) × Admissible codec e s ds × (s' ≡ insert_entry x e now s)
  unfolding add_entry
  add_entry-Admissible codec e now s s' h = elim (Option-cases (get_dataset x e.dataset_id s)) [
    | inl n ↦ ground arith
    | inr (ds, f) ↦ (
      ds,
      record {
        sound = record {
          found = f;
          consistent = ground arith;
          boundary = ground arith;
          clean = scan_clean e.rule_body (ground arith);
        };
        of_rules = ground arith;
        executable = ground arith;
        fresh = ground arith;
      },
      ground arith,
    )
  ]

  pub Admissible-added :
      (codec : Codec x) (e : RuleEntry x) (now : String) (s : Store x) (ds : RuleDataset x)
      → Admissible codec e s ds
      → add_entry x codec e now s ≡ ok (insert_entry x e now s)
  unfolding add_entry
  Admissible-added codec e now s ds a = ground (
    arith,
    a.sound.found,
    a.sound.consistent,
    a.sound.boundary,
    clean_scan e.rule_body a.sound.clean,
    a.of_rules,
    a.executable,
    a.fresh,
  )

  pub record Editable (e : RuleEntry x) (s : Store x) (ds : RuleDataset x) : Type 0 where
    pub sound : Sound e s ds
    pub unfrozen : is_frozen e.status ≡ false
    pub present : any (rule_key x e.dataset_id e.entry_id e.version) s.entries ≡ true

  -- The row of the draft overwritten, and a snapshot of its body kept.
  abbrev pub edited : RuleEntry x → String → Store x → Store x
  edited e now s = record s {
    entry_snapshots = put_snapshot x e now s.entry_snapshots;
    entries = update (rule_key x e.dataset_id e.entry_id e.version) (overwrite x e) s.entries;
  }

  pub update_draft_entry-Editable :
      (e : RuleEntry x) (now : String) (s s' : Store x)
      → update_draft_entry x e now s ≡ ok s'
      → (ds : RuleDataset x) × Editable e s ds × (s' ≡ edited e now s)
  unfolding update_draft_entry
  update_draft_entry-Editable e now s s' h = elim (Option-cases (get_dataset x e.dataset_id s)) [
    | inl n ↦ ground arith
    | inr (ds, f) ↦ (
      ds,
      record {
        sound = record {
          found = f;
          consistent = ground arith;
          boundary = ground arith;
          clean = scan_clean e.rule_body (ground arith);
        };
        unfrozen = ground arith;
        present = ground arith;
      },
      ground arith,
    )
  ]

  pub Editable-edited :
      (e : RuleEntry x) (now : String) (s : Store x) (ds : RuleDataset x)
      → Editable e s ds
      → update_draft_entry x e now s ≡ ok (edited e now s)
  unfolding update_draft_entry
  Editable-edited e now s ds a = ground (
    arith,
    a.sound.found,
    a.sound.consistent,
    a.sound.boundary,
    clean_scan e.rule_body a.sound.clean,
    a.unfrozen,
    a.present,
  )

  abbrev pub without_entry : String → String → Store x → Store x
  without_entry ds id s = record s {
    entry_state_history = select (λ r. not (history_row ds id r)) s.entry_state_history;
    entries = select (λ r. not (rule_row x ds id r)) s.entries;
  }

  pub delete_entry-Draft :
      (ds id : String) (s s' : Store x)
      → delete_entry x ds id s ≡ ok s'
      → (e : RuleEntry x) × (get_latest_entry x ds id s ≡ some e)
        × (e.status ≡ some draft)
        × (s' ≡ without_entry ds id s)
  unfolding delete_entry
  delete_entry-Draft ds id s s' h = elim (Option-cases (get_latest_entry x ds id s)) [
    | inl n ↦ ground arith
    | inr (e, m) ↦ (e, m, ground arith, ground arith)
  ]
