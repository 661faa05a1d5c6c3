-- ===== src/Store/Entries/Backing.antt =====
-- What stands behind an entry that a language model wrote: the machine gate's audit row.
pub mod Releases
pub mod Removal
use evorule_rule.Prelude.{
  String, ◌≡◌, refl, sym, ap, ◌∙◌, subst, ◌⊎◌, inl, inr, Bool, true, false, ◌&&◌, ◌||◌, not, Option,
  none, some, List, [], ◌∷◌, ◌++◌, ok, arith, All, All-append, All-update, All-map, All-select, any,
  any-append, select, update, unwrap_or, str_eq, str_eq_refl, eq_iff, ◌==◌, opt_eq,
}
use evorule_rule.External.{Externals}
use evorule_rule.Model.Lifecycle.{
  LifecycleStatus, draft, candidate, active, published, rejected, debug,
}
use evorule_rule.Model.Governance.{Governance, is_llm_generated, governed_by_llm}
use evorule_rule.Model.Entry.{RuleEntry, rule_is_llm, is_frozen}
use evorule_rule.Validate.Boundary.{
  MachineGateContext, validate_llm_boundary, validate_llm_boundary_gated,
}
use evorule_rule.Validate.Boundary.Evidence.{
  MayEnter, by_human, as_draft, turned_down, vouched, boundary_iff,
}
use evorule_rule.Store.Entries.Admission.{
  add_entry-Admissible, update_draft_entry-Editable, delete_entry-Draft,
}
use evorule_rule.Store.State.{Store, HistoryRow, Codec, history_row, rule_row, rule_key}
use evorule_rule.Store.Entries.{
  entry_legal, is_machine_tier, audit_row, stamp, overwrite, write_transition, add_entry,
  update_draft_entry, delete_entry, transition_entry_status, transition_entry_status_machine,
}
use evorule_rule.Store.Entries.Transitions.{evidence, human-Moved, machine-Released}
use evorule_rule.Store.Review.{column_eq, pending_row, ratify_row, ratify_post_review}

module _ (x : Externals) where
  -- The audit row of a machine release of the version `e` to the status `to`.
  abbrev pub releases : RuleEntry x → LifecycleStatus → HistoryRow → Bool
  releases e to r =
      history_row e.dataset_id e.entry_id r
      && r.version == e.version
      && str_eq r.to_state (debug to)
      && column_eq r.gate "machine"
      && (column_eq r.tier "T0" || column_eq r.tier "T1")

  abbrev pub backed_status : List HistoryRow → RuleEntry x → LifecycleStatus → Bool
  backed_status rows e draft = true
  backed_status rows e rejected = true
  backed_status rows e published = false
  backed_status rows e candidate = any (releases e candidate) rows
  backed_status rows e active = any (releases e active) rows

  abbrev pub backed_option : List HistoryRow → RuleEntry x → Option LifecycleStatus → Bool
  backed_option rows e none = true
  backed_option rows e (some st) = backed_status rows e st

  -- An entry that a language model wrote and that states its status is a draft, or rejected, or a
  -- candidate or active by a release of the machine gate; it is never published.
  abbrev pub is_backed : List HistoryRow → RuleEntry x → Bool
  is_backed rows e = not (rule_is_llm x e) || backed_option rows e e.status

  abbrev pub AllBacked : Store x → Type 0
  AllBacked s = All (λ e. is_backed s.entry_state_history e ≡ true) s.entries

  pub backed-append :
      (e : RuleEntry x) (st : Option LifecycleStatus) (rows more : List HistoryRow)
      → backed_option rows e st ≡ true
      → backed_option (rows ++ more) e st ≡ true
  backed-append e none rows more h = refl
  backed-append e (some draft) rows more h = refl
  backed-append e (some rejected) rows more h = refl
  backed-append e (some published) rows more h = h
  backed-append e (some candidate) rows more h =
      ground (arith, any-append (releases e candidate) rows more)
  backed-append e (some active) rows more h =
      ground (arith, any-append (releases e active) rows more)

  opened :
      (e : RuleEntry x)
      → validate_llm_boundary x e ≡ ok tt
      → validate_llm_boundary_gated (rule_is_llm x e) e.entry_id (unwrap_or e.status draft) none
        ≡ ok tt
  unfolding validate_llm_boundary
  opened e h = h

  pub ungated :
      (rows : List HistoryRow) (e : RuleEntry x) (b : Bool) (o : Option LifecycleStatus)
      → MayEnter b (unwrap_or o draft) none
      → (not b || backed_option rows e o) ≡ true
  ungated rows e false o m = refl
  ungated rows e true none m = refl
  ungated rows e true (some draft) m = refl
  ungated rows e true (some rejected) m = refl
  ungated rows e true (some candidate) m = elim m [ ]
  ungated rows e true (some active) m = elim m [ ]
  ungated rows e true (some published) m = elim m [ ]

  boundary-is_backed :
      (rows : List HistoryRow) (e : RuleEntry x)
      → validate_llm_boundary x e ≡ ok tt
      → is_backed rows e ≡ true
  unfolding validate_llm_boundary
  boundary-is_backed rows e h =
      ungated rows e (rule_is_llm x e) e.status
        ((boundary_iff (rule_is_llm x e) e.entry_id (unwrap_or e.status draft) none).0 h)

  pub add_entry-AllBacked :
      (codec : Codec x) (e : RuleEntry x) (now : String) (s s' : Store x)
      → AllBacked s
      → add_entry x codec e now s ≡ ok s'
      → AllBacked s'
  add_entry-AllBacked codec e now s s' a h =
      let (ds, c, w) = add_entry-Admissible x codec e now s s' h in
      subst AllBacked (sym w) (
        All-append _ s.entries (e ∷ []) a
          (boundary-is_backed s.entry_state_history e c.sound.boundary, tt))

  pub update_draft_entry-AllBacked :
      (e : RuleEntry x) (now : String) (s s' : Store x)
      → AllBacked s
      → update_draft_entry x e now s ≡ ok s'
      → AllBacked s'
  update_draft_entry-AllBacked e now s s' a h =
      let (ds, c, w) = update_draft_entry-Editable x e now s s' h in
      subst AllBacked (sym w) (
        All-update (λ r. is_backed s.entry_state_history r ≡ true) _ (overwrite x e) s.entries
          (λ r k p. ungated s.entry_state_history (overwrite x e r) (rule_is_llm x e) e.status (
            (boundary_iff (rule_is_llm x e) e.entry_id (unwrap_or e.status draft) none).0
              (opened e c.sound.boundary)))
          a)

  -- The deletion of one entry's audit rows leaves those of another entry.
  releases_kept :
      (ds id : String) (e : RuleEntry x) (st : LifecycleStatus) (rows : List HistoryRow)
      → rule_row x ds id e ≡ false
      → any (releases e st) (select (λ r. not (history_row ds id r)) rows)
        ≡ any (releases e st) rows
  releases_kept ds id e st [] h = refl
  releases_kept ds id e st (r ∷ rows) h = ground (
    arith,
    eq_iff r.dataset_id ds,
    eq_iff r.entry_id id,
    eq_iff r.dataset_id e.dataset_id,
    eq_iff r.entry_id e.entry_id,
    eq_iff e.dataset_id ds,
    eq_iff e.entry_id id,
    releases_kept ds id e st rows h,
  )

  backed_kept :
      (ds id : String) (e : RuleEntry x) (o : Option LifecycleStatus) (rows : List HistoryRow)
      → rule_row x ds id e ≡ false
      → backed_option (select (λ r. not (history_row ds id r)) rows) e o ≡ backed_option rows e o
  backed_kept ds id e none rows h = refl
  backed_kept ds id e (some draft) rows h = refl
  backed_kept ds id e (some rejected) rows h = refl
  backed_kept ds id e (some published) rows h = refl
  backed_kept ds id e (some candidate) rows h = releases_kept ds id e candidate rows h
  backed_kept ds id e (some active) rows h = releases_kept ds id e active rows h

  pub delete_entry-AllBacked :
      (ds id : String) (s s' : Store x)
      → AllBacked s
      → delete_entry x ds id s ≡ ok s'
      → AllBacked s'
  delete_entry-AllBacked ds id s s' a h =
      let (e, l, d, w) = delete_entry-Draft x ds id s s' h in
      subst AllBacked (sym w) (
        All-map _ _ _
          (λ r p. ground (arith, p.0, p.1, backed_kept ds id r r.status s.entry_state_history))
          (All-select (λ r. is_backed s.entry_state_history r ≡ true)
            (λ r. not (rule_row x ds id r)) s.entries a))
