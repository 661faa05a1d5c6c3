-- ===== src/Store/Entries/Backing/Releases.antt =====
-- The transitions keep every entry backed, and ratification does.
use evorule_rule.Prelude.{
  String, ◌≡◌, refl, sym, subst, Bool, true, ◌||◌, not, Option, none, some, List, [], ◌∷◌, ◌++◌, ok,
  arith, All-update, All-map, any, any-append, update, unwrap_or, str_eq_refl, eq_iff,
}
use evorule_rule.External.{Externals}
use evorule_rule.Model.Lifecycle.{
  LifecycleStatus, draft, candidate, active, published, rejected, debug,
}
use evorule_rule.Model.Governance.{Governance, is_llm_generated, governed_by_llm}
use evorule_rule.Model.Entry.{RuleEntry, rule_is_llm}
use evorule_rule.Validate.Boundary.{MachineGateContext}
use evorule_rule.Validate.Boundary.Evidence.{
  MayEnter, by_human, as_draft, turned_down, vouched, boundary_iff,
}
use evorule_rule.Store.State.{Store, HistoryRow, rule_key}
use evorule_rule.Store.Entries.{
  is_machine_tier, audit_row, stamp, write_transition, transition_entry_status,
  transition_entry_status_machine,
}
use evorule_rule.Store.Entries.Transitions.{evidence, human-Moved, machine-Released}
use evorule_rule.Store.Review.{pending_row, ratify_row, ratify_post_review}
use evorule_rule.Store.Entries.Backing.{
  releases, backed_status, backed_option, is_backed, AllBacked, backed-append, ungated,
}

module _ (x : Externals) where
  stamp_llm :
      (to : LifecycleStatus) (at : String) (g : Option Governance)
      → is_llm_generated (stamp to at g) ≡ governed_by_llm g
  stamp_llm to at none = refl
  stamp_llm to at (some g) = refl

  -- The rows after a transition, from what backs the new status.
  transition-AllBacked :
      (ds id : String) (e : RuleEntry x) (to : LifecycleStatus) (at : String) (row : HistoryRow)
      (s : Store x)
      → ((old : RuleEntry x)
          → rule_key x ds id e.version old ≡ true
          → (not (rule_is_llm x e) || backed_status x (s.entry_state_history ++ row ∷ []) old to)
            ≡ true)
      → AllBacked x s
      → AllBacked x (write_transition x ds id e to at row s)
  transition-AllBacked ds id e to at row s k a =
      All-update (λ r. is_backed x (s.entry_state_history ++ row ∷ []) r ≡ true)
        (rule_key x ds id e.version) _ s.entries
        (λ r t p. ground (arith, k r t, stamp_llm to at e.governance))
        (All-map _ _ s.entries
          (λ r p. ground (arith, p, backed-append x r r.status s.entry_state_history (row ∷ []))) a)

  pub human-AllBacked :
      (ds id : String) (to : LifecycleStatus) (by at cause : String) (s s' : Store x)
      → AllBacked x s
      → transition_entry_status x ds id to by at cause s ≡ ok s'
      → AllBacked x s'
  human-AllBacked ds id to by at cause s s' a h =
      let (e, m, w) = human-Moved x ds id to by at cause s s' h in
      subst (AllBacked x) (sym w) (
        transition-AllBacked ds id e to at _ s
          (λ old k.
            ungated x _ old (rule_is_llm x e) (some to)
              ((boundary_iff (rule_is_llm x e) id to none).0 m.boundary))
          a)

  gated :
      {b : Bool} {to : LifecycleStatus} {c : MachineGateContext} (rows : List HistoryRow)
      (old : RuleEntry x)
      → MayEnter b to (some c)
      → any (releases x old to) rows ≡ true
      → (not b || backed_status x rows old to) ≡ true
  gated rows old by_human r = refl
  gated {b} rows old as_draft r = ground arith
  gated {b} rows old turned_down r = ground arith
  gated {b} {to = draft} rows old (vouched e n) r = ground arith
  gated {b} {to = candidate} rows old (vouched e n) r = ground arith
  gated {b} {to = active} rows old (vouched e n) r = ground arith
  gated {b} {to = published} rows old (vouched e n) r = absurd (n refl)
  gated {b} {to = rejected} rows old (vouched e n) r = ground arith

  -- The audit row of a machine release is found again.
  row_releases :
      (ds id : String) (e old : RuleEntry x) (to : LifecycleStatus) (by at cause tier : String)
      (rows : List HistoryRow)
      → rule_key x ds id e.version old ≡ true
      → is_machine_tier tier ≡ true
      → any
          (releases x old to)
          (rows ++ audit_row x ds id e (unwrap_or e.status active) to by at cause (some tier) ∷ [])
        ≡ true
  row_releases ds id e old to by at cause tier rows k t = ground (
    arith,
    any-append (releases x old to) rows
        (audit_row x ds id e (unwrap_or e.status active) to by at cause (some tier) ∷ []),
    eq_iff old.dataset_id ds,
    eq_iff old.entry_id id,
    str_eq_refl ds,
    str_eq_refl id,
    str_eq_refl (debug to),
  )

  pub machine-AllBacked :
      (ds id : String) (to : LifecycleStatus) (by at cause tier anchor : String) (s s' : Store x)
      → AllBacked x s
      → transition_entry_status_machine x ds id to by at cause tier anchor s ≡ ok s'
      → AllBacked x s'
  machine-AllBacked ds id to by at cause tier anchor s s' a h =
      let (e, m, w) = machine-Released x ds id to by at cause tier anchor s s' h in
      subst (AllBacked x) (sym w) (
        transition-AllBacked ds id e to at _ s
          (λ old k.
            gated _ old
              ((boundary_iff (rule_is_llm x e) id to (some (evidence tier anchor))).0 m.1.boundary)
              (row_releases ds id e old to by at cause tier s.entry_state_history k m.0))
          a)

  releases_ratified :
      (ds id by at : String) (e : RuleEntry x) (st : LifecycleStatus) (rows : List HistoryRow)
      → any (releases x e st) (update (pending_row ds id) (ratify_row by at) rows)
        ≡ any (releases x e st) rows
  releases_ratified ds id by at e st [] = refl
  releases_ratified ds id by at e st (r ∷ rows) =
      ground (arith, releases_ratified ds id by at e st rows)

  backed_ratified :
      (ds id by at : String) (e : RuleEntry x) (o : Option LifecycleStatus) (rows : List HistoryRow)
      → backed_option x (update (pending_row ds id) (ratify_row by at) rows) e o
        ≡ backed_option x rows e o
  backed_ratified ds id by at e none rows = refl
  backed_ratified ds id by at e (some draft) rows = refl
  backed_ratified ds id by at e (some rejected) rows = refl
  backed_ratified ds id by at e (some published) rows = refl
  backed_ratified ds id by at e (some candidate) rows =
      releases_ratified ds id by at e candidate rows
  backed_ratified ds id by at e (some active) rows = releases_ratified ds id by at e active rows

  pub ratify-AllBacked :
      (ds id by at : String) (s : Store x)
      → AllBacked x s
      → AllBacked x (ratify_post_review x ds id by at s).1
  unfolding ratify_post_review
  ratify-AllBacked ds id by at s a =
      All-map _ _ s.entries
        (λ e p. ground (arith, p, backed_ratified ds id by at e e.status s.entry_state_history)) a
