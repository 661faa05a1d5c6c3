-- ===== src/Store/Entries/Transitions.antt =====
-- When an entry changes its status, by a human and by the machine gate, and what is written then.
use evorule_rule.Prelude.{
  String, ◌≡◌, sym, ap, ◌∙◌, ◌↔◌, inl, inr, true, Option, none, some, ok, arith, Option-cases,
  unwrap_or, update, [], ◌∷◌, ◌++◌,
}
use evorule_rule.External.{Externals}
use evorule_rule.Model.Lifecycle.{LifecycleStatus, active, rejected}
use evorule_rule.Model.Entry.{RuleEntry, rule_is_llm}
use evorule_rule.Validate.Boundary.{MachineGateContext, validate_llm_boundary_gated}
use evorule_rule.Store.State.{Store, rule_key}
use evorule_rule.Store.Query.{get_latest_entry}
use evorule_rule.Store.Query.Latest.{IsLatest, get_latest_entry-IsLatest}
use evorule_rule.Store.Moves.{
  IsMove, Actor, human, legal_move, move_legal, governed, row_of, tier_of, stamp-governed,
  columns-row_of, boundary-rejected, rejected-boundary, evidence-boundary, tier_actor, actor_tier,
}
use evorule_rule.Store.Entries.{
  entry_legal, is_machine_tier, audit_row, write_transition, transition_entry_status,
  transition_entry_status_machine,
}

abbrev pub evidence : (tier anchor : String) → MachineGateContext
evidence tier anchor = record { tier = tier; checks_passed = true; state_change_id = anchor }

module _ (x : Externals) where
  -- The latest version `e` of an entry may move to `to` on the evidence `gate`.
  pub record MayMove (ds id : String) (to : LifecycleStatus) (gate : Option MachineGateContext)
      (s : Store x) (e : RuleEntry x) : Type 0 where
    pub latest : get_latest_entry x ds id s ≡ some e
    pub boundary : validate_llm_boundary_gated (rule_is_llm x e) id to gate ≡ ok tt
    pub is_legal : entry_legal (unwrap_or e.status active) to ≡ true

  pub human-Moved :
      (ds id : String) (to : LifecycleStatus) (by at cause : String) (s s' : Store x)
      → transition_entry_status x ds id to by at cause s ≡ ok s'
      → (e : RuleEntry x) × MayMove ds id to none s e
        × (s'
            ≡ write_transition x ds id e to at
                (audit_row x ds id e (unwrap_or e.status active) to by at cause none)
                s)
  unfolding transition_entry_status
  human-Moved ds id to by at cause s s' h = elim (Option-cases (get_latest_entry x ds id s)) [
    | inl n ↦ ground arith
    | inr (e, m) ↦
        (e, record { latest = m; boundary = ground arith; is_legal = ground arith }, ground arith)
  ]

  moved_human :
      (ds id : String) (to : LifecycleStatus) (by at cause : String) (s : Store x) (e : RuleEntry x)
      → MayMove ds id to none s e
      → transition_entry_status x ds id to by at cause s
        ≡ ok (
            write_transition x ds id e to at
              (audit_row x ds id e (unwrap_or e.status active) to by at cause none)
              s)
  unfolding transition_entry_status
  moved_human ds id to by at cause s e m = ground (arith, m.latest, m.boundary, m.is_legal)

  -- The row of the entry at that version moved, and one audit row appended.
  abbrev pub moved :
      {from to : LifecycleStatus}
      → (ds id : String) → RuleEntry x
      → IsMove from to
      → (by at cause : String) → Actor
      → Store x
      → Store x
  moved {to = to} ds id e m by at cause actor s = record s {
    entries =
        update (rule_key x ds id e.version)
          (λ old. record old { status = some to; governance = some (governed m at e.governance) })
          s.entries;
    entry_state_history = s.entry_state_history ++ row_of ds id e.version m by at cause actor ∷ [];
  }

  write-moved :
      {from to : LifecycleStatus} (ds id : String) (e : RuleEntry x) (m : IsMove from to)
      (by at cause : String) (actor : Actor) (s : Store x)
      → write_transition x ds id e to at (audit_row x ds id e from to by at cause (tier_of actor)) s
        ≡ moved ds id e m by at cause actor s
  write-moved {to = to} ds id e m by at cause actor s =
      ap (λ row. write_transition x ds id e to at row s)
        (columns-row_of m ds id e.version by at cause actor)
      ∙ ap
          (λ g. record s {
            entries =
                update (rule_key x ds id e.version)
                  (λ old. record old { status = some to; governance = some g }) s.entries;
            entry_state_history =
                s.entry_state_history ++ row_of ds id e.version m by at cause actor ∷ [];
          })
          (stamp-governed m at e.governance)

  -- The entry that a transition reads: the row of the greatest version.
  pub record Found (ds id : String) (s : Store x) (e : RuleEntry x) : Type 0 where
    pub read : get_latest_entry x ds id s ≡ some e
    pub latest : IsLatest x ds id s e

  -- A human moves an entry exactly when there is a row of it, the status of the greatest version
  -- (active where it states none) and the new one are a legal move, and an entry that a language
  -- model wrote is only rejected. The rows of that version then carry the new status and its time
  -- stamp, and one audit row is appended, which names the two states and the actor and leaves the
  -- columns of the gate empty.
  pub transition_entry_status_iff :
      (ds id : String) (to : LifecycleStatus) (by at cause : String) (s s' : Store x)
      → (transition_entry_status x ds id to by at cause s ≡ ok s') ↔ (
          (e : RuleEntry x) × (m : IsMove (unwrap_or e.status active) to) × Found ds id s e
          × (rule_is_llm x e ≡ true → to ≡ rejected)
          × (s' ≡ moved ds id e m by at cause human s))
  transition_entry_status_iff ds id to by at cause s s' = (
    λ h.
        let (e, p, w) = human-Moved ds id to by at cause s s' h in
        let m = legal_move _ to p.is_legal in
        (
          e,
          m,
          record { read = p.latest; latest = get_latest_entry-IsLatest x ds id s e p.latest },
          boundary-rejected m (rule_is_llm x e) id p.boundary,
          w ∙ write-moved ds id e m by at cause human s,
        ),
    λ (e, m, f, l, w).
        moved_human ds id to by at cause s e (record {
          latest = f.read;
          boundary = rejected-boundary m (rule_is_llm x e) id l;
          is_legal = move_legal m;
        })
        ∙ ap ok (write-moved ds id e m by at cause human s ∙ sym w),
  )

  -- The release of the machine gate, its tier included.
  abbrev pub Release :
      (ds id : String) (to : LifecycleStatus) (tier anchor : String)
      → Store x
      → RuleEntry x
      → Type 0
  Release ds id to tier anchor s e =
      (is_machine_tier tier ≡ true) × MayMove ds id to (some (evidence tier anchor)) s e

  pub machine-Released :
      (ds id : String) (to : LifecycleStatus) (by at cause tier anchor : String) (s s' : Store x)
      → transition_entry_status_machine x ds id to by at cause tier anchor s ≡ ok s'
      → (e : RuleEntry x) × Release ds id to tier anchor s e
        × (s'
            ≡ write_transition x ds id e to at
                (audit_row x ds id e (unwrap_or e.status active) to by at cause (some tier))
                s)
  unfolding transition_entry_status_machine
  machine-Released ds id to by at cause tier anchor s s' h =
      elim (Option-cases (get_latest_entry x ds id s)) [
        | inl n ↦ ground arith
        | inr (e, m) ↦ (
          e,
          (ground arith, record { latest = m; boundary = ground arith; is_legal = ground arith }),
          ground arith,
        )
      ]

  released_machine :
      (ds id : String) (to : LifecycleStatus) (by at cause tier anchor : String) (s : Store x)
      (e : RuleEntry x)
      → Release ds id to tier anchor s e
      → transition_entry_status_machine x ds id to by at cause tier anchor s
        ≡ ok (
            write_transition x ds id e to at
              (audit_row x ds id e (unwrap_or e.status active) to by at cause (some tier))
              s)
  unfolding transition_entry_status_machine
  released_machine ds id to by at cause tier anchor s e (t, m) =
      ground (arith, t, m.latest, m.boundary, m.is_legal)

  -- The machine gate moves an entry exactly when its tier is T0 or T1, there is a row of the entry,
  -- and the status of the greatest version (active where it states none) and the new one are a legal
  -- move. The rows of that version then carry the new status and its time stamp, and one audit row
  -- is appended, which names the two states, the gate and the tier, and asks for a review exactly in
  -- T1.
  pub transition_entry_status_machine_iff :
      (ds id : String) (to : LifecycleStatus) (by at cause tier anchor : String) (s s' : Store x)
      → (transition_entry_status_machine x ds id to by at cause tier anchor s ≡ ok s') ↔ (
          (actor : Actor) × (e : RuleEntry x) × (m : IsMove (unwrap_or e.status active) to)
          × (tier_of actor ≡ some tier)
          × Found ds id s e
          × (s' ≡ moved ds id e m by at cause actor s))
  transition_entry_status_machine_iff ds id to by at cause tier anchor s s' = (
    λ h.
        let (e, (t, p), w) = machine-Released ds id to by at cause tier anchor s s' h in
        let m = legal_move _ to p.is_legal in
        let (actor, n) = tier_actor tier t in
        (
          actor,
          e,
          m,
          n,
          record { read = p.latest; latest = get_latest_entry-IsLatest x ds id s e p.latest },
          w
              ∙ ap
                  (λ t.
                    write_transition x ds id e to at
                      (audit_row x ds id e (unwrap_or e.status active) to by at cause t) s)
                  (sym n)
              ∙ write-moved ds id e m by at cause actor s,
        ),
    λ (actor, e, m, n, f, w).
        let t = actor_tier actor tier n in
        released_machine ds id to by at cause tier anchor s e (
          t,
          record {
            latest = f.read;
            boundary = evidence-boundary m (rule_is_llm x e) id tier anchor t;
            is_legal = move_legal m;
          },
        )
        ∙ ap ok (
            ap
              (λ t.
                write_transition x ds id e to at
                  (audit_row x ds id e (unwrap_or e.status active) to by at cause t) s)
              (sym n)
            ∙ write-moved ds id e m by at cause actor s
            ∙ sym w),
  )
