-- ===== src/Store/Knowledge/Transitions.antt =====
-- When a knowledge entry changes its status, by a human and by the machine gate, and what is
-- written then.
use evorule_rule.Prelude.{
  update, [], ◌∷◌, ◌++◌, sym, String, ◌≡◌, ap, ◌∙◌, ◌↔◌, true, some, ok, unwrap_or,
}
use evorule_rule.External.{Externals}
use evorule_rule.Model.Lifecycle.{LifecycleStatus, active, rejected}
use evorule_rule.Model.Entry.{KnowledgeEntry, knowledge_is_llm}
use evorule_rule.Validate.Mcp.Servers.{mcp_servers_dataset_id, validate_mcp_server_payload}
use evorule_rule.Store.State.{Store, knowledge_key}
use evorule_rule.Store.Query.{get_latest_knowledge_entry}
use evorule_rule.Store.Query.Latest.{IsLatestKnowledge, get_latest_knowledge_entry-IsLatest}
use evorule_rule.Store.Moves.{
  IsMove, Actor, human, legal_move, move_legal, governed, row_of, tier_of, stamp-governed,
  columns-row_of, boundary-rejected, rejected-boundary, evidence-boundary, tier_actor, actor_tier,
}
use evorule_rule.Store.Knowledge.{
  knowledge_audit, write_knowledge_transition, transition_knowledge_entry_status,
  transition_knowledge_entry_status_machine,
}
use evorule_rule.Store.Knowledge.Passed.{
  human-MovedKnowledge, moved_human_knowledge, machine-ReleasedKnowledge,
  released_machine_knowledge,
}

module _ (x : Externals) where
  -- The row written is that of a rule entry's move.
  knowledge_audit-row_of :
      (ds id : String) (e : KnowledgeEntry x) (to : LifecycleStatus)
      (m : IsMove (unwrap_or e.status active) to) (by at cause : String) (actor : Actor)
      → knowledge_audit x ds id e to by at cause (tier_of actor)
        ≡ row_of ds id e.version m by at cause actor
  knowledge_audit-row_of ds id e to m by at cause actor =
      columns-row_of m ds id e.version by at cause actor

  -- The row of the entry at that version moved, and one audit row appended.
  abbrev pub moved_knowledge :
      {from to : LifecycleStatus}
      → (ds id : String) → KnowledgeEntry x
      → IsMove from to
      → (by at cause : String) → Actor
      → Store x
      → Store x
  moved_knowledge {to = to} ds id e m by at cause actor s = record s {
    knowledge_entries =
        update (knowledge_key x ds id e.version)
          (λ old. record old { status = some to; governance = some (governed m at e.governance) })
          s.knowledge_entries;
    knowledge_state_history =
        s.knowledge_state_history ++ row_of ds id e.version m by at cause actor ∷ [];
  }

  write_knowledge-moved :
      {to : LifecycleStatus} (ds id : String) (e : KnowledgeEntry x)
      (m : IsMove (unwrap_or e.status active) to) (by at cause : String) (actor : Actor)
      (s : Store x)
      → write_knowledge_transition x ds id e to at
          (knowledge_audit x ds id e to by at cause (tier_of actor))
          s
        ≡ moved_knowledge ds id e m by at cause actor s
  write_knowledge-moved {to = to} ds id e m by at cause actor s =
      ap (λ row. write_knowledge_transition x ds id e to at row s)
        (knowledge_audit-row_of ds id e to m by at cause actor)
      ∙ ap
          (λ g. record s {
            knowledge_entries =
                update (knowledge_key x ds id e.version)
                  (λ old. record old { status = some to; governance = some g }) s.knowledge_entries;
            knowledge_state_history =
                s.knowledge_state_history ++ row_of ds id e.version m by at cause actor ∷ [];
          })
          (stamp-governed m at e.governance)

  -- The entry that a transition reads: the row of the greatest version.
  pub record FoundKnowledge (ds id : String) (s : Store x) (e : KnowledgeEntry x) : Type 0 where
    pub read : get_latest_knowledge_entry x ds id s ≡ some e
    pub latest : IsLatestKnowledge x ds id s e

  -- A human moves a knowledge entry exactly when there is a row of it, the status of the greatest
  -- version (active where it states none) and the new one are a legal move, an entry that a language
  -- model wrote is only rejected, and an activation in the list of MCP servers has a whole approval.
  -- The rows of that version then carry the new status and its time stamp, and one audit row is
  -- appended, which names the two states and the actor and leaves the columns of the gate empty.
  pub transition_knowledge_entry_status_iff :
      (ds id : String) (to : LifecycleStatus) (by at cause : String) (s s' : Store x)
      → (transition_knowledge_entry_status x ds id to by at cause s ≡ ok s') ↔ (
          (e : KnowledgeEntry x) × (m : IsMove (unwrap_or e.status active) to) × FoundKnowledge ds
            id s e
          × (knowledge_is_llm x e ≡ true → to ≡ rejected)
          × (to ≡ active
              → ds ≡ mcp_servers_dataset_id
              → validate_mcp_server_payload x e.payload ≡ ok tt)
          × (s' ≡ moved_knowledge ds id e m by at cause human s))
  transition_knowledge_entry_status_iff ds id to by at cause s s' = (
    λ h.
        let (e, p, w) = human-MovedKnowledge x ds id to by at cause s s' h in
        let m = legal_move _ to p.is_legal in
        (
          e,
          m,
          record {
            read = p.latest;
            latest = get_latest_knowledge_entry-IsLatest x ds id s e p.latest;
          },
          boundary-rejected m (knowledge_is_llm x e) id p.boundary,
          p.approved,
          w ∙ write_knowledge-moved ds id e m by at cause human s,
        ),
    λ (e, m, f, l, v, w).
        moved_human_knowledge x ds id to by at cause s e (record {
          latest = f.read;
          boundary = rejected-boundary m (knowledge_is_llm x e) id l;
          is_legal = move_legal m;
          approved = v;
        })
        ∙ ap ok (write_knowledge-moved ds id e m by at cause human s ∙ sym w),
  )

  -- The machine gate moves a knowledge entry exactly when its tier is T0 or T1, there is a row of the
  -- entry, the status of the greatest version (active where it states none) and the new one are a
  -- legal move, and an activation in the list of MCP servers has a whole approval. The rows of that
  -- version then carry the new status and its time stamp, and one audit row is appended, which names
  -- the two states, the gate and the tier, and asks for a review exactly in T1.
  pub transition_knowledge_entry_status_machine_iff :
      (ds id : String) (to : LifecycleStatus) (by at cause tier anchor : String) (s s' : Store x)
      → (transition_knowledge_entry_status_machine x ds id to by at cause tier anchor s ≡ ok s') ↔ (
          (actor : Actor) × (e : KnowledgeEntry x) × (m : IsMove (unwrap_or e.status active) to)
          × (tier_of actor ≡ some tier)
          × FoundKnowledge ds id s e
          × (to ≡ active
              → ds ≡ mcp_servers_dataset_id
              → validate_mcp_server_payload x e.payload ≡ ok tt)
          × (s' ≡ moved_knowledge ds id e m by at cause actor s))
  transition_knowledge_entry_status_machine_iff ds id to by at cause tier anchor s s' = (
    λ h.
        let (e, (t, p), w) = machine-ReleasedKnowledge x ds id to by at cause tier anchor s s' h in
        let m = legal_move _ to p.is_legal in
        let (actor, n) = tier_actor tier t in
        (
          actor,
          e,
          m,
          n,
          record {
            read = p.latest;
            latest = get_latest_knowledge_entry-IsLatest x ds id s e p.latest;
          },
          p.approved,
          w
              ∙ ap
                  (λ t.
                    write_knowledge_transition x ds id e to at
                      (knowledge_audit x ds id e to by at cause t) s)
                  (sym n)
              ∙ write_knowledge-moved ds id e m by at cause actor s,
        ),
    λ (actor, e, m, n, f, v, w).
        let t = actor_tier actor tier n in
        released_machine_knowledge x ds id to by at cause tier anchor s e (
          t,
          record {
            latest = f.read;
            boundary = evidence-boundary m (knowledge_is_llm x e) id tier anchor t;
            is_legal = move_legal m;
            approved = v;
          },
        )
        ∙ ap ok (
            ap
              (λ t.
                write_knowledge_transition x ds id e to at
                  (knowledge_audit x ds id e to by at cause t) s)
              (sym n)
            ∙ write_knowledge-moved ds id e m by at cause actor s
            ∙ sym w),
  )
