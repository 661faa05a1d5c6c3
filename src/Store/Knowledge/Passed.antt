-- ===== src/Store/Knowledge/Passed.antt =====
-- What a transition of a knowledge entry has passed, and the row and audit row that the code writes.
use evorule_rule.Prelude.{
  String, ◌≡◌, refl, ap, ◌∙◌, inl, inr, true, ◌&&◌, Result, Option, none, some, ok, err, arith,
  Option-cases, unwrap_or, map_err, Bool-cases, str_eq, str_eq_refl, eq_iff, if◌then◌else◌,
}
use evorule_rule.External.{Externals}
use evorule_rule.Model.Lifecycle.{LifecycleStatus, active, status_eq}
use evorule_rule.Model.Entry.{KnowledgeEntry, knowledge_is_llm}
use evorule_rule.Validate.Error.{mcp_refused}
use evorule_rule.Validate.Boundary.{MachineGateContext, validate_llm_boundary_gated}
use evorule_rule.Validate.Mcp.{McpError}
use evorule_rule.Validate.Mcp.Servers.{mcp_servers_dataset_id, validate_mcp_server_payload}
use evorule_rule.Store.State.{Store, StoreError, validation}
use evorule_rule.Store.Query.{get_latest_knowledge_entry}
use evorule_rule.Store.Entries.{entry_legal, is_machine_tier}
use evorule_rule.Store.Entries.Transitions.{evidence}
use evorule_rule.Store.Knowledge.{
  activation_ok, knowledge_audit, write_knowledge_transition, transition_knowledge_entry_status,
  transition_knowledge_entry_status_machine,
}

module _ (x : Externals) where
  -- The latest version `e` of an entry may move to `to` on the evidence `gate`; in the list of MCP
  -- servers, an activation needs the whole approval.
  pub record MayMoveKnowledge (ds id : String) (to : LifecycleStatus)
      (gate : Option MachineGateContext) (s : Store x) (e : KnowledgeEntry x) : Type 0 where
    pub latest : get_latest_knowledge_entry x ds id s ≡ some e
    pub boundary : validate_llm_boundary_gated (knowledge_is_llm x e) id to gate ≡ ok tt
    pub is_legal : entry_legal (unwrap_or e.status active) to ≡ true
    pub approved :
        to ≡ active → ds ≡ mcp_servers_dataset_id → validate_mcp_server_payload x e.payload ≡ ok tt

  pub mapped-ok :
      (r : Result McpError (Unit {0}))
      → map_err {F = StoreError} validation (map_err mcp_refused r) ≡ ok tt
      → r ≡ ok tt
  mapped-ok (ok done) h = refl
  mapped-ok (err e) h = ground (arith, h)

  status_eq-active : (to : LifecycleStatus) → status_eq to active ≡ true → to ≡ active
  status_eq-active to h = ground (arith, h)

  pub activation_ok-approved :
      (ds : String) (to : LifecycleStatus) (payload : x.Json)
      → activation_ok x ds to payload ≡ ok tt
      → to ≡ active
      → ds ≡ mcp_servers_dataset_id
      → validate_mcp_server_payload x payload ≡ ok tt
  unfolding activation_ok
  activation_ok-approved ds to payload h a d = mapped-ok (validate_mcp_server_payload x payload) (
      ground (
        arith,
        h,
        ap (λ t. status_eq t active) a,
        ap (λ t. str_eq t mcp_servers_dataset_id) d ∙ str_eq_refl mcp_servers_dataset_id,
      ))

  pub approved-activation_ok :
      (ds : String) (to : LifecycleStatus) (payload : x.Json)
      → (to ≡ active → ds ≡ mcp_servers_dataset_id → validate_mcp_server_payload x payload ≡ ok tt)
      → activation_ok x ds to payload ≡ ok tt
  unfolding activation_ok
  approved-activation_ok ds to payload h =
      elim (Bool-cases (status_eq to active && str_eq ds mcp_servers_dataset_id)) [
        | inr e ↦ ground (arith, e)
        | inl e ↦
            let valid =
              h (status_eq-active to (ground (arith, e)))
                (ground (arith, e, eq_iff ds mcp_servers_dataset_id)) in
            ap
              (λ b.
                if b
                then map_err validation
                    (map_err mcp_refused (validate_mcp_server_payload x payload))
                else ok tt)
              e
            ∙ ap (λ r. map_err validation (map_err mcp_refused r)) valid
      ]

  pub human-MovedKnowledge :
      (ds id : String) (to : LifecycleStatus) (by at cause : String) (s s' : Store x)
      → transition_knowledge_entry_status x ds id to by at cause s ≡ ok s'
      → (e : KnowledgeEntry x) × MayMoveKnowledge ds id to none s e
        × (s'
            ≡ write_knowledge_transition x ds id e to at
                (knowledge_audit x ds id e to by at cause none)
                s)
  unfolding transition_knowledge_entry_status
  human-MovedKnowledge ds id to by at cause s s' h =
      elim (Option-cases (get_latest_knowledge_entry x ds id s)) [
        | inl n ↦ ground arith
        | inr (e, m) ↦ (
          e,
          record {
            latest = m;
            boundary = ground arith;
            is_legal = ground arith;
            approved = activation_ok-approved ds to e.payload (ground arith);
          },
          ground arith,
        )
      ]

  pub moved_human_knowledge :
      (ds id : String) (to : LifecycleStatus) (by at cause : String) (s : Store x)
      (e : KnowledgeEntry x)
      → MayMoveKnowledge ds id to none s e
      → transition_knowledge_entry_status x ds id to by at cause s
        ≡ ok (
            write_knowledge_transition x ds id e to at
              (knowledge_audit x ds id e to by at cause none)
              s)
  unfolding transition_knowledge_entry_status
  moved_human_knowledge ds id to by at cause s e m =
      ground
        (arith, m.latest, m.boundary, m.is_legal, approved-activation_ok ds to e.payload m.approved)

  -- The release of the machine gate, its tier included.
  abbrev pub ReleaseKnowledge :
      (ds id : String) (to : LifecycleStatus) (tier anchor : String)
      → Store x
      → KnowledgeEntry x
      → Type 0
  ReleaseKnowledge ds id to tier anchor s e =
      (is_machine_tier tier ≡ true) × MayMoveKnowledge ds id to (some (evidence tier anchor)) s e

  pub machine-ReleasedKnowledge :
      (ds id : String) (to : LifecycleStatus) (by at cause tier anchor : String) (s s' : Store x)
      → transition_knowledge_entry_status_machine x ds id to by at cause tier anchor s ≡ ok s'
      → (e : KnowledgeEntry x) × ReleaseKnowledge ds id to tier anchor s e
        × (s'
            ≡ write_knowledge_transition x ds id e to at
                (knowledge_audit x ds id e to by at cause (some tier))
                s)
  unfolding transition_knowledge_entry_status_machine
  machine-ReleasedKnowledge ds id to by at cause tier anchor s s' h =
      elim (Option-cases (get_latest_knowledge_entry x ds id s)) [
        | inl n ↦ ground arith
        | inr (e, m) ↦ (
          e,
          (
            ground arith,
            record {
              latest = m;
              boundary = ground arith;
              is_legal = ground arith;
              approved = activation_ok-approved ds to e.payload (ground arith);
            },
          ),
          ground arith,
        )
      ]

  pub released_machine_knowledge :
      (ds id : String) (to : LifecycleStatus) (by at cause tier anchor : String) (s : Store x)
      (e : KnowledgeEntry x)
      → ReleaseKnowledge ds id to tier anchor s e
      → transition_knowledge_entry_status_machine x ds id to by at cause tier anchor s
        ≡ ok (
            write_knowledge_transition x ds id e to at
              (knowledge_audit x ds id e to by at cause (some tier))
              s)
  unfolding transition_knowledge_entry_status_machine
  released_machine_knowledge ds id to by at cause tier anchor s e (t, m) = ground (
    arith,
    t,
    m.latest,
    m.boundary,
    m.is_legal,
    approved-activation_ok ds to e.payload m.approved,
  )
