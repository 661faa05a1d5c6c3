-- ===== src/Validate/Boundary/Evidence.antt =====
-- What the language-model boundary lets through.
use evorule_rule.Prelude.{
  String, ◌≡◌, refl, ◌≢◌, ◌↔◌, ◌⊎◌, Bool, true, false, Option, none, some, ok, arith, eq_iff,
}
use evorule_rule.Model.Lifecycle.{LifecycleStatus, draft, candidate, active, published, rejected}
use evorule_rule.Validate.Boundary.{
  MachineGateContext, is_valid_machine_evidence, validate_llm_boundary_gated,
}

-- A machine tier with all checks passed.
pub record IsEvidence (g : MachineGateContext) : Type 0 where
  pub machine_tier : (g.tier ≡ "T0") ⊎ (g.tier ≡ "T1")
  pub passed : g.checks_passed ≡ true

-- When an entry may stand in a status: it is not written by a language model, or it goes no
-- further than a draft, or it is turned down, or the machine gate vouches for it short of
-- publication.
pub data MayEnter : Bool → LifecycleStatus → Option MachineGateContext → Type 0 where
  by_human : {s : LifecycleStatus} {g : Option MachineGateContext} → MayEnter false s g
  as_draft : {b : Bool} {g : Option MachineGateContext} → MayEnter b draft g
  turned_down : {b : Bool} {g : Option MachineGateContext} → MayEnter b rejected g
  vouched :
      {b : Bool} {s : LifecycleStatus} {c : MachineGateContext}
      → IsEvidence c
      → s ≢ published
      → MayEnter b s (some c)

IsEvidence-sound : (c : MachineGateContext) → is_valid_machine_evidence c ≡ true → IsEvidence c
unfolding is_valid_machine_evidence
IsEvidence-sound c h = ground (arith, eq_iff c.tier "T0", eq_iff c.tier "T1")

evidence_complete : (c : MachineGateContext) → IsEvidence c → is_valid_machine_evidence c ≡ true
unfolding is_valid_machine_evidence
evidence_complete c h = ground (arith, eq_iff c.tier "T0", eq_iff c.tier "T1")

boundary_sound :
    (b : Bool) (id : String) (s : LifecycleStatus) (g : Option MachineGateContext)
    → validate_llm_boundary_gated b id s g ≡ ok tt
    → MayEnter b s g
unfolding validate_llm_boundary_gated
boundary_sound false id s g h = by_human
boundary_sound true id draft g h = as_draft
boundary_sound true id rejected g h = turned_down
boundary_sound true id published g h = cc
boundary_sound true id candidate none h = cc
boundary_sound true id candidate (some c) h = vouched (IsEvidence-sound c (ground arith)) (λ e. cc)
boundary_sound true id active none h = cc
boundary_sound true id active (some c) h = vouched (IsEvidence-sound c (ground arith)) (λ e. cc)

boundary_complete :
    {b : Bool} (id : String) {s : LifecycleStatus} {g : Option MachineGateContext}
    → MayEnter b s g
    → validate_llm_boundary_gated b id s g ≡ ok tt
unfolding validate_llm_boundary_gated
boundary_complete id by_human = refl
boundary_complete {b} id as_draft = ground arith
boundary_complete {b} id turned_down = ground arith
boundary_complete {b} id (vouched {s = s} {c = c} e h) = ground (arith, evidence_complete c e)

-- The boundary check passes exactly when `MayEnter` holds: of an entry that a language model wrote,
-- only drafts and rejected ones pass without evidence of the machine gate, and none is published.
pub boundary_iff :
    (b : Bool) (id : String) (s : LifecycleStatus) (g : Option MachineGateContext)
    → (validate_llm_boundary_gated b id s g ≡ ok tt) ↔ MayEnter b s g
boundary_iff b id s g = (boundary_sound b id s g, boundary_complete id)
