-- ===== src/Validate/Boundary.antt =====
-- The life-cycle rules of src/validate/mod.rs: the language-model boundary with its machine-gate
-- context, and the legal transitions of a dataset.
pub mod Evidence
pub mod Reachability
mod Tests
use evorule_rule.Prelude.{
  String, Bool, true, false, not, ◌&&◌, ◌||◌, Option, none, some, Result, ok, err, str_eq,
  unwrap_or, if◌then◌else◌,
}
use evorule_rule.External.{Externals}
use evorule_rule.Model.Lifecycle.{
  LifecycleStatus, status_eq, draft, candidate, active, published, rejected,
}
use evorule_rule.Model.Entry.{RuleEntry, rule_is_llm}
use evorule_rule.Validate.Error.{
  ValidationError, llm_generated_not_draft, llm_generated_not_publishable,
}

pub record MachineGateContext : Type 0 where
  pub tier : String
  pub checks_passed : Bool
  pub state_change_id : String

unfoldable pub is_valid_machine_evidence : MachineGateContext → Bool
is_valid_machine_evidence g = (str_eq g.tier "T0" || str_eq g.tier "T1") && g.checks_passed

-- `gate.map(|g| g.is_valid_machine_evidence()).unwrap_or(false)`.
machine_allowed : Option MachineGateContext → Bool
unfolding is_valid_machine_evidence
machine_allowed none = false
machine_allowed (some g) = is_valid_machine_evidence g

unfoldable pub validate_llm_boundary_gated :
    Bool → String → LifecycleStatus → Option MachineGateContext → Result ValidationError (Unit {0})
unfolding machine_allowed
validate_llm_boundary_gated is_llm entry_id status gate =
    if not is_llm
    then ok tt
    else if status_eq status published
    then err (llm_generated_not_publishable entry_id)
    else if machine_allowed gate || status_eq status draft || status_eq status rejected
    then ok tt
    else err (llm_generated_not_draft entry_id status)

-- The wrapper for a rule entry: no gate, and an entry that states no status counts as a draft.
unfoldable pub validate_llm_boundary :
    (x : Externals) → RuleEntry x → Result ValidationError (Unit {0})
unfolding validate_llm_boundary_gated
validate_llm_boundary x entry =
    validate_llm_boundary_gated (rule_is_llm x entry) entry.entry_id (unwrap_or entry.status draft)
      none

-- The table of `validate_transition`.
abbrev pub legal : LifecycleStatus → LifecycleStatus → Bool
legal draft candidate = true
legal candidate active = true
legal active rejected = true
legal candidate rejected = true
legal draft rejected = true
legal published rejected = true
legal rejected draft = true
legal _ _ = false

abbrev pub Refused : Type 0
Refused = Option LifecycleStatus × LifecycleStatus

unfoldable pub validate_transition :
    Option LifecycleStatus → LifecycleStatus → Result Refused (Unit {0})
validate_transition from to =
    let from' = unwrap_or from draft in if legal from' to then ok tt else err (some from', to)

unfoldable pub validate_publish : Option LifecycleStatus → Result Refused (Unit {0})
validate_publish (some active) = ok tt
validate_publish f = err (f, published)
