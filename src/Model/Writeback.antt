-- ===== src/Model/Writeback.antt =====
-- src/model/writeback.rs: failures that the execution side sends back, and their classes.
use evorule_rule.Prelude.{String, Bool, Option, none, some, List, str_eq, if◌then◌else◌, ◌||◌}
use evorule_rule.External.{Externals}

pub record ExecutionCtx : Type 0 where
  pub event_date : Option String
  pub fact_ids : List String

pub record FailureDetail (x : Externals) : Type 0 where
  pub type : String
  pub detail : Option String
  pub observed : Option x.Json
  pub expected : Option x.Json

pub record RuleFailureEvent (x : Externals) : Type 0 where
  pub event_type : String
  pub tenant_id : String
  pub dataset_id : String
  pub version_used : String
  pub entry_id : String
  pub occurred_at : String
  pub execution_ctx : Option ExecutionCtx
  pub failure : Option (FailureDetail x)

pub data FailureClass : Type 0 where
  granule interface drift capability_gap : FailureClass

abbrev pub as_str : FailureClass → String
as_str granule = "granule"
as_str interface = "interface"
as_str drift = "drift"
as_str capability_gap = "capability_gap"

abbrev classify : String → FailureClass
classify t =
    if str_eq t "capability_gap"
    then capability_gap
    else if str_eq t "enforce_violation"
    then interface
    else if str_eq t "verdict_mismatch"
    then drift
    else if str_eq t "timeout" || str_eq t "exception"
    then granule
    else granule

unfoldable pub classify_failure : Option String → FailureClass
classify_failure none = granule
classify_failure (some t) = classify t

-- `validate_event`, as the test that it makes.
abbrev pub is_rule_failure : {x : Externals} → RuleFailureEvent x → Bool
is_rule_failure event = str_eq event.event_type "rule_failure"
