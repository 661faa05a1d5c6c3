-- ===== src/Model/Lifecycle.antt =====
-- src/model/lifecycle.rs: the five states and the audit record of a change of state.
use evorule_rule.Prelude.{String, List, Bool, true, false, Option, none}

pub data LifecycleStatus : Type 0 where
  draft candidate active published rejected : LifecycleStatus

-- The derived `PartialEq`.
abbrev pub status_eq : LifecycleStatus → LifecycleStatus → Bool
status_eq draft draft = true
status_eq candidate candidate = true
status_eq active active = true
status_eq published published = true
status_eq rejected rejected = true
status_eq _ _ = false

-- The derived `Debug`, by which the audit rows name a state.
abbrev pub debug : LifecycleStatus → String
debug draft = "Draft"
debug candidate = "Candidate"
debug active = "Active"
debug published = "Published"
debug rejected = "Rejected"

pub record StateChange : Type 0 where
  pub from : String
  pub to : String
  pub at : String
  pub by : String
  pub cause : String
  pub published_as : Option String
  pub gate : Option String
  pub tier : Option String
  pub post_review_required : Option Bool
  pub ratified_by : Option String
  pub ratified_at : Option String

pub record Lifecycle : Type 0 where
  pub status : LifecycleStatus
  pub state_history : List StateChange

-- A change by a human: every column of the machine gate is empty.
abbrev pub state_change :
    LifecycleStatus → LifecycleStatus → String → String → String → Option String → StateChange
state_change from to at by cause published_as = record {
  from = debug from;
  to = debug to;
  at = at;
  by = by;
  cause = cause;
  published_as = published_as;
  gate = none;
  tier = none;
  post_review_required = none;
  ratified_by = none;
  ratified_at = none;
}
