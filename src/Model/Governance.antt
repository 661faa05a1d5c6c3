-- ===== src/Model/Governance.antt =====
-- src/model/governance.rs: who wrote an entry, and whether a language model did.
use evorule_rule.Prelude.{String, Bool, false, Option, none, some}

pub record LlmGenerated : Type 0 where
  pub flag : Bool
  pub model : Option String
  pub op : Option String
  pub timestamp : Option String

pub record LifecycleTimestamps : Type 0 where
  pub drafted_at : Option String
  pub candidate_at : Option String
  pub active_at : Option String

pub record Governance : Type 0 where
  pub author : Option String
  pub updater : Option String
  pub llm_generated : Option LlmGenerated
  pub lifecycle_timestamps : Option LifecycleTimestamps

abbrev pub default_timestamps : LifecycleTimestamps
default_timestamps = record { drafted_at = none; candidate_at = none; active_at = none }

abbrev pub default_governance : Governance
default_governance = record {
  author = none;
  updater = none;
  llm_generated = none;
  lifecycle_timestamps = none;
}

abbrev flag_of : Option LlmGenerated → Bool
flag_of none = false
flag_of (some g) = g.flag

abbrev pub is_llm_generated : Governance → Bool
is_llm_generated g = flag_of g.llm_generated

-- `entry.governance.as_ref().map(|g| g.is_llm_generated()).unwrap_or(false)`.
abbrev pub governed_by_llm : Option Governance → Bool
governed_by_llm none = false
governed_by_llm (some g) = is_llm_generated g
