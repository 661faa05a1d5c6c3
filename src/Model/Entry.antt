-- ===== src/Model/Entry.antt =====
-- src/model/entry.rs and src/model/knowledge.rs: the two kinds of entries.
use evorule_rule.Prelude.{ℕ, String, Bool, true, false, Option, List, unwrap_or}
use evorule_rule.External.{Externals}
use evorule_rule.Model.Lifecycle.{LifecycleStatus, active, published}
use evorule_rule.Model.Governance.{Governance, governed_by_llm}

pub record RuleEntry (x : Externals) : Type 0 where
  pub entry_id : String
  pub dataset_id : String
  pub version : ℕ
  pub status : Option LifecycleStatus
  pub provenance : x.Provenance
  pub domain : String
  pub tags : List String
  pub data_source_binding : List x.SourceBinding
  pub consumed_inputs : List String
  pub rule_body : x.Json
  pub governance : Option Governance

pub record KnowledgeEntry (x : Externals) : Type 0 where
  pub entry_id : String
  pub dataset_id : String
  pub version : ℕ
  pub status : Option LifecycleStatus
  pub provenance : x.Provenance
  pub domain : String
  pub tags : List String
  pub payload : x.Json
  pub schema_ref : String
  pub governance : Option Governance
  pub knowledge_kind : Option String
  pub trust_level : Option String
  pub license_ref : Option String
  pub execution_contract : Option x.ExecutionContract

-- `matches!(status, Active | Published)`.
abbrev pub is_frozen_status : LifecycleStatus → Bool
is_frozen_status active = true
is_frozen_status published = true
is_frozen_status _ = false

-- `is_frozen`: an entry that states no status counts as active.
abbrev pub is_frozen : Option LifecycleStatus → Bool
is_frozen status = is_frozen_status (unwrap_or status active)

module _ (x : Externals) where
  abbrev pub rule_content_hash : RuleEntry x → String
  rule_content_hash e = x.digest e.rule_body

  abbrev pub knowledge_content_hash : KnowledgeEntry x → String
  knowledge_content_hash e = x.digest e.payload

  abbrev pub rule_is_llm : RuleEntry x → Bool
  rule_is_llm e = governed_by_llm e.governance

  abbrev pub knowledge_is_llm : KnowledgeEntry x → Bool
  knowledge_is_llm e = governed_by_llm e.governance
