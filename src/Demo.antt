-- ===== src/Demo.antt =====
-- Data for the tests: the other crates by small functions, one dataset and one entry.
use evorule_rule.Prelude.{String, codes, false, true, [], ◌∷◌, none, some, ok, Option}
use evorule_rule.External.{Externals}
use evorule_rule.Model.Lifecycle.{LifecycleStatus, draft}
use evorule_rule.Model.Governance.{Governance, default_governance}
use evorule_rule.Model.Entry.{RuleEntry}
use evorule_rule.Model.Dataset.{RuleDataset, rule_set, private}
use evorule_rule.Store.State.{Codec}
use evorule_rule.Store.Reach.{default_lifecycle}

-- A JSON value is its text, a digest is the text, a version its name, and "bad" is damaged.
abbrev pub demo : Externals
demo = record {
  Json = String;
  to_text = codes;
  as_object = λ body. none;
  as_array = λ body. none;
  as_str = λ body. some (codes body);
  as_u64 = λ body. none;
  is_null = λ body. false;
  of_str = λ text. "text";
  of_array = λ items. "items";
  of_object = λ fields. "fields";
  digest = λ body. body;
  io_services_from_rule_body = λ body. "tax" ∷ [];
  has_dynamic_service_ref = λ body. false;
  DataDependencies = String;
  services = λ name. name ∷ [];
  deps_text = codes;
  SourceBinding = String;
  service_name = λ name. name;
  EventSchemaDecl = String;
  Provenance = String;
  ExecutionContract = String;
  pathway = λ c. c;
  consumer_allowlist = λ c. [];
  LawRef = String;
  VersionSelection = String;
  Versioning = String;
  current = λ v. v;
  validate_versioning = λ v. ok tt;
  bump = λ v kind. ok "2";
}

abbrev pub codec : Codec demo
codec = record {
  validate_entry = λ e services. ok tt;
  dataset_text = λ ds. codes ds.name;
  governance_text = λ g. [];
}

abbrev pub dataset : RuleDataset demo
dataset = record {
  dataset_id = "ds";
  name = "n";
  description = none;
  dataset_kind = rule_set;
  domain = [];
  tags = [];
  tenant_id = "t";
  visibility = private;
  lifecycle = default_lifecycle;
  versioning = "1";
  law_ref = none;
  version_selection = none;
  data_dependencies = some "tax";
  event_schemas = [];
  meta = record { created_at = "0"; created_by = "u"; updated_at = none; updated_by = none };
}

abbrev pub by_llm : Governance
by_llm = record default_governance {
  llm_generated = some (record { flag = true; model = none; op = none; timestamp = none });
}

abbrev pub entry_with : Option LifecycleStatus → Option Governance → RuleEntry demo
entry_with status governance = record {
  entry_id = "e";
  dataset_id = "ds";
  version = 1;
  status = status;
  provenance = "p";
  domain = "d";
  tags = [];
  data_source_binding = "tax" ∷ [];
  consumed_inputs = [];
  rule_body = "b";
  governance = governance;
}

-- A draft that a language model wrote.
abbrev pub llm_draft : RuleEntry demo
llm_draft = entry_with (some draft) (some by_llm)
