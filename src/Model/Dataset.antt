-- ===== src/Model/Dataset.antt =====
-- src/model/dataset.rs: the unit of governance and of publication.
use evorule_rule.Prelude.{
  String, Bool, true, false, Option, none, some, List, str_eq, if◌then◌else◌,
}
use evorule_rule.External.{Externals}
use evorule_rule.Model.Lifecycle.{Lifecycle}

pub data DatasetKind : Type 0 where
  rule_set knowledge law_set : DatasetKind

abbrev pub as_str : DatasetKind → String
as_str rule_set = "rule_set"
as_str knowledge = "knowledge"
as_str law_set = "law_set"

unfoldable pub parse : String → Option DatasetKind
parse s =
    if str_eq s "rule_set"
    then some rule_set
    else if str_eq s "knowledge"
    then some knowledge
    else if str_eq s "law_set"
    then some law_set
    else none

abbrev pub is_rule_set : DatasetKind → Bool
is_rule_set rule_set = true
is_rule_set _ = false

abbrev pub is_law_set : DatasetKind → Bool
is_law_set law_set = true
is_law_set _ = false

pub data Visibility : Type 0 where
  private public : Visibility

abbrev pub is_public : Visibility → Bool
is_public public = true
is_public private = false

pub record Meta : Type 0 where
  pub created_at : String
  pub created_by : String
  pub updated_at : Option String
  pub updated_by : Option String

pub record RuleDataset (x : Externals) : Type 0 where
  pub dataset_id : String
  pub name : String
  pub description : Option String
  pub dataset_kind : DatasetKind
  pub domain : List String
  pub tags : List String
  pub tenant_id : String
  pub visibility : Visibility
  pub lifecycle : Lifecycle
  pub versioning : x.Versioning
  pub law_ref : Option x.LawRef
  pub version_selection : Option x.VersionSelection
  pub data_dependencies : Option x.DataDependencies
  pub event_schemas : List x.EventSchemaDecl
  pub meta : Meta
