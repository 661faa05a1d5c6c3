-- ===== src/Validate/Symbols.antt =====
-- `validate_symbol_consistency` of src/validate/mod.rs: the services of a rule body, of its
-- bindings and of the dataset agree.
pub mod Agreement
mod Tests
use evorule_rule.Prelude.{
  String, Bool, true, false, not, ◌&&◌, Option, none, some, List, [], ◌∷◌, Result, ok, err, ◌>>=◌,
  ◌>>◌, guard, any, is_empty, str_eq,
}
use evorule_rule.External.{Externals}
use evorule_rule.Model.Entry.{RuleEntry}
use evorule_rule.Model.Dataset.{RuleDataset}
use evorule_rule.Validate.Error.{
  ValidationError, service_not_declared, service_not_in_rule_body, dynamic_ref_needs_declaration,
}

abbrev pub mentions : String → List String → Bool
mentions name = any (λ s. str_eq s name)

module _ (x : Externals) where
  open x use {SourceBinding, DataDependencies, services, service_name}

  abbrev services_of : Option DataDependencies → List String
  services_of none = []
  services_of (some d) = services d

  -- `data_dependencies.map(|d| d.services).unwrap_or_default()`.
  abbrev pub declared_services : RuleDataset x → List String
  declared_services ds = services_of ds.data_dependencies

  -- The loop over the bindings, which stops at the first that disagrees.
  abbrev pub check_bindings :
      String → List String → List String → List SourceBinding → Result ValidationError (Unit {0})
  check_bindings dataset declared body [] = ok tt
  check_bindings dataset declared body (b ∷ bs) = do
    guard (mentions (service_name b) declared) (service_not_declared dataset (service_name b))
    guard (mentions (service_name b) body) (service_not_in_rule_body (service_name b))
    check_bindings dataset declared body bs

  unfoldable pub validate_symbol_consistency :
      RuleDataset x → RuleEntry x → Result ValidationError (Unit {0})
  validate_symbol_consistency ds e = do
    guard (not (x.has_dynamic_service_ref e.rule_body && is_empty (declared_services ds)))
        (dynamic_ref_needs_declaration ds.dataset_id)
    check_bindings ds.dataset_id (declared_services ds) (x.io_services_from_rule_body e.rule_body)
        e.data_source_binding
