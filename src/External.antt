-- ===== src/External.antt =====
-- What the program takes from other crates: `serde_json`, `evorule-hash` and `evorule-bundle`.
-- Every definition that depends on them takes a value of this record.
use evorule_rule.Prelude.{ℕ, String, Text, Bool, List, Result, Option}

pub data BumpKind : Type 0 where
  major patch : BumpKind

pub record Externals : Type 1 where
  -- `serde_json::Value`, and `serde_json::to_string` of one.
  pub Json : Type 0
  pub to_text : Json → Text
  -- `as_object`, `as_array` and `as_str`; an object is its fields.
  pub as_object : Json → Option (List (Text × Json))
  pub as_array : Json → Option (List Json)
  pub as_str : Json → Option Text
  pub as_u64 : Json → Option ℕ
  pub is_null : Json → Bool
  -- `Value::String`, `Value::Array` and `Value::Object`.
  pub of_str : Text → Json
  pub of_array : List Json → Json
  pub of_object : List (Text × Json) → Json
  -- `evorule_hash::prefixed(&evorule_hash::json_digest(v))`.
  pub digest : Json → String
  -- `evorule_bundle::symbols`.
  pub io_services_from_rule_body : Json → List String
  pub has_dynamic_service_ref : Json → Bool
  -- `evorule_bundle::dependency`: the names under `services`, and the service of a binding.
  pub DataDependencies : Type 0
  pub services : DataDependencies → List String
  pub deps_text : DataDependencies → Text
  pub SourceBinding : Type 0
  pub service_name : SourceBinding → String
  pub EventSchemaDecl : Type 0
  -- `evorule_bundle::provenance` and `evorule_bundle::ExecutionContract`.
  pub Provenance : Type 0
  pub ExecutionContract : Type 0
  pub pathway : ExecutionContract → String
  pub consumer_allowlist : ExecutionContract → List String
  -- `evorule_bundle::version`; an error is carried as its rendered text.
  pub LawRef : Type 0
  pub VersionSelection : Type 0
  pub Versioning : Type 0
  pub current : Versioning → String
  pub validate_versioning : Versioning → Result String (Unit {0})
  pub bump : Versioning → BumpKind → Result String Versioning
