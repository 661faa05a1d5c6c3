-- ===== src/Validate/Error.antt =====
-- `ValidationError` of src/validate/mod.rs.
use evorule_rule.Prelude.{String, List, Text}
use evorule_rule.Model.Lifecycle.{LifecycleStatus}
use evorule_rule.Validate.Mcp.{McpError}

pub data ValidationError : Type 0 where
  service_not_declared : (dataset service : String) → ValidationError
  service_not_in_rule_body : (service : String) → ValidationError
  llm_generated_not_draft : (entry : String) (status : LifecycleStatus) → ValidationError
  llm_generated_not_publishable : (entry : String) → ValidationError
  invalid_rule_body : ValidationError
  dynamic_ref_needs_declaration : (dataset : String) → ValidationError
  credential_scan_failed : (hits : List Text) → ValidationError
  message : (text : String) → ValidationError
  -- A `Message` that the validators of the MCP registries word.
  mcp_refused : McpError → ValidationError
