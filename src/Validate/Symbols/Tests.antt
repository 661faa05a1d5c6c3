-- ===== src/Validate/Symbols/Tests.antt =====
-- Tests of the check of the services.
use evorule_rule.Prelude.{[], ◌∷◌, ok, ◌≡◌, refl, none, err}
use evorule_rule.Demo.{demo, dataset, llm_draft}
use evorule_rule.Validate.Error.{service_not_declared}
use evorule_rule.Validate.Symbols.{validate_symbol_consistency}

undeclared_refused :
    validate_symbol_consistency demo (record dataset { data_dependencies = none }) llm_draft
    ≡ err (service_not_declared "ds" "tax")
unfolding validate_symbol_consistency
undeclared_refused = refl

-- A body that calls a service which nobody declares or binds passes where there is no binding.
unbound_passes :
    validate_symbol_consistency demo
      (record dataset { data_dependencies = none })
      (record llm_draft { data_source_binding = [] })
    ≡ ok tt
unfolding validate_symbol_consistency
unbound_passes = refl

unbound_calls : demo.io_services_from_rule_body "b" ≡ "tax" ∷ []
unbound_calls = refl
