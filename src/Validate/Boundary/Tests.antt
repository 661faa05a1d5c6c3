-- ===== src/Validate/Boundary/Tests.antt =====
-- Tests and instances of the life-cycle rules.
use evorule_rule.Prelude.{◌≡◌, refl, ◌≢◌, ◌↔◌, true, some, ok, err}
use evorule_rule.Model.Lifecycle.{draft, candidate, active, published}
use evorule_rule.Validate.Error.{llm_generated_not_publishable}
use evorule_rule.Validate.Boundary.{
  MachineGateContext, validate_llm_boundary_gated, validate_transition,
}
use evorule_rule.Validate.Boundary.Evidence.{MayEnter, boundary_iff}
use evorule_rule.Validate.Boundary.Reachability.{Reach, here, next, Reach-ne-published, Reach-all}

abbrev t1 : MachineGateContext
t1 = record { tier = "T1"; checks_passed = true; state_change_id = "ds/e/v1/t" }

llm_publication_refused :
    validate_llm_boundary_gated true "e" published (some t1)
    ≡ err (llm_generated_not_publishable "e")
unfolding validate_llm_boundary_gated
llm_publication_refused = refl

boundary_iff_example :
    (validate_llm_boundary_gated true "e" active (some t1) ≡ ok tt) ↔ MayEnter true active (some t1)
boundary_iff_example = boundary_iff true "e" active (some t1)

two_steps : Reach draft active
unfolding validate_transition
two_steps = next candidate (next draft here refl) refl

Reach-ne-published_example : active ≢ published
Reach-ne-published_example = Reach-ne-published {s = draft} (λ e. cc) two_steps

Reach-all_example : Reach published candidate
Reach-all_example = Reach-all published candidate (λ e. cc)
