-- ===== src/Validate/Law/Tests.antt =====
-- Tests and instances of the formula check.
use evorule_rule.Prelude.{◌≡◌, refl, ◌↔◌, codes, ok, err}
use evorule_rule.Chars.{trim}
use evorule_rule.Validate.Law.{many_separators, bare_equals, validate_law_formula}
use evorule_rule.Validate.Law.Formula.{IsEquation, validate_law_formula_iff}

double_accepted : validate_law_formula (codes "F == m*a") ≡ ok tt
unfolding validate_law_formula trim
double_accepted = refl

triple_refused : validate_law_formula (codes "F === m") ≡ err many_separators
unfolding validate_law_formula trim
triple_refused = refl

bare_refused : validate_law_formula (codes "F*m =  ") ≡ err bare_equals
unfolding validate_law_formula trim
bare_refused = refl

validate_law_formula_iff_example :
    (validate_law_formula (codes "F == m*a") ≡ ok tt) ↔ IsEquation (codes "F == m*a")
validate_law_formula_iff_example = validate_law_formula_iff (codes "F == m*a")
