-- ===== src/Model/Auth/Ranks.antt =====
-- The names and the ranks of the roles.
use evorule_rule.Prelude.{◌≤◌, String, ◌≡◌, refl, ◌↔◌, sym, ap, ◌∙◌, true, some, arith, eq_iff}
use evorule_rule.Model.Auth.{
  Role, viewer, rule_engineer, approver, admin, platform_admin, Action, rank, as_str, parse, can,
}

parse-as_str : (r : Role) → parse (as_str r) ≡ some r
unfolding parse
parse-as_str viewer = refl
parse-as_str rule_engineer = refl
parse-as_str approver = refl
parse-as_str admin = refl
parse-as_str platform_admin = refl

as_str-parse : (s : String) (r : Role) → parse s ≡ some r → as_str r ≡ s
unfolding parse
as_str-parse s r h = ground (
  arith,
  eq_iff s "viewer",
  eq_iff s "rule_engineer",
  eq_iff s "approver",
  eq_iff s "admin",
  eq_iff s "platform_admin",
)

-- A text names a role exactly where it is that role's name: no other text is read as a role.
pub parse_iff : (s : String) (r : Role) → (parse s ≡ some r) ↔ (as_str r ≡ s)
parse_iff s r = (as_str-parse s r, λ e. ap parse (sym e) ∙ parse-as_str r)

-- Whatever a role may do, each role of a higher or equal rank may do.
pub can_mono : (r q : Role) (a : Action) → rank r ≤ rank q → can r a ≡ true → can q a ≡ true
unfolding can
can_mono r q a l h = ground arith
