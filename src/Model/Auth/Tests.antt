-- ===== src/Model/Auth/Tests.antt =====
-- Instances of the theorems on roles.
use evorule_rule.Prelude.{◌≡◌, refl, true}
use evorule_rule.Model.Auth.{approver, publish, can}

approver_publishes : can approver publish ≡ true
unfolding can
approver_publishes = refl
