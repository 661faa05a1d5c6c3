-- ===== src/Quota/Tests.antt =====
-- Tests and instances of the quota.
use evorule_rule.Prelude.{◌≤◌, ◌<◌, ◌≡◌, refl, ◌↔◌, true, false, [], ◌∷◌, arith}
use evorule_rule.Quota.{Windows, set_window, evict, acquire}
use evorule_rule.Quota.Window.{Log, Served, opened, asked, granted, granted-bound, acquire_iff}

abbrev one_grant : Windows
one_grant = set_window "t" (5 ∷ []) (λ t. [])

first_granted : acquire 10 1 5 "t" (λ t. []) ≡ (true, one_grant)
unfolding acquire evict
first_granted = refl

second_refused : (acquire 10 1 15 "t" one_grant).0 ≡ false
unfolding acquire evict
second_refused = refl

abbrev one_logged : Log
one_logged = ("t", 5) ∷ []

one-Served : Served 10 1 5 one_logged one_grant
unfolding acquire evict
one-Served = asked 0 5 "t" [] (λ t. []) opened (omega arith)

granted-bound_example : granted 10 1 "t" 7 one_logged ≤ 1
granted-bound_example = granted-bound 10 1 (λ e. omega (arith, e)) one-Served "t" 7 (omega arith)

acquire_iff_example :
    ((acquire 10 1 15 "t" one_grant).0 ≡ true) ↔ (granted 10 1 "t" 15 one_logged < 1)
acquire_iff_example = acquire_iff 10 1 (λ e. omega (arith, e)) one-Served 15 "t" (omega arith)
