-- ===== src/Validate/Boundary/Reachability.antt =====
-- Which states the general transitions of a dataset can reach.
use evorule_rule.Prelude.{◌≡◌, refl, ◌≢◌, some, ok}
use evorule_rule.Model.Lifecycle.{LifecycleStatus, draft, candidate, active, published, rejected}
use evorule_rule.Validate.Boundary.{validate_transition, validate_publish}

-- A chain of accepted transitions.
pub data Reach (s : LifecycleStatus) : LifecycleStatus → Type 0 where
  here : Reach s s
  next :
      (t : LifecycleStatus) {u : LifecycleStatus}
      → Reach s t
      → validate_transition (some t) u ≡ ok tt
      → Reach s u

never_into_published : (t : LifecycleStatus) → validate_transition (some t) published ≡ ok tt → ⊥
unfolding validate_transition
never_into_published draft h = cc
never_into_published candidate h = cc
never_into_published active h = cc
never_into_published published h = cc
never_into_published rejected h = cc

-- No chain of general transitions publishes what was not published at its start.
pub Reach-ne-published : {s t : LifecycleStatus} → s ≢ published → Reach s t → t ≢ published
Reach-ne-published h here = h
Reach-ne-published h (next t r e) = λ p. never_into_published t (rw p at e)

-- Every state but the published one is reached from every state: a rejection is not final.
rejected_reaches : (t : LifecycleStatus) → t ≢ published → Reach rejected t
unfolding validate_transition
rejected_reaches draft h = next rejected here refl
rejected_reaches candidate h = next draft (next rejected here refl) refl
rejected_reaches active h = next candidate (next draft (next rejected here refl) refl) refl
rejected_reaches published h = absurd (h refl)
rejected_reaches rejected h = here

to_rejected : (s : LifecycleStatus) → Reach s rejected
unfolding validate_transition
to_rejected draft = next draft here refl
to_rejected candidate = next candidate here refl
to_rejected active = next active here refl
to_rejected published = next published here refl
to_rejected rejected = here

chain : {s t u : LifecycleStatus} → Reach s t → Reach t u → Reach s u
chain r here = r
chain r (next t q e) = next t (chain r q) e

-- From any state, published included, every unpublished state is reached again.
pub Reach-all : (s t : LifecycleStatus) → t ≢ published → Reach s t
Reach-all s t h = chain (to_rejected s) (rejected_reaches t h)

-- The publication check passes exactly at the active state.
pub publish_needs_active : (s : LifecycleStatus) → validate_publish (some s) ≡ ok tt → s ≡ active
unfolding validate_publish
publish_needs_active draft h = cc
publish_needs_active candidate h = cc
publish_needs_active active h = refl
publish_needs_active published h = cc
publish_needs_active rejected h = cc
