-- ===== src/Store/Moves.antt =====
-- What a change of an entry's status leaves behind, described apart from the operations of
-- src/store/mod.rs: the four moves, the time stamps after each, and the audit row of each actor.
use evorule_rule.Prelude.{
  ℕ, String, ◌≡◌, refl, ap, sym, ok, str_eq, Bool-cases, inl, inr, Bool, true, false, Option, none,
  some, arith, eq_iff, unwrap_or,
}
use evorule_rule.Model.Lifecycle.{
  LifecycleStatus, draft, candidate, active, published, rejected, debug,
}
use evorule_rule.Model.Governance.{Governance, LifecycleTimestamps, default_timestamps}
use evorule_rule.Validate.Boundary.{validate_llm_boundary_gated, is_valid_machine_evidence}
use evorule_rule.Store.State.{HistoryRow}
use evorule_rule.Store.Entries.{entry_legal, stamp, stamp_time, is_machine_tier}

pub data IsMove : LifecycleStatus → LifecycleStatus → Type 0 where
  proposed : IsMove draft candidate
  activated : IsMove candidate active
  declined : IsMove candidate rejected
  dropped : IsMove draft rejected

pub legal_move : (from to : LifecycleStatus) → entry_legal from to ≡ true → IsMove from to
legal_move draft draft h = cc
legal_move draft candidate h = proposed
legal_move draft active h = cc
legal_move draft published h = cc
legal_move draft rejected h = dropped
legal_move candidate draft h = cc
legal_move candidate candidate h = cc
legal_move candidate active h = activated
legal_move candidate published h = cc
legal_move candidate rejected h = declined
legal_move active draft h = cc
legal_move active candidate h = cc
legal_move active active h = cc
legal_move active published h = cc
legal_move active rejected h = cc
legal_move published draft h = cc
legal_move published candidate h = cc
legal_move published active h = cc
legal_move published published h = cc
legal_move published rejected h = cc
legal_move rejected draft h = cc
legal_move rejected candidate h = cc
legal_move rejected active h = cc
legal_move rejected published h = cc
legal_move rejected rejected h = cc

pub move_legal : {from to : LifecycleStatus} → IsMove from to → entry_legal from to ≡ true
move_legal proposed = refl
move_legal activated = refl
move_legal declined = refl
move_legal dropped = refl

-- The first two moves are stamped with their time.
abbrev pub stamps :
    {from to : LifecycleStatus}
    → IsMove from to
    → String
    → (drafted candidate active : Option String) → LifecycleTimestamps
stamps proposed at drafted was_candidate was_active = record {
  drafted_at = drafted;
  candidate_at = some at;
  active_at = was_active;
}
stamps activated at drafted was_candidate was_active = record {
  drafted_at = drafted;
  candidate_at = was_candidate;
  active_at = some at;
}
stamps declined at drafted was_candidate was_active = record {
  drafted_at = drafted;
  candidate_at = was_candidate;
  active_at = was_active;
}
stamps dropped at drafted was_candidate was_active = record {
  drafted_at = drafted;
  candidate_at = was_candidate;
  active_at = was_active;
}

abbrev pub stamps_after :
    {from to : LifecycleStatus}
    → IsMove from to
    → String
    → Option LifecycleTimestamps
    → LifecycleTimestamps
stamps_after m at none = stamps m at none none none
stamps_after m at (some ts) = stamps m at ts.drafted_at ts.candidate_at ts.active_at

-- The governance after a move: who wrote the entry stays.
abbrev pub governed :
    {from to : LifecycleStatus} → IsMove from to → String → Option Governance → Governance
governed m at none = record {
  author = none;
  updater = none;
  llm_generated = none;
  lifecycle_timestamps = some (stamps_after m at none);
}
governed m at (some g) = record {
  author = g.author;
  updater = g.updater;
  llm_generated = g.llm_generated;
  lifecycle_timestamps = some (stamps_after m at g.lifecycle_timestamps);
}

stamp_time-stamps :
    {from to : LifecycleStatus} (m : IsMove from to) (at : String) (o : Option LifecycleTimestamps)
    → stamp_time to at (unwrap_or o default_timestamps) ≡ stamps_after m at o
stamp_time-stamps proposed at none = refl
stamp_time-stamps proposed at (some ts) = refl
stamp_time-stamps activated at none = refl
stamp_time-stamps activated at (some ts) = refl
stamp_time-stamps declined at none = refl
stamp_time-stamps declined at (some ts) = refl
stamp_time-stamps dropped at none = refl
stamp_time-stamps dropped at (some ts) = refl

pub stamp-governed :
    {from to : LifecycleStatus} (m : IsMove from to) (at : String) (g : Option Governance)
    → stamp to at g ≡ governed m at g
stamp-governed m at none =
    ap
      (λ ts. record {
        author = none;
        updater = none;
        llm_generated = none;
        lifecycle_timestamps = some ts;
      })
      (stamp_time-stamps m at none)
stamp-governed m at (some g) =
    ap (λ ts. record g { lifecycle_timestamps = some ts })
      (stamp_time-stamps m at g.lifecycle_timestamps)

abbrev pub from_name : {from to : LifecycleStatus} → IsMove from to → String
from_name proposed = "Draft"
from_name activated = "Candidate"
from_name declined = "Candidate"
from_name dropped = "Draft"

abbrev pub to_name : {from to : LifecycleStatus} → IsMove from to → String
to_name proposed = "Candidate"
to_name activated = "Active"
to_name declined = "Rejected"
to_name dropped = "Rejected"

-- A human, or the machine gate in one of the two tiers that release.
pub data Actor : Type 0 where
  human t0 t1 : Actor

abbrev pub tier_of : Actor → Option String
tier_of human = none
tier_of t0 = some "T0"
tier_of t1 = some "T1"

abbrev pub gate_of : Actor → Option String
gate_of human = none
gate_of t0 = some "machine"
gate_of t1 = some "machine"

abbrev pub review_of : Actor → Option Bool
review_of human = none
review_of t0 = some false
review_of t1 = some true

-- The audit row of a move; only a release in T1 awaits a review.
abbrev pub row_of :
    {from to : LifecycleStatus}
    → (ds id : String) (version : ℕ) → IsMove from to
    → (by at cause : String) → Actor
    → HistoryRow
row_of ds id version m by at cause actor = record {
  dataset_id = ds;
  entry_id = id;
  version = version;
  from_state = from_name m;
  to_state = to_name m;
  at = at;
  by = by;
  cause = cause;
  gate = gate_of actor;
  tier = tier_of actor;
  post_review_required = review_of actor;
  ratified_by = none;
  ratified_at = none;
}

-- The columns that both audit tables are written with.
pub columns-row_of :
    {from to : LifecycleStatus} (m : IsMove from to) (ds id : String) (version : ℕ)
    (by at cause : String) (actor : Actor)
    → ◌≡◌ {A = HistoryRow}
        (record {
          dataset_id = ds;
          entry_id = id;
          version = version;
          from_state = debug from;
          to_state = debug to;
          at = at;
          by = by;
          cause = cause;
          gate = elim (tier_of actor) [ none ↦ none | some t ↦ some "machine" ];
          tier = tier_of actor;
          post_review_required = elim (tier_of actor) [
            | none ↦ none
            | some t ↦ some (str_eq t "T1")
          ];
          ratified_by = none;
          ratified_at = none;
        })
        (row_of ds id version m by at cause actor)
columns-row_of proposed ds id version by at cause human = refl
columns-row_of proposed ds id version by at cause t0 = refl
columns-row_of proposed ds id version by at cause t1 = refl
columns-row_of activated ds id version by at cause human = refl
columns-row_of activated ds id version by at cause t0 = refl
columns-row_of activated ds id version by at cause t1 = refl
columns-row_of declined ds id version by at cause human = refl
columns-row_of declined ds id version by at cause t0 = refl
columns-row_of declined ds id version by at cause t1 = refl
columns-row_of dropped ds id version by at cause human = refl
columns-row_of dropped ds id version by at cause t0 = refl
columns-row_of dropped ds id version by at cause t1 = refl

-- Without the machine gate, a language model's entry makes no move but to be rejected.
pub boundary-rejected :
    {from to : LifecycleStatus} (m : IsMove from to) (b : Bool) (id : String)
    → validate_llm_boundary_gated b id to none ≡ ok tt
    → b ≡ true
    → to ≡ rejected
unfolding validate_llm_boundary_gated
boundary-rejected proposed b id h e = ground (arith, h, e)
boundary-rejected activated b id h e = ground (arith, h, e)
boundary-rejected declined b id h e = refl
boundary-rejected dropped b id h e = refl

pub rejected-boundary :
    {from to : LifecycleStatus} (m : IsMove from to) (b : Bool) (id : String)
    → (b ≡ true → to ≡ rejected)
    → validate_llm_boundary_gated b id to none ≡ ok tt
unfolding validate_llm_boundary_gated
rejected-boundary m false id h = refl
rejected-boundary proposed true id h = cc (h refl)
rejected-boundary activated true id h = cc (h refl)
rejected-boundary declined true id h = refl
rejected-boundary dropped true id h = refl

-- With its evidence, every move is open.
pub evidence-boundary :
    {from to : LifecycleStatus} (m : IsMove from to) (b : Bool) (id tier anchor : String)
    → is_machine_tier tier ≡ true
    → validate_llm_boundary_gated b id to
        (some (record { tier = tier; checks_passed = true; state_change_id = anchor }))
      ≡ ok tt
unfolding validate_llm_boundary_gated is_valid_machine_evidence
evidence-boundary proposed b id tier anchor h = ground (arith, h)
evidence-boundary activated b id tier anchor h = ground (arith, h)
evidence-boundary declined b id tier anchor h = ground (arith, h)
evidence-boundary dropped b id tier anchor h = ground (arith, h)

pub tier_actor :
    (tier : String) → is_machine_tier tier ≡ true → (actor : Actor) × (tier_of actor ≡ some tier)
tier_actor tier h = elim (Bool-cases (str_eq tier "T0")) [
  | inl e ↦ (t0, ground (arith, e, eq_iff tier "T0"))
  | inr e ↦ (t1, ground (arith, h, e, eq_iff tier "T1"))
]

pub actor_tier :
    (actor : Actor) (tier : String) → tier_of actor ≡ some tier → is_machine_tier tier ≡ true
actor_tier human tier h = cc
actor_tier t0 tier h = ap (λ o. is_machine_tier (unwrap_or o "")) (sym h)
actor_tier t1 tier h = ap (λ o. is_machine_tier (unwrap_or o "")) (sym h)
