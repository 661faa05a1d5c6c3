-- ===== src/Gate/Release.antt =====
-- The gate of src/gate/mod.rs in front of the machine transition of src/store/mod.rs.
use evorule_rule.Prelude.{String, ◌≡◌, refl, ap, sym, ◌↔◌, true, some, [], ◌∷◌, ◌++◌, ok, unwrap_or}
use evorule_rule.External.{Externals}
use evorule_rule.Model.Lifecycle.{LifecycleStatus}
use evorule_rule.Store.State.{Store, HistoryRow}
use evorule_rule.Store.Entries.{transition_entry_status_machine}
use evorule_rule.Store.Moves.{Actor, human, t0, t1, tier_of, review_of, row_of}
use evorule_rule.Store.Entries.Transitions.{transition_entry_status_machine_iff}
use evorule_rule.Gate.{GateInput, evaluate}
use evorule_rule.Gate.Tier.{Passes, HighImpact, tier_iff}

module _ (x : Externals) where
  -- The actor of a release in the tier of a report.
  actor-review :
      (input : GateInput x) (actor : Actor)
      → tier_of actor ≡ some (evaluate x input).tier
      → Passes x input × ((review_of actor ≡ some true) ↔ HighImpact x input)
  actor-review input human n = cc
  actor-review input t0 n =
      let (p, low) = (tier_iff x input).0.0 (sym (ap (λ o. unwrap_or o "") n)) in
      (p, ((λ e. cc), (λ high. absurd (low high))))
  actor-review input t1 n =
      let (p, high) = (tier_iff x input).1.0 (sym (ap (λ o. unwrap_or o "") n)) in
      (p, ((λ e. high), (λ h. refl)))

  -- An entry that the machine path moves on the tier of a report passes the gate, and the one audit
  -- row that is appended names that tier and asks for a review exactly where the report's impact is
  -- high.
  pub transition-evaluate :
      (input : GateInput x) (ds id : String) (to : LifecycleStatus) (by at cause anchor : String)
      (s s' : Store x)
      → transition_entry_status_machine x ds id to by at cause (evaluate x input).tier anchor s
        ≡ ok s'
      → Passes x input
        × ((row : HistoryRow) × (s'.entry_state_history ≡ s.entry_state_history ++ row ∷ [])
            × (row.tier ≡ some (evaluate x input).tier)
            × ((row.post_review_required ≡ some true) ↔ HighImpact x input))
  transition-evaluate input ds id to by at cause anchor s s' h =
      let (actor, e, m, n, f, w) =
        (transition_entry_status_machine_iff x ds id to by at cause (evaluate x input).tier anchor s
            s').0
          h in
      let (passes, review) = actor-review input actor n in
      (
        passes,
        (row_of ds id e.version m by at cause actor, ap Store.entry_state_history w, n, review),
      )
