-- ===== src/Gate/Tests.antt =====
-- Tests and instances of the machine gate.
use evorule_rule.Gate.Release.{transition-evaluate}
use evorule_rule.Model.Lifecycle.{active}
use evorule_rule.Store.State.{HistoryRow}
use evorule_rule.Store.Entries.{transition_entry_status_machine}
use evorule_rule.Store.Tests.{with_candidate, with_active, activated}
use evorule_rule.Prelude.{ap, ◌∙◌, ok, [], ◌∷◌, ◌++◌, ◌≡◌, refl, ◌↔◌, true, none, some}
use evorule_rule.Demo.{demo, dataset, llm_draft}
use evorule_rule.Validate.Symbols.{validate_symbol_consistency}
use evorule_rule.Gate.{GateInput, evaluate}
use evorule_rule.Gate.Tier.{Passes, HighImpact, tier_iff}

-- The first version of a rule; three of four model operations have failed.
abbrev first : GateInput demo
first = record {
  entry_id = "e";
  version = 1;
  is_rule = true;
  dataset = dataset;
  rule_entry = some llm_draft;
  knowledge_entry = none;
  probe = record {
    dataset_entry_count = 1;
    active_same_hash = 0;
    active_same_domain = 2;
    prev_version_hash = none;
    prev_snapshot_exists = none;
  };
  llm_total = 4;
  llm_failed = 3;
}

-- A failure rate over the threshold gives T1, and not T2 as its note says.
first_tier : (evaluate demo first).tier ≡ "T1"
unfolding evaluate validate_symbol_consistency
first_tier = refl

tier_iff_example :
    (((evaluate demo first).tier ≡ "T0") ↔ (Passes demo first × (HighImpact demo first → ⊥)))
    × (((evaluate demo first).tier ≡ "T1") ↔ (Passes demo first × HighImpact demo first))
    × (((evaluate demo first).tier ≡ "T2") ↔ (Passes demo first → ⊥))
tier_iff_example = tier_iff demo first

-- The release of the candidate on that report.
released_first :
    transition_entry_status_machine demo "ds" "e" active "gate" "3" "c"
      (evaluate demo first).tier
      "a"
      with_candidate
    ≡ ok with_active
released_first =
    ap
      (λ t.
        transition_entry_status_machine demo "ds" "e" active "gate" "3" "c" t "a" with_candidate)
      first_tier
    ∙ activated

transition-evaluate_example :
    Passes demo first
    × ((row : HistoryRow) × (with_active.entry_state_history
          ≡ with_candidate.entry_state_history ++ row ∷ [])
        × (row.tier ≡ some (evaluate demo first).tier)
        × ((row.post_review_required ≡ some true) ↔ HighImpact demo first))
transition-evaluate_example =
    transition-evaluate demo first "ds" "e" active "gate" "3" "c" "a" with_candidate with_active
      released_first
