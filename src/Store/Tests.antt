-- ===== src/Store/Tests.antt =====
-- Tests and instances of the theorems on the store.
mod Instances
use evorule_rule.Prelude.{String, ◌≡◌, refl, ◌≢◌, err, true, false, none, some, ok, [], ◌∷◌}
use evorule_rule.Model.Lifecycle.{draft, candidate, active}
use evorule_rule.Demo.{demo, codec, dataset, llm_draft, by_llm, entry_with}
use evorule_rule.Store.State.{Store, validation}
use evorule_rule.Store.Query.{get_dataset, get_latest_entry}
use evorule_rule.Store.Entries.{
  scan_body, insert_entry, write_transition, audit_row, add_entry, transition_entry_status_machine,
  transition_entry_status, stamp, update_draft_entry,
}
use evorule_rule.Validate.Boundary.{
  validate_llm_boundary, validate_llm_boundary_gated, is_valid_machine_evidence,
}
use evorule_rule.Validate.Symbols.{validate_symbol_consistency}
use evorule_rule.Validate.Credentials.{scan_credentials}
use evorule_rule.Store.Datasets.{create_dataset}
use evorule_rule.Store.Entries.Admission.{edited}
use evorule_rule.Store.Entries.Backing.{AllBacked}
use evorule_rule.Store.Reach.{
  empty, Reach, start, step, dataset_created, entry_added, entry_released,
}
use evorule_rule.Store.Reach.Invariants.{Reach-AllBacked, Reach-AllLinked}
use evorule_rule.Store.Datasets.Chain.{AllLinked}
use evorule_rule.Store.Entries.Snapshots.{AllKept}
use evorule_rule.Store.Reach.Snapshots.{Reach-AllKept}
use evorule_rule.Store.Publish.{publish_dataset_with_cause}
use evorule_rule.Store.Publish.Pending.{t1_release_unpublishable}
use evorule_rule.Model.Entry.{RuleEntry, is_frozen}
use evorule_rule.Validate.Error.{llm_generated_not_draft}

abbrev pub with_dataset : Store demo
with_dataset = record (empty demo) { datasets = dataset ∷ [] }

abbrev pub with_draft : Store demo
with_draft = insert_entry demo llm_draft "1" with_dataset

abbrev pub with_candidate : Store demo
with_candidate =
    write_transition demo "ds" "e" llm_draft candidate "2"
      (audit_row demo "ds" "e" llm_draft draft candidate "gate" "2" "c" (some "T1")) with_draft

created : create_dataset demo dataset (empty demo) ≡ ok with_dataset
unfolding create_dataset get_dataset
created = refl

pub added : add_entry demo codec llm_draft "1" with_dataset ≡ ok with_draft
unfolding add_entry get_dataset scan_body scan_credentials validate_llm_boundary
    validate_symbol_consistency
added = refl

pub released :
    transition_entry_status_machine demo "ds" "e" candidate "gate" "2" "c" "T1" "a" with_draft
    ≡ ok with_candidate
unfolding transition_entry_status_machine get_latest_entry validate_llm_boundary_gated
released = refl

pub candidate_reached : Reach demo codec with_candidate
candidate_reached =
    step with_draft
      (step with_dataset (step (empty demo) start (dataset_created dataset refl created))
        (entry_added llm_draft "1" added))
      (entry_released "ds" "e" candidate "gate" "2" "c" "T1" "a" released)

Reach-AllBacked_example : AllBacked demo with_candidate
Reach-AllBacked_example = Reach-AllBacked demo codec with_candidate candidate_reached

Reach-AllLinked_example : AllLinked demo with_candidate
Reach-AllLinked_example = Reach-AllLinked demo codec with_candidate candidate_reached

-- The machine gate makes the candidate active with tier T1.
abbrev pub as_candidate : RuleEntry demo
as_candidate = record llm_draft {
  status = some candidate;
  governance = some (stamp candidate "2" (some by_llm));
}

abbrev pub with_active : Store demo
with_active =
    write_transition demo "ds" "e" as_candidate active "3"
      (audit_row demo "ds" "e" as_candidate candidate active "gate" "3" "c" (some "T1"))
      with_candidate

pub activated :
    transition_entry_status_machine demo "ds" "e" active "gate" "3" "c" "T1" "a" with_candidate
    ≡ ok with_active
unfolding transition_entry_status_machine get_latest_entry validate_llm_boundary_gated
activated = refl

t1_release_unpublishable_example :
    publish_dataset_with_cause demo codec "ds" "p" "4" "c" with_active ≢ ok with_active
t1_release_unpublishable_example =
    t1_release_unpublishable demo codec "ds" "e" "gate" "3" "c" "a" "p" "4" "c" with_candidate
      with_active with_active activated

-- A person cannot move what a language model wrote out of the draft state.
human_refused :
    transition_entry_status demo "ds" "e" candidate "u" "2" "c" with_draft
    ≡ err (validation (llm_generated_not_draft "e" candidate))
unfolding transition_entry_status get_latest_entry validate_llm_boundary_gated
human_refused = refl

-- An entry that a language model wrote and that states no status is added, and then counts as
-- active: the check at the entry reads the missing status as a draft.
unstated_added :
    add_entry demo codec (entry_with none (some by_llm)) "1" with_dataset
    ≡ ok (insert_entry demo (entry_with none (some by_llm)) "1" with_dataset)
unfolding add_entry get_dataset scan_body scan_credentials validate_llm_boundary
    validate_symbol_consistency
unstated_added = refl

unstated_frozen : is_frozen (entry_with none (some by_llm)).status ≡ true
unstated_frozen = refl

-- An edit of a draft that changes the inputs that it consumes is accepted and loses the change.
abbrev edit : RuleEntry demo
edit = record (entry_with (some draft) none) { consumed_inputs = "income" ∷ [] }

edit_lost :
    update_draft_entry demo edit "2" with_draft
    ≡ ok (edited demo (record edit { consumed_inputs = [] }) "2" with_draft)
unfolding update_draft_entry get_dataset scan_body scan_credentials validate_llm_boundary
    validate_symbol_consistency
edit_lost = refl

Reach-AllKept_example : AllKept demo with_candidate
Reach-AllKept_example = Reach-AllKept demo codec with_candidate candidate_reached

-- An edit asks for the status of the new content alone: the row that stands as active is overwritten
-- and is a draft again.
abbrev plain_draft : RuleEntry demo
plain_draft = entry_with (some draft) none

active_overwritten :
    update_draft_entry demo plain_draft "4" with_active
    ≡ ok (edited demo plain_draft "4" with_active)
unfolding update_draft_entry get_dataset scan_body scan_credentials validate_llm_boundary
    validate_symbol_consistency
active_overwritten = refl
