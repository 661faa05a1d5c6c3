-- ===== src/Store/Tests/Instances.antt =====
-- Instances of the theorems on the store.
use evorule_rule.Model.Entry.{rule_is_llm}
use evorule_rule.Store.State.{Snapshot}
use evorule_rule.Model.Lifecycle.{draft, rejected}
use evorule_rule.Prelude.{
  ◌∷◌, [], ◌++◌, update, any, unwrap_or, String, ◌≡◌, refl, ◌↔◌, true, false, ◌&&◌, some, ok, List,
  All, str_eq, ltb,
}
use evorule_rule.Model.Dataset.{rule_set}
use evorule_rule.Store.State.{rule_key}
use evorule_rule.External.{major}
use evorule_rule.Model.Lifecycle.{candidate, active}
use evorule_rule.Model.Entry.{RuleEntry}
use evorule_rule.Model.Dataset.{RuleDataset}
use evorule_rule.Demo.{demo, codec, dataset, llm_draft}
use evorule_rule.Store.State.{Store, VersionSnapshot}
use evorule_rule.Store.Query.{get_dataset, get_latest_entry, list_entries, list_knowledge_entries}
use evorule_rule.Store.Entries.{
  add_entry, update_draft_entry, transition_entry_status, transition_entry_status_machine,
}
use evorule_rule.Store.Entries.Admitted.{
  Fits, IsOpen, SavedRule, rewritten, add_entry_iff, update_draft_entry_iff,
}
use evorule_rule.Store.Moves.{IsMove, Actor, human, tier_of}
use evorule_rule.Validate.Symbols.{declared_services}
use evorule_rule.Store.Entries.Transitions.{
  Found, moved, transition_entry_status_iff, transition_entry_status_machine_iff,
}
use evorule_rule.Store.Review.{has_pending_post_review, ratify_post_review}
use evorule_rule.Store.Review.Release.{ratify-has_pending}
use evorule_rule.Store.Datasets.{set_lifecycle}
use evorule_rule.Store.Publish.{
  published_life, publish_dataset_with_cause, versioned, create_dataset_version,
}
use evorule_rule.Store.Publish.Gates.{Publishable, publish_iff}
use evorule_rule.Store.Publish.Versions.{Bumped, IsOfEntry, has_snapshot, create_version-snapshots}
use evorule_rule.Store.Tests.{with_dataset, with_draft, with_candidate, with_active}

publish_iff_example :
    (publish_dataset_with_cause demo codec "ds" "p" "4" "c" with_active ≡ ok with_dataset) ↔ (
      (ds : RuleDataset demo) × Publishable demo codec "ds" with_active ds
      × (with_dataset ≡ set_lifecycle demo "ds" (published_life demo "p" "4" "c" ds) with_active))
publish_iff_example = publish_iff demo codec "ds" "p" "4" "c" with_active with_dataset

transition_entry_status_iff_example :
    (transition_entry_status demo "ds" "e" candidate "u" "2" "c" with_draft ≡ ok with_candidate) ↔ (
      (e : RuleEntry demo) × (m : IsMove (unwrap_or e.status active) candidate) × Found demo "ds"
        "e" with_draft e
      × (rule_is_llm demo e ≡ true → candidate ≡ rejected)
      × (with_candidate ≡ moved demo "ds" "e" e m "u" "2" "c" human with_draft))
transition_entry_status_iff_example =
    transition_entry_status_iff demo "ds" "e" candidate "u" "2" "c" with_draft with_candidate

transition_entry_status_machine_iff_example :
    (transition_entry_status_machine demo "ds" "e" active "gate" "3" "c" "T1" "a" with_candidate
      ≡ ok with_active)
    ↔ ((actor : Actor) × (e : RuleEntry demo) × (m : IsMove (unwrap_or e.status active) active)
        × (tier_of actor ≡ some "T1")
        × Found demo "ds" "e" with_candidate e
        × (with_active ≡ moved demo "ds" "e" e m "gate" "3" "c" actor with_candidate))
transition_entry_status_machine_iff_example =
    transition_entry_status_machine_iff demo "ds" "e" active "gate" "3" "c" "T1" "a" with_candidate
      with_active

add_entry_iff_example : (add_entry demo codec llm_draft "1" with_dataset ≡ ok with_draft) ↔ (
    (ds : RuleDataset demo) × (snaps : List (Snapshot demo)) × Fits demo llm_draft with_dataset ds
    × (ds.dataset_kind ≡ rule_set)
    × (codec.validate_entry llm_draft (declared_services demo ds) ≡ ok tt)
    × (any (rule_key demo "ds" "e" 1) with_dataset.entries ≡ false)
    × SavedRule demo llm_draft "1" with_dataset snaps
    × (with_draft ≡ record with_dataset {
      entry_snapshots = snaps;
      entries = with_dataset.entries ++ llm_draft ∷ [];
    }))
add_entry_iff_example = add_entry_iff demo codec llm_draft "1" with_dataset with_draft

update_draft_entry_iff_example :
    (update_draft_entry demo llm_draft "2" with_draft ≡ ok with_draft) ↔ (
      (ds : RuleDataset demo) × (snaps : List (Snapshot demo)) × Fits demo llm_draft with_draft ds
      × IsOpen llm_draft.status
      × (any (rule_key demo "ds" "e" 1) with_draft.entries ≡ true)
      × SavedRule demo llm_draft "2" with_draft snaps
      × (with_draft ≡ record with_draft {
        entry_snapshots = snaps;
        entries = update (rule_key demo "ds" "e" 1) (rewritten demo llm_draft) with_draft.entries;
      }))
update_draft_entry_iff_example = update_draft_entry_iff demo llm_draft "2" with_draft with_draft

abbrev second_version : Store demo
unfolding list_entries list_knowledge_entries
second_version = versioned demo "ds" major "u" "5" dataset "2" with_draft

second_made : create_dataset_version demo "ds" major "u" "5" with_draft ≡ ok ("2", second_version)
unfolding create_dataset_version get_dataset list_entries list_knowledge_entries
second_made = refl

create_version-snapshots_example :
    (ds : RuleDataset demo) × (v : String) × Bumped demo "ds" major with_draft ds v
    × ("2" ≡ v)
    × ((d : RuleDataset demo) × (get_dataset demo "ds" second_version ≡ some d)
        × (d.lifecycle.status ≡ draft)
        × (d.versioning ≡ v))
    × ((more : List (VersionSnapshot demo)) × (second_version.dataset_version_snapshots
          ≡ with_draft.dataset_version_snapshots ++ more)
        × All (IsOfEntry demo "ds" ds.versioning "u" "5" with_draft) more)
    × All
        (λ e.
          has_snapshot demo "ds" ds.versioning e.entry_id second_version.dataset_version_snapshots
          ≡ true)
        (list_entries demo "ds" with_draft)
    × All
        (λ e.
          has_snapshot demo "ds" ds.versioning e.entry_id second_version.dataset_version_snapshots
          ≡ true)
        (list_knowledge_entries demo "ds" with_draft)
create_version-snapshots_example =
    create_version-snapshots demo "ds" major "u" "5" with_draft second_version "2" second_made

ratify-has_pending_example :
    (has_pending_post_review demo "ds" "e" (ratify_post_review demo "ds" "e" "u" "5" with_active).1
      ≡ false)
    × (has_pending_post_review demo "ds" "e" with_active
        ≡ ltb 0 (ratify_post_review demo "ds" "e" "u" "5" with_active).0)
    × ((ds id : String)
        → (str_eq "ds" ds && str_eq "e" id) ≡ false
        → has_pending_post_review demo ds id
            (ratify_post_review demo "ds" "e" "u" "5" with_active).1
          ≡ has_pending_post_review demo ds id with_active)
ratify-has_pending_example = ratify-has_pending demo "ds" "e" "u" "5" with_active

draft_latest : get_latest_entry demo "ds" "e" with_draft ≡ some llm_draft
unfolding get_latest_entry
draft_latest = refl
