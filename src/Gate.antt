-- ===== src/Gate.antt =====
-- src/gate/mod.rs: the six checks of the machine gate and the tier that they give. A check is its
-- name and its outcome; its note, prose for the auditor, is left out.
pub mod Tier
pub mod Release
mod Tests
use evorule_rule.Prelude.{
  ℕ, ◌*◌, String, Bool, true, false, not, ◌&&◌, ◌||◌, Option, none, some, is_some, List, [], ◌∷◌,
  length, all, Result, ok, err, ltb, leb, ◌==◌, if◌then◌else◌,
}
use evorule_rule.External.{Externals}
use evorule_rule.Model.Entry.{RuleEntry, KnowledgeEntry}
use evorule_rule.Model.Dataset.{RuleDataset, is_law_set}
use evorule_rule.Validate.Symbols.{validate_symbol_consistency}
use evorule_rule.Validate.Law.{validate_law_structure}
use evorule_rule.Validate.Ingest.{validate_ingest_contract}

pub record CheckItem : Type 0 where
  pub name : String
  pub passed : Bool

pub record MachineGateReport : Type 0 where
  pub checks : List CheckItem
  pub tier : String

-- The facts that the store collects for the gate.
pub record GateProbe : Type 0 where
  pub dataset_entry_count : ℕ
  pub active_same_hash : ℕ
  pub active_same_domain : ℕ
  pub prev_version_hash : Option String
  pub prev_snapshot_exists : Option Bool

pub record GateInput (x : Externals) : Type 0 where
  pub entry_id : String
  pub version : ℕ
  pub is_rule : Bool
  pub dataset : RuleDataset x
  pub rule_entry : Option (RuleEntry x)
  pub knowledge_entry : Option (KnowledgeEntry x)
  pub probe : GateProbe
  pub llm_total : ℕ
  pub llm_failed : ℕ

abbrev max_dataset_entries : ℕ
max_dataset_entries = 50

abbrev max_service_bindings : ℕ
max_service_bindings = 3

abbrev llm_min_samples : ℕ
llm_min_samples = 4

abbrev succeeds {ℓ κ} : {E : Type ℓ} {A : Type κ} → Result E A → Bool
succeeds (ok a) = true
succeeds (err e) = false

abbrev all_passed : List CheckItem → Bool
all_passed = all (λ c. c.passed)

module _ (x : Externals) where
  law_schema : Option (KnowledgeEntry x) → Bool
  law_schema none = false
  law_schema (some e) = succeeds (validate_law_structure x e.payload)

  rule_schema : RuleDataset x → Option (RuleEntry x) → Bool
  rule_schema ds none = false
  rule_schema ds (some e) = succeeds (validate_symbol_consistency x ds e)

  knowledge_schema : Option (KnowledgeEntry x) → Bool
  knowledge_schema none = false
  knowledge_schema (some e) = succeeds (validate_ingest_contract x e)

  -- M1: the check that the kind of the dataset and of the entry choose.
  unfoldable pub schema_ok : GateInput x → Bool
  unfolding law_schema rule_schema knowledge_schema
  schema_ok input =
      if is_law_set input.dataset.dataset_kind
      then law_schema input.knowledge_entry
      else if input.is_rule
      then rule_schema input.dataset input.rule_entry
      else knowledge_schema input.knowledge_entry

  abbrev snapshot_found : Option String → Option Bool → Bool
  snapshot_found (some hash) (some true) = true
  snapshot_found _ _ = false

  -- M2: a version after the first has its predecessor's snapshot.
  unfoldable pub snapshot_ok : GateInput x → Bool
  snapshot_ok input =
      if input.version == 1
      then true
      else snapshot_found input.probe.prev_version_hash input.probe.prev_snapshot_exists

  -- M3: no other active entry has the content. One of the same domain is a warning.
  unfoldable pub conflict_ok : GateInput x → Bool
  conflict_ok input =
      if ltb 0 input.probe.active_same_hash
      then false
      else if ltb 0 input.probe.active_same_domain
      then true
      else true

  -- M6: a version after the first has a row to fall back to.
  unfoldable pub rollback_ok : GateInput x → Bool
  rollback_ok input = if ltb 1 input.version then is_some input.probe.prev_version_hash else true

  abbrev pub bindings : Option (RuleEntry x) → ℕ
  bindings none = 0
  bindings (some e) = length e.data_source_binding

  -- M4 lowers the tier and never fails.
  unfoldable pub impact_downgrades : GateInput x → Bool
  impact_downgrades input =
      ltb max_dataset_entries input.probe.dataset_entry_count
      || ltb max_service_bindings (bindings input.rule_entry)

  -- M5 lowers the tier and never fails. `failed / total > 0.5` over `f64` is exact below 2 ^ 53.
  unfoldable pub reputation_downgrades : GateInput x → Bool
  reputation_downgrades input =
      leb llm_min_samples input.llm_total && ltb input.llm_total (2 * input.llm_failed)

  unfoldable pub evaluate : GateInput x → MachineGateReport
  unfolding schema_ok snapshot_ok conflict_ok rollback_ok impact_downgrades reputation_downgrades
  evaluate input =
      let checks =
        record { name = "M1_schema"; passed = schema_ok input }
        ∷ record { name = "M2_snapshot_continuity"; passed = snapshot_ok input }
        ∷ record { name = "M3_lexical_conflict"; passed = conflict_ok input }
        ∷ record { name = "M4_impact_radius"; passed = true }
        ∷ record { name = "M5_llm_reputation"; passed = true }
        ∷ record { name = "M6_rollback_path"; passed = rollback_ok input }
        ∷ [] in
      let downgrade = impact_downgrades input || reputation_downgrades input in
      record {
        checks = checks;
        tier = if not (all_passed checks) then "T2" else if downgrade then "T1" else "T0";
      }
