-- ===== src/Store/Query.antt =====
-- The reads of src/store/mod.rs: the latest version of an entry, the entries of a dataset, and the
-- facts that the machine gate asks for.
pub mod Latest
pub mod Listing
use Prim.Native.Nat.{max}
use evorule_rule.Prelude.{
  ℕ, suc, ◌-◌, String, Bool, true, false, not, ◌&&◌, Option, none, some, List, [], ◌∷◌, ltb, ◌==◌,
  str_eq, any, find, map, if◌then◌else◌,
}
use evorule_rule.External.{Externals}
use evorule_rule.Model.Entry.{RuleEntry, KnowledgeEntry, rule_content_hash}
use evorule_rule.Model.Dataset.{RuleDataset}
use evorule_rule.Store.State.{
  Store, Snapshot, rule_row, rule_key, knowledge_row, knowledge_key, snapshot_row,
}

-- The maximum of a version and those of the other rows.
abbrev pub later : ℕ → Option ℕ → ℕ
later v none = v
later v (some w) = max v w

-- `SELECT MAX(version) … WHERE test`, NULL where no row passes.
module _ {A : Type 0} (test : A → Bool) (version : A → ℕ) where
  abbrev pub max_version : List A → Option ℕ
  max_version [] = none
  max_version (r ∷ rs) =
      let rest = max_version rs in if test r then some (later (version r) rest) else rest

-- `SELECT DISTINCT entry_id … WHERE dataset_id=?`.
abbrev pub str_mem : String → List String → Bool
str_mem s = any (λ t. str_eq t s)

abbrev pub distinct : List String → List String → List String
distinct seen [] = []
distinct seen (s ∷ ss) =
    let rest = distinct (s ∷ seen) ss in if str_mem s seen then rest else s ∷ rest

-- The rows that are there.
abbrev pub collect : {A : Type 0} → List (Option A) → List A
collect [] = []
collect (none ∷ os) = collect os
collect (some a ∷ os) = a ∷ collect os

module _ (x : Externals) where
  unfoldable pub get_dataset : String → Store x → Option (RuleDataset x)
  get_dataset id s = find (λ d. str_eq d.dataset_id id) s.datasets

  -- `get_entry`, `get_latest_entry`.
  abbrev at_version : String → String → Option ℕ → List (RuleEntry x) → Option (RuleEntry x)
  at_version ds id none es = none
  at_version ds id (some v) es = find (rule_key x ds id v) es

  unfoldable pub get_latest_entry : String → String → Store x → Option (RuleEntry x)
  get_latest_entry ds id s =
      at_version ds id (max_version (rule_row x ds id) (λ e. e.version) s.entries) s.entries

  abbrev knowledge_at_version :
      String → String → Option ℕ → List (KnowledgeEntry x) → Option (KnowledgeEntry x)
  knowledge_at_version ds id none es = none
  knowledge_at_version ds id (some v) es = find (knowledge_key x ds id v) es

  unfoldable pub get_latest_knowledge_entry : String → String → Store x → Option (KnowledgeEntry x)
  get_latest_knowledge_entry ds id s =
      knowledge_at_version ds id
        (max_version (knowledge_row x ds id) (λ e. e.version) s.knowledge_entries)
        s.knowledge_entries

  -- `SELECT DISTINCT entry_id FROM entries WHERE dataset_id=?`.
  abbrev ids : String → List (RuleEntry x) → List String
  ids ds [] = []
  ids ds (e ∷ es) =
      let rest = ids ds es in if str_eq e.dataset_id ds then e.entry_id ∷ rest else rest

  abbrev knowledge_ids : String → List (KnowledgeEntry x) → List String
  knowledge_ids ds [] = []
  knowledge_ids ds (e ∷ es) =
      let rest = knowledge_ids ds es in if str_eq e.dataset_id ds then e.entry_id ∷ rest else rest

  -- `list_entries(ds, None)` and `list_knowledge_entries(ds, None)`: the latest version of each.
  unfoldable pub list_entries : String → Store x → List (RuleEntry x)
  unfolding get_latest_entry
  list_entries ds s =
      collect (map (λ id. get_latest_entry ds id s) (distinct [] (ids ds s.entries)))

  unfoldable pub list_knowledge_entries : String → Store x → List (KnowledgeEntry x)
  unfolding get_latest_knowledge_entry
  list_knowledge_entries ds s = collect (
      map (λ id. get_latest_knowledge_entry ds id s)
        (distinct [] (knowledge_ids ds s.knowledge_entries)))
