-- ===== src/Store/Query/Latest.antt =====
-- The latest version of an entry.
use mathlib.Core.List.{Memᴰ}
use mathlib.Core.List.Memᴰ.{head, tail}
use evorule_rule.Prelude.{
  ℕ, ◌≤◌, String, ◌≡◌, inl, inr, Bool, true, false, ◌&&◌, none, some, List, [], ◌∷◌, arith, any,
  find, All, Option-cases, Bool-cases, eq_iff, ◌==◌,
}
use evorule_rule.External.{Externals}
use evorule_rule.Model.Entry.{RuleEntry, KnowledgeEntry}
use evorule_rule.Store.State.{Store, rule_row, rule_key, knowledge_row, knowledge_key}
use evorule_rule.Store.Query.{max_version, get_latest_entry, get_latest_knowledge_entry}

module _ {A : Type 0} (test : A → Bool) (version : A → ℕ) where
  -- No row passes where there is no maximum.
  pub max_version-none :
      (rows : List A) → max_version test version rows ≡ none → All (λ r. test r ≡ false) rows
  max_version-none [] h = tt
  max_version-none (r ∷ rows) h = (ground arith, max_version-none rows (ground arith))

  vacuous :
      (rows : List A) (v : ℕ)
      → All (λ r. test r ≡ false) rows
      → All (λ r. test r ≡ true → version r ≤ v) rows
  vacuous [] v h = tt
  vacuous (r ∷ rows) v h = ((λ e. cc (h.0, e)), vacuous rows v h.1)

  -- The maximum is an upper bound of the rows that pass.
  pub max_version-bound :
      (rows : List A) (v : ℕ)
      → (w : ℕ) → max_version test version rows ≡ some w
      → w ≤ v
      → All (λ r. test r ≡ true → version r ≤ v) rows
  max_version-bound [] v w h l = tt
  max_version-bound (r ∷ rows) v w h l = elim (Option-cases (max_version test version rows)) [
    | inl e ↦ ((λ t. ground arith), vacuous rows v (max_version-none rows e))
    | inr (u, e) ↦ ((λ t. ground arith), max_version-bound rows v u e (ground arith))
  ]

  -- Some row that passes has the maximum.
  pub max_version-reached :
      (rows : List A) (v : ℕ)
      → max_version test version rows ≡ some v
      → any (λ r. test r && version r == v) rows ≡ true
  max_version-reached [] v h = cc
  max_version-reached (r ∷ rows) v h = elim (Option-cases (max_version test version rows)) [
    | inl e ↦ ground arith
    | inr (u, e) ↦ ground (arith, max_version-reached rows u e)
  ]

find_sound :
    {A : Type 0} (p : A → Bool) (xs : List A) (a : A)
    → find p xs ≡ some a
    → (p a ≡ true) × Memᴰ a xs
find_sound p [] a h = cc
find_sound p (x ∷ xs) a h = elim (Bool-cases (p x)) [
  | inl e ↦ (ground arith, head (ground arith))
  | inr e ↦ let m = find_sound p xs a (ground arith) in (m.0, tail m.1)
]

find-total : {A : Type 0} (p : A → Bool) (xs : List A) → any p xs ≡ true → find p xs ≡ none → ⊥
find-total p [] h e = cc
find-total p (x ∷ xs) h e = ground (arith, find-total p xs)

module _ (x : Externals) where
  -- A row that no row of the same entry exceeds in version.
  pub record IsLatest (ds id : String) (s : Store x) (e : RuleEntry x) : Type 0 where
    pub present : Memᴰ e s.entries
    pub of_dataset : e.dataset_id ≡ ds
    pub of_entry : e.entry_id ≡ id
    pub greatest : All (λ r. rule_row x ds id r ≡ true → r.version ≤ e.version) s.entries

  -- What is read as the latest version of an entry is a row of that entry, and the greatest.
  pub get_latest_entry-IsLatest :
      (ds id : String) (s : Store x) (e : RuleEntry x)
      → get_latest_entry x ds id s ≡ some e
      → IsLatest ds id s e
  unfolding get_latest_entry
  get_latest_entry-IsLatest ds id s e h =
      elim (Option-cases (max_version (rule_row x ds id) (λ r. r.version) s.entries)) [
        | inl n ↦ ground arith
        | inr (v, m) ↦
            let f = find_sound (rule_key x ds id v) s.entries e (ground arith) in
            record {
              present = f.1;
              of_dataset = ground (arith, f.0, eq_iff e.dataset_id ds);
              of_entry = ground (arith, f.0, eq_iff e.entry_id id);
              greatest =
                  max_version-bound (rule_row x ds id) (λ r. r.version) s.entries e.version v m
                    (ground (arith, f.0));
            }
      ]

  -- An entry without a latest version has no row at all.
  pub get_latest_entry-none :
      (ds id : String) (s : Store x)
      → get_latest_entry x ds id s ≡ none
      → All (λ r. rule_row x ds id r ≡ false) s.entries
  unfolding get_latest_entry
  get_latest_entry-none ds id s h =
      elim (Option-cases (max_version (rule_row x ds id) (λ r. r.version) s.entries)) [
        | inl n ↦ max_version-none (rule_row x ds id) (λ r. r.version) s.entries n
        | inr (v, m) ↦ absurd (
            find-total (rule_key x ds id v) s.entries
              (max_version-reached (rule_row x ds id) (λ r. r.version) s.entries v m)
              (ground arith))
      ]

  pub record IsLatestKnowledge (ds id : String) (s : Store x) (e : KnowledgeEntry x) : Type 0 where
    pub present : Memᴰ e s.knowledge_entries
    pub of_dataset : e.dataset_id ≡ ds
    pub of_entry : e.entry_id ≡ id
    pub greatest :
        All (λ r. knowledge_row x ds id r ≡ true → r.version ≤ e.version) s.knowledge_entries

  pub get_latest_knowledge_entry-IsLatest :
      (ds id : String) (s : Store x) (e : KnowledgeEntry x)
      → get_latest_knowledge_entry x ds id s ≡ some e
      → IsLatestKnowledge ds id s e
  unfolding get_latest_knowledge_entry
  get_latest_knowledge_entry-IsLatest ds id s e h =
      elim (Option-cases
        (max_version (knowledge_row x ds id) (λ r. r.version) s.knowledge_entries)) [
          | inl n ↦ ground arith
          | inr (v, m) ↦
              let f = find_sound (knowledge_key x ds id v) s.knowledge_entries e (ground arith) in
              record {
                present = f.1;
                of_dataset = ground (arith, f.0, eq_iff e.dataset_id ds);
                of_entry = ground (arith, f.0, eq_iff e.entry_id id);
                greatest =
                    max_version-bound (knowledge_row x ds id) (λ r. r.version) s.knowledge_entries
                      e.version v m (ground (arith, f.0));
              }
        ]
