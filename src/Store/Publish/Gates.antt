-- ===== src/Store/Publish/Gates.antt =====
-- What a publication asks for, and what it writes.
use evorule_rule.Prelude.{
  String, ◌≡◌, refl, ◌↔◌, ◌∙◌, ap, sym, ◌⊎◌, inl, inr, Option-cases, Bool, true, false, List, [],
  ◌∷◌, map, some, Text, ok, err, Result, Option, arith, All, is_empty,
}
use evorule_rule.External.{Externals}
use evorule_rule.Model.Lifecycle.{LifecycleStatus, active}
use evorule_rule.Model.Entry.{RuleEntry, KnowledgeEntry, rule_is_llm, knowledge_is_llm}
use evorule_rule.Model.Dataset.{RuleDataset}
use evorule_rule.Validate.Boundary.{validate_publish}
use evorule_rule.Validate.Boundary.Reachability.{publish_needs_active}
use evorule_rule.Validate.Credentials.{scan_credentials}
use evorule_rule.Store.State.{Store, Codec}
use evorule_rule.Store.Query.{get_dataset, list_entries, list_knowledge_entries}
use evorule_rule.Store.Review.{has_pending_post_review}
use evorule_rule.Store.Datasets.{refuse, set_lifecycle}
use evorule_rule.Store.Publish.{
  concat, scanned_texts, scan_dataset_credentials, rule_gates, knowledge_gates, published_life,
  publish_dataset_with_cause,
}

nil_or_not : (ts : List Text) → (ts ≡ []) ⊎ (is_empty ts ≡ false)
nil_or_not [] = inl refl
nil_or_not (t ∷ ts) = inr refl

hits_sound :
    (ts : List Text)
    → is_empty (concat (map scan_credentials ts)) ≡ true
    → All (λ t. scan_credentials t ≡ []) ts
hits_sound [] h = tt
hits_sound (t ∷ ts) h = elim (nil_or_not (scan_credentials t)) [
  | inl e ↦ (e, hits_sound ts (ground arith))
  | inr e ↦ ground arith
]

hits_complete :
    (ts : List Text)
    → All (λ t. scan_credentials t ≡ []) ts
    → is_empty (concat (map scan_credentials ts)) ≡ true
hits_complete [] h = refl
hits_complete (t ∷ ts) h = ground (arith, h.0, hits_complete ts h.1)

module _ (x : Externals) where
  -- An entry that may go public with the dataset `id`.
  abbrev pub Cleared : String → Store x → Bool → String → Type 0
  Cleared id s is_llm entry = (is_llm ≡ false) × (has_pending_post_review x id entry s ≡ false)

  pub record Publishable (codec : Codec x) (id : String) (s : Store x) (ds : RuleDataset x)
      : Type 0 where
    pub found : get_dataset x id s ≡ some ds
    pub chain : x.validate_versioning ds.versioning ≡ ok tt
    pub is_active : ds.lifecycle.status ≡ active
    pub clean : All (λ t. scan_credentials t ≡ []) (scanned_texts x codec id ds s)
    pub rules : All (λ e. Cleared id s (rule_is_llm x e) e.entry_id) (list_entries x id s)
    pub knowledge :
        All (λ e. Cleared id s (knowledge_is_llm x e) e.entry_id) (list_knowledge_entries x id s)

  rules_sound :
      (id : String) (s : Store x) (es : List (RuleEntry x))
      → rule_gates x id s es ≡ ok tt
      → All (λ e. Cleared id s (rule_is_llm x e) e.entry_id) es
  rules_sound id s [] h = tt
  rules_sound id s (e ∷ es) h = ((ground arith, ground arith), rules_sound id s es (ground arith))

  rules_complete :
      (id : String) (s : Store x) (es : List (RuleEntry x))
      → All (λ e. Cleared id s (rule_is_llm x e) e.entry_id) es
      → rule_gates x id s es ≡ ok tt
  rules_complete id s [] h = refl
  rules_complete id s (e ∷ es) h = ground (arith, h.0, rules_complete id s es h.1)

  knowledge_sound :
      (id : String) (s : Store x) (es : List (KnowledgeEntry x))
      → knowledge_gates x id s es ≡ ok tt
      → All (λ e. Cleared id s (knowledge_is_llm x e) e.entry_id) es
  knowledge_sound id s [] h = tt
  knowledge_sound id s (e ∷ es) h =
      ((ground arith, ground arith), knowledge_sound id s es (ground arith))

  knowledge_complete :
      (id : String) (s : Store x) (es : List (KnowledgeEntry x))
      → All (λ e. Cleared id s (knowledge_is_llm x e) e.entry_id) es
      → knowledge_gates x id s es ≡ ok tt
  knowledge_complete id s [] h = refl
  knowledge_complete id s (e ∷ es) h = ground (arith, h.0, knowledge_complete id s es h.1)

  scan_sound :
      (codec : Codec x) (id : String) (ds : RuleDataset x) (s : Store x)
      → scan_dataset_credentials x codec id ds s ≡ ok tt
      → is_empty (concat (map scan_credentials (scanned_texts x codec id ds s))) ≡ true
  unfolding scan_dataset_credentials
  scan_sound codec id ds s h = ground arith

  scan_complete :
      (codec : Codec x) (id : String) (ds : RuleDataset x) (s : Store x)
      → is_empty (concat (map scan_credentials (scanned_texts x codec id ds s))) ≡ true
      → scan_dataset_credentials x codec id ds s ≡ ok tt
  unfolding scan_dataset_credentials
  scan_complete codec id ds s h = ground arith

  inner :
      (r : Result (Option LifecycleStatus × LifecycleStatus) (Unit {0}))
      → refuse r ≡ ok tt
      → r ≡ ok tt
  inner (ok u) h = refl
  inner (err p) h = cc

  refuse_sound : (st : LifecycleStatus) → refuse (validate_publish (some st)) ≡ ok tt → st ≡ active
  refuse_sound st h = publish_needs_active st (inner (validate_publish (some st)) h)

  refuse_complete :
      (st : LifecycleStatus) → st ≡ active → refuse (validate_publish (some st)) ≡ ok tt
  unfolding validate_publish
  refuse_complete st h = ground arith

  publish-Publishable :
      (codec : Codec x) (id publisher at cause : String) (s s' : Store x)
      → publish_dataset_with_cause x codec id publisher at cause s ≡ ok s'
      → (ds : RuleDataset x) × Publishable codec id s ds
        × (s' ≡ set_lifecycle x id (published_life x publisher at cause ds) s)
  unfolding publish_dataset_with_cause
  publish-Publishable codec id publisher at cause s s' h =
      elim (Option-cases (get_dataset x id s)) [
        | inl e ↦ ground arith
        | inr (ds, e) ↦ (
          ds,
          record {
            found = e;
            chain = ground arith;
            is_active = refuse_sound ds.lifecycle.status (ground arith);
            clean = hits_sound _ (scan_sound codec id ds s (ground arith));
            rules = rules_sound id s _ (ground arith);
            knowledge = knowledge_sound id s _ (ground arith);
          },
          ground arith,
        )
      ]

  publish_complete :
      (codec : Codec x) (id publisher at cause : String) (s : Store x) (ds : RuleDataset x)
      → Publishable codec id s ds
      → publish_dataset_with_cause x codec id publisher at cause s
        ≡ ok (set_lifecycle x id (published_life x publisher at cause ds) s)
  unfolding publish_dataset_with_cause
  publish_complete codec id publisher at cause s ds p = ground (
    arith,
    p.found,
    p.chain,
    refuse_complete ds.lifecycle.status p.is_active,
    scan_complete codec id ds s (hits_complete _ p.clean),
    rules_complete id s _ p.rules,
    knowledge_complete id s _ p.knowledge,
  )

  -- A publication succeeds exactly for a dataset that exists, has an intact chain of versions, is
  -- active, shows no credentials in any scanned text, and whose latest entries all were written
  -- without a language model and await no review; it then writes the published life cycle alone.
  pub publish_iff :
      (codec : Codec x) (id publisher at cause : String) (s s' : Store x)
      → (publish_dataset_with_cause x codec id publisher at cause s ≡ ok s') ↔ (
          (ds : RuleDataset x) × Publishable codec id s ds
          × (s' ≡ set_lifecycle x id (published_life x publisher at cause ds) s))
  publish_iff codec id publisher at cause s s' = (
    publish-Publishable codec id publisher at cause s s',
    λ (ds, p, e). publish_complete codec id publisher at cause s ds p ∙ ap ok (sym e),
  )
