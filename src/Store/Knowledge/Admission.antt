-- ===== src/Store/Knowledge/Admission.antt =====
-- Which knowledge entries are added.
use evorule_rule.Prelude.{
  String, ◌≡◌, inl, inr, true, false, Option, none, some, ok, arith, Option-cases, any, is_empty,
  codes, unwrap_or,
}
use evorule_rule.Chars.{trim}
use evorule_rule.External.{Externals}
use evorule_rule.Model.Lifecycle.{active}
use evorule_rule.Model.Entry.{KnowledgeEntry, knowledge_is_llm}
use evorule_rule.Model.Dataset.{RuleDataset}
use evorule_rule.Validate.Boundary.{validate_llm_boundary_gated}
use evorule_rule.Store.State.{Store, knowledge_key}
use evorule_rule.Store.Query.{get_dataset}
use evorule_rule.Store.Entries.{scan_body}
use evorule_rule.Store.Knowledge.{
  Importer, holds_knowledge, server_rules, pack_rules, insert_knowledge, add_knowledge_entry,
}

module _ (x : Externals) (importer : Importer x) (lookup : String → Option x.Json) where
  -- The checks of a new knowledge entry.
  pub record AdmissibleKnowledge (e : KnowledgeEntry x) (s : Store x) (ds : RuleDataset x)
      : Type 0 where
    pub found : get_dataset x e.dataset_id s ≡ some ds
    pub of_knowledge : holds_knowledge ds.dataset_kind ≡ true
    pub schema : is_empty (trim (codes e.schema_ref)) ≡ false
    pub boundary :
        validate_llm_boundary_gated
          (knowledge_is_llm x e)
          e.entry_id
          (unwrap_or e.status active)
          none
        ≡ ok tt
    pub clean : scan_body x e.payload ≡ ok tt
    pub as_server : server_rules x e ≡ ok tt
    pub as_pack : pack_rules x e ≡ ok tt
    pub imported : importer e lookup ≡ ok tt
    pub fresh : any (knowledge_key x e.dataset_id e.entry_id e.version) s.knowledge_entries ≡ false

  pub add-Admissible :
      (e : KnowledgeEntry x) (now : String) (s s' : Store x)
      → add_knowledge_entry x importer lookup e now s ≡ ok s'
      → (ds : RuleDataset x) × AdmissibleKnowledge e s ds × (s' ≡ insert_knowledge x e now s)
  unfolding add_knowledge_entry
  add-Admissible e now s s' h = elim (Option-cases (get_dataset x e.dataset_id s)) [
    | inl n ↦ ground arith
    | inr (ds, f) ↦ (
      ds,
      record {
        found = f;
        of_knowledge = ground arith;
        schema = ground arith;
        boundary = ground arith;
        clean = ground arith;
        as_server = ground arith;
        as_pack = ground arith;
        imported = ground arith;
        fresh = ground arith;
      },
      ground arith,
    )
  ]

  pub Admissible-inserted :
      (e : KnowledgeEntry x) (now : String) (s : Store x) (ds : RuleDataset x)
      → AdmissibleKnowledge e s ds
      → add_knowledge_entry x importer lookup e now s ≡ ok (insert_knowledge x e now s)
  unfolding add_knowledge_entry
  Admissible-inserted e now s ds a = ground (
    arith, a.found, a.of_knowledge, a.schema, a.boundary, a.clean, a.as_server, a.as_pack,
    a.imported, a.fresh,
  )
