-- ===== src/Store/Knowledge/Admitted.antt =====
-- Which knowledge entries are added, with the rules of the registries of MCP servers and packs, and
-- the rows and snapshots that are there afterwards.
use evorule_rule.Prelude.{
  String, ◌≡◌, refl, sym, ap, ◌∙◌, ◌↔◌, ◌⊎◌, inl, inr, Bool, true, false, Option, none, some, List,
  [], ◌∷◌, ◌++◌, Result, ok, arith, any, is_empty, codes, unwrap_or, map_err, str_eq, str_eq_refl,
  eq_iff, Bool-cases,
}
use evorule_rule.Chars.{trim}
use evorule_rule.External.{Externals}
use evorule_rule.Model.Lifecycle.{LifecycleStatus, draft, candidate, active, published, rejected}
use evorule_rule.Model.Entry.{KnowledgeEntry, knowledge_is_llm}
use evorule_rule.Model.Dataset.{RuleDataset, DatasetKind, rule_set, knowledge, law_set}
use evorule_rule.Validate.Error.{mcp_refused}
use evorule_rule.Validate.Boundary.Evidence.{MayEnter, boundary_iff}
use evorule_rule.Validate.Credentials.{scan_credentials}
use evorule_rule.Validate.Mcp.Servers.{
  mcp_servers_dataset_id, mcp_server_schema_ref, validate_mcp_server_entry,
}
use evorule_rule.Validate.Mcp.Packs.{
  mcp_packs_dataset_id, mcp_pack_schema_ref, validate_mcp_pack_payload,
}
use evorule_rule.Store.State.{Store, StoreError, Snapshot, validation, knowledge_key}
use evorule_rule.Store.Query.{get_dataset}
use evorule_rule.Store.Saved.{Saved, put-Saved, Saved-put}
use evorule_rule.Store.Entries.Admission.{scan_clean, clean_scan}
use evorule_rule.Store.Knowledge.{
  Importer, holds_knowledge, in_force, registered, server_rules, pack_rules, put_knowledge_snapshot,
  add_knowledge_entry,
}
use evorule_rule.Store.Knowledge.Admission.{add-Admissible, Admissible-inserted}
use evorule_rule.Store.Knowledge.Passed.{mapped-ok}

-- Which stated statuses put an entry in force; one that states none is not among them.
pub data IsInForce : Option LifecycleStatus → Bool → Type 0 where
  unstated : IsInForce none false
  as_draft : IsInForce (some draft) false
  as_candidate : IsInForce (some candidate) false
  as_active : IsInForce (some active) true
  as_published : IsInForce (some published) true
  as_rejected : IsInForce (some rejected) false

in_force-IsInForce : (status : Option LifecycleStatus) → IsInForce status (in_force status)
in_force-IsInForce none = unstated
in_force-IsInForce (some draft) = as_draft
in_force-IsInForce (some candidate) = as_candidate
in_force-IsInForce (some active) = as_active
in_force-IsInForce (some published) = as_published
in_force-IsInForce (some rejected) = as_rejected

IsInForce-in_force :
    {status : Option LifecycleStatus} {b : Bool} → IsInForce status b → in_force status ≡ b
IsInForce-in_force unstated = refl
IsInForce-in_force as_draft = refl
IsInForce-in_force as_candidate = refl
IsInForce-in_force as_active = refl
IsInForce-in_force as_published = refl
IsInForce-in_force as_rejected = refl

knowledge_kind : (k : DatasetKind) → holds_knowledge k ≡ true → (k ≡ knowledge) ⊎ (k ≡ law_set)
knowledge_kind rule_set h = cc
knowledge_kind knowledge h = inl refl
knowledge_kind law_set h = inr refl

kind_knowledge : (k : DatasetKind) → (k ≡ knowledge) ⊎ (k ≡ law_set) → holds_knowledge k ≡ true
kind_knowledge k (inl e) = ap holds_knowledge e
kind_knowledge k (inr e) = ap holds_knowledge e

module _ (x : Externals) where
  -- The entry stands in the dataset or names the schema.
  abbrev pub IsOf : (dataset schema : String) → KnowledgeEntry x → Type 0
  IsOf dataset schema e = (e.dataset_id ≡ dataset) ⊎ (e.schema_ref ≡ schema)

  registered-keeps :
      (dataset schema words : String) (e : KnowledgeEntry x) (rules : Result StoreError (Unit {0}))
      → registered x dataset schema words e rules ≡ ok tt
      → IsOf dataset schema e
      → (e.schema_ref ≡ schema) × (rules ≡ ok tt)
  registered-keeps dataset schema words e rules h (inl p) =
      let same = ap (λ t. str_eq t dataset) p ∙ str_eq_refl dataset in
      (ground (arith, h, same, eq_iff e.schema_ref schema), ground (arith, h, same))
  registered-keeps dataset schema words e rules h (inr p) =
      let same = ap (λ t. str_eq t schema) p ∙ str_eq_refl schema in (p, ground (arith, h, same))

  keeps-registered :
      (dataset schema words : String) (e : KnowledgeEntry x) (rules : Result StoreError (Unit {0}))
      → (IsOf dataset schema e → (e.schema_ref ≡ schema) × (rules ≡ ok tt))
      → registered x dataset schema words e rules ≡ ok tt
  keeps-registered dataset schema words e rules k = elim (Bool-cases (str_eq e.schema_ref schema)) [
    | inl p ↦
        let q = (k (inr (ground (arith, p, eq_iff e.schema_ref schema)))).1 in ground (arith, p, q)
    | inr p ↦ elim (Bool-cases (str_eq e.dataset_id dataset)) [
      | inl q ↦
          let r = (k (inl (ground (arith, q, eq_iff e.dataset_id dataset)))).0 in
          let same = ap (λ t. str_eq t schema) r ∙ str_eq_refl schema in ground (arith, p, same)
      | inr q ↦ ground (arith, p, q)
    ]
  ]

  mapped :
      (r : Result _ (Unit {0}))
      → r ≡ ok tt
      → map_err {F = StoreError} validation (map_err mcp_refused r) ≡ ok tt
  mapped r h = ap (λ r. map_err validation (map_err mcp_refused r)) h

  -- The registries' rules: an entry of a registry names its schema and is valid; an approved server
  -- in force has its whole approval.
  pub record KeepsRegistries (e : KnowledgeEntry x) : Type 0 where
    pub server :
        IsOf mcp_servers_dataset_id mcp_server_schema_ref e
        → (e.schema_ref ≡ mcp_server_schema_ref)
          × ((attributed : Bool) × IsInForce e.status attributed
              × (validate_mcp_server_entry x e.payload attributed ≡ ok tt))
    pub pack :
        IsOf mcp_packs_dataset_id mcp_pack_schema_ref e
        → (e.schema_ref ≡ mcp_pack_schema_ref) × (validate_mcp_pack_payload x e.payload ≡ ok tt)

  rules-Keeps :
      (e : KnowledgeEntry x) → server_rules x e ≡ ok tt → pack_rules x e ≡ ok tt → KeepsRegistries e
  rules-Keeps e h k = record {
    server = λ of.
        let (named, valid) =
          registered-keeps mcp_servers_dataset_id mcp_server_schema_ref _ e _ h of in
        (named, (in_force e.status, in_force-IsInForce e.status, mapped-ok x _ valid));
    pack = λ of.
        let (named, valid) = registered-keeps mcp_packs_dataset_id mcp_pack_schema_ref _ e _ k of in
        (named, mapped-ok x _ valid);
  }

  Keeps-server : (e : KnowledgeEntry x) → KeepsRegistries e → server_rules x e ≡ ok tt
  Keeps-server e k = keeps-registered mcp_servers_dataset_id mcp_server_schema_ref _ e _ (λ of.
      let (named, (b, force, valid)) = k.server of in
      (
        named,
        mapped _
            (ap (λ b. validate_mcp_server_entry x e.payload b) (IsInForce-in_force force) ∙ valid),
      ))

  Keeps-pack : (e : KnowledgeEntry x) → KeepsRegistries e → pack_rules x e ≡ ok tt
  Keeps-pack e k =
      keeps-registered mcp_packs_dataset_id mcp_pack_schema_ref _ e _
        (λ of. let (named, valid) = k.pack of in (named, mapped _ valid))

  abbrev pub SavedKnowledge : KnowledgeEntry x → String → Store x → List (Snapshot x) → Type 0
  SavedKnowledge e now s snaps =
      Saved x e.dataset_id (x.digest e.payload) e.payload now s.knowledge_snapshots snaps

  -- A knowledge entry is added exactly when its dataset exists and holds knowledge or laws, its
  -- schema is not blank, a language model's states the status draft or rejected, its payload shows
  -- no credentials, it keeps the rules of the registries of MCP servers and packs, the importer
  -- accepts it and no row has its key. Its row is then the last one, a snapshot of its payload is
  -- appended unless its dataset has one under the same digest, and nothing else changes.
  pub add_knowledge_entry_iff :
      (importer : Importer x) (lookup : String → Option x.Json) (e : KnowledgeEntry x)
      (now : String) (s s' : Store x)
      → (add_knowledge_entry x importer lookup e now s ≡ ok s') ↔ (
          (ds : RuleDataset x) × (snaps : List (Snapshot x)) × (get_dataset x e.dataset_id s
            ≡ some ds)
          × ((ds.dataset_kind ≡ knowledge) ⊎ (ds.dataset_kind ≡ law_set))
          × (is_empty (trim (codes e.schema_ref)) ≡ false)
          × MayEnter (knowledge_is_llm x e) (unwrap_or e.status active) none
          × (scan_credentials (x.to_text e.payload) ≡ [])
          × KeepsRegistries e
          × (importer e lookup ≡ ok tt)
          × (any (knowledge_key x e.dataset_id e.entry_id e.version) s.knowledge_entries ≡ false)
          × SavedKnowledge e now s snaps
          × (s' ≡ record s {
            knowledge_snapshots = snaps;
            knowledge_entries = s.knowledge_entries ++ e ∷ [];
          }))
  add_knowledge_entry_iff importer lookup e now s s' = (
    λ h.
        let (ds, a, w) = add-Admissible x importer lookup e now s s' h in
        (
          ds,
          put_knowledge_snapshot x e now s.knowledge_snapshots,
          a.found,
          knowledge_kind ds.dataset_kind a.of_knowledge,
          a.schema,
          (boundary_iff (knowledge_is_llm x e) e.entry_id (unwrap_or e.status active) none).0
              a.boundary,
          scan_clean x e.payload a.clean,
          rules-Keeps e a.as_server a.as_pack,
          a.imported,
          a.fresh,
          put-Saved x e.dataset_id (x.digest e.payload) e.payload now s.knowledge_snapshots,
          w,
        ),
    λ (ds, snaps, found, kind, schema, enters, clean, keeps, imported, fresh, saved, w).
        Admissible-inserted x importer lookup e now s ds (record {
          found = found;
          of_knowledge = kind_knowledge ds.dataset_kind kind;
          schema = schema;
          boundary =
              (boundary_iff (knowledge_is_llm x e) e.entry_id (unwrap_or e.status active) none).1
                enters;
          clean = clean_scan x e.payload clean;
          as_server = Keeps-server e keeps;
          as_pack = Keeps-pack e keeps;
          imported = imported;
          fresh = fresh;
        })
        ∙ ap ok (
            ap
              (λ t. record s {
                knowledge_snapshots = t;
                knowledge_entries = s.knowledge_entries ++ e ∷ [];
              })
              (Saved-put x e.dataset_id (x.digest e.payload) e.payload now saved)
            ∙ sym w),
  )
