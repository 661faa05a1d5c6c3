-- ===== src/Validate/Symbols/Agreement.antt =====
-- What the check of the symbols asks for: of the services that the body calls it asks nothing.
use evorule_rule.Prelude.{
  String, ◌≡◌, refl, ◌↔◌, true, false, List, [], ◌∷◌, ok, arith, All, is_empty,
}
use evorule_rule.External.{Externals}
use evorule_rule.Model.Entry.{RuleEntry}
use evorule_rule.Model.Dataset.{RuleDataset}
use evorule_rule.Validate.Symbols.{
  mentions, declared_services, check_bindings, validate_symbol_consistency,
}

module _ (x : Externals) where
  -- A body with dynamic references needs some declared service, and each binding names a service
  -- that the dataset declares and the body calls.
  pub record Agrees (ds : RuleDataset x) (e : RuleEntry x) : Type 0 where
    pub dynamic_declared :
        x.has_dynamic_service_ref e.rule_body ≡ true → is_empty (declared_services x ds) ≡ false
    pub bound :
        All
          (λ b.
            (mentions (x.service_name b) (declared_services x ds) ≡ true)
            × (mentions (x.service_name b) (x.io_services_from_rule_body e.rule_body) ≡ true))
          e.data_source_binding

  -- A binding that the dataset declares and the body calls.
  abbrev Bound : List String → List String → x.SourceBinding → Type 0
  Bound declared body b =
      (mentions (x.service_name b) declared ≡ true) × (mentions (x.service_name b) body ≡ true)

  bindings_sound :
      (dataset : String) (declared body : List String) (bs : List x.SourceBinding)
      → check_bindings x dataset declared body bs ≡ ok tt
      → All (Bound declared body) bs
  bindings_sound dataset declared body [] h = tt
  bindings_sound dataset declared body (b ∷ bs) h =
      ((ground arith, ground arith), bindings_sound dataset declared body bs (ground arith))

  bindings_complete :
      (dataset : String) (declared body : List String) (bs : List x.SourceBinding)
      → All (Bound declared body) bs
      → check_bindings x dataset declared body bs ≡ ok tt
  bindings_complete dataset declared body [] h = refl
  bindings_complete dataset declared body (b ∷ bs) h =
      ground (arith, bindings_complete dataset declared body bs h.1)

  consistency_sound :
      (ds : RuleDataset x) (e : RuleEntry x)
      → validate_symbol_consistency x ds e ≡ ok tt
      → Agrees ds e
  unfolding validate_symbol_consistency
  consistency_sound ds e h = record {
    dynamic_declared = λ d. ground arith;
    bound = bindings_sound ds.dataset_id _ _ e.data_source_binding (ground arith);
  }

  consistency_complete :
      (ds : RuleDataset x) (e : RuleEntry x)
      → Agrees ds e
      → validate_symbol_consistency x ds e ≡ ok tt
  unfolding validate_symbol_consistency
  consistency_complete ds e a = ground (
    arith,
    a.dynamic_declared,
    bindings_complete ds.dataset_id (declared_services x ds)
        (x.io_services_from_rule_body e.rule_body) e.data_source_binding a.bound,
  )

  -- The check passes exactly when a body with dynamic references has some declared service and each
  -- binding names a declared service that the body calls.
  pub consistency_iff :
      (ds : RuleDataset x) (e : RuleEntry x)
      → (validate_symbol_consistency x ds e ≡ ok tt) ↔ Agrees ds e
  consistency_iff ds e = (consistency_sound ds e, consistency_complete ds e)
