-- ===== src/Gate/Tier.antt =====
-- The tier of a report against a description of what blocks an entry and what lowers its tier.
use evorule_rule.Prelude.{
  ◌*◌, ◌≤◌, ◌<◌, String, ◌≡◌, refl, ap, sym, eq_iff, str_eq, ◌∙◌, ◌==◌, ◌≢◌, ◌↔◌, ◌⊎◌, inl, inr,
  Bool, true, false, some, arith, Bool-cases, Option-cases, ◌&&◌, ◌||◌,
}
use evorule_rule.External.{Externals}
use evorule_rule.Store.Entries.{is_machine_tier}
use evorule_rule.Gate.{
  GateInput, evaluate, schema_ok, snapshot_ok, conflict_ok, rollback_ok, bindings,
  impact_downgrades, reputation_downgrades,
}

abbrev verdict : Bool → Bool → String
verdict true true = "T1"
verdict true false = "T0"
verdict false high = "T2"

clash {ℓ} : {A : Type ℓ} {a b : String} → a ≡ b → str_eq a b ≡ false → A
clash {a = a} {b} e n = absurd (ground (arith, eq_iff a b))

machine_verdict : (b c : Bool) → is_machine_tier (verdict b c) ≡ b
machine_verdict true true = refl
machine_verdict true false = refl
machine_verdict false c = refl

module _ (x : Externals) where
  -- What the gate asks of an entry: its schema holds, another active entry does not have its
  -- content, and the version before it, if there is one, is there with its snapshot.
  pub record Passes (input : GateInput x) : Type 0 where
    pub schema : schema_ok x input ≡ true
    pub unique : input.probe.active_same_hash ≡ 0
    pub continuous :
        input.version ≢ 1
        → ((hash : String) × (input.probe.prev_version_hash ≡ some hash))
          × (input.probe.prev_snapshot_exists ≡ some true)

  -- What lowers the tier: a large dataset, many bindings, or at least four model operations of which
  -- more than half failed.
  abbrev pub HighImpact : GateInput x → Type 0
  HighImpact input =
      (50 < input.probe.dataset_entry_count)
      ⊎ ((3 < bindings x input.rule_entry)
          ⊎ ((4 ≤ input.llm_total) × (input.llm_total < 2 * input.llm_failed)))

  -- The Boolean form of `Passes`, as the six checks compute it.
  abbrev clear : GateInput x → Bool
  clear input =
      schema_ok x input && snapshot_ok x input && conflict_ok x input && rollback_ok x input

  abbrev high : GateInput x → Bool
  high input = impact_downgrades x input || reputation_downgrades x input

  tier_cases : (input : GateInput x) → (evaluate x input).tier ≡ verdict (clear input) (high input)
  unfolding evaluate
  tier_cases input = ground arith

  clear_sound : (input : GateInput x) → clear input ≡ true → Passes input
  unfolding snapshot_ok conflict_ok
  clear_sound input h = record {
    schema = ground arith;
    unique = ground arith;
    continuous = λ v. elim (Option-cases input.probe.prev_version_hash) [
      | inl n ↦ ground arith
      | inr (hash, e) ↦ ((hash, e), ground arith)
    ];
  }

  clear_complete : (input : GateInput x) → Passes input → clear input ≡ true
  unfolding snapshot_ok conflict_ok rollback_ok
  clear_complete input p = elim (Bool-cases (input.version == 1)) [
    | inl e ↦ ground (arith, p.schema, p.unique)
    | inr e ↦
        let ((hash, h), s) = p.continuous (λ v. ground arith) in
        ground (arith, p.schema, p.unique, h, s)
  ]

  high_sound : (input : GateInput x) → high input ≡ true → HighImpact input
  unfolding impact_downgrades reputation_downgrades
  high_sound input h = ground arith

  high_complete : (input : GateInput x) → HighImpact input → high input ≡ true
  unfolding impact_downgrades reputation_downgrades
  high_complete input h = ground arith

  -- The gate gives T0 exactly to an entry that passes and has no high impact, T1 exactly to one that
  -- passes and has high impact, and T2 exactly to one that does not pass.
  pub tier_iff :
      (input : GateInput x)
      → (((evaluate x input).tier ≡ "T0") ↔ (Passes input × (HighImpact input → ⊥)))
        × (((evaluate x input).tier ≡ "T1") ↔ (Passes input × HighImpact input))
        × (((evaluate x input).tier ≡ "T2") ↔ (Passes input → ⊥))
  tier_iff input = elim (Bool-cases (clear input)) [
    | inr e ↦
        let t = tier_cases input ∙ ap (λ b. verdict b (high input)) e in
        let n : Passes input → ⊥ = λ p. cc (clear_complete input p, e) in
        (
          ((λ h. clash (sym t ∙ h) refl), λ (p, u). absurd (n p)),
          ((λ h. clash (sym t ∙ h) refl), λ (p, u). absurd (n p)),
          ((λ h. n), λ m. t),
        )
    | inl e ↦
        let p = clear_sound input e in
        elim (Bool-cases (high input)) [
          | inl f ↦
              let t = tier_cases input ∙ ap (λ b. verdict b (high input)) e ∙ ap (verdict true) f in
              (
                ((λ h. clash (sym t ∙ h) refl), λ (q, n). absurd (n (high_sound input f))),
                ((λ h. (p, high_sound input f)), λ q. t),
                ((λ h. clash (sym t ∙ h) refl), λ n. absurd (n p)),
              )
          | inr f ↦
              let t = tier_cases input ∙ ap (λ b. verdict b (high input)) e ∙ ap (verdict true) f in
              let n : HighImpact input → ⊥ = λ i. cc (high_complete input i, f) in
              (
                ((λ h. (p, n)), λ q. t),
                ((λ h. clash (sym t ∙ h) refl), λ (q, i). absurd (n i)),
                ((λ h. clash (sym t ∙ h) refl), λ m. absurd (m p)),
              )
        ]
  ]

  -- The machine path of the transitions takes the gate's tier exactly where the entry passes.
  pub is_machine_tier-evaluate :
      (input : GateInput x) → (is_machine_tier (evaluate x input).tier ≡ true) ↔ Passes input
  is_machine_tier-evaluate input =
      let t = ap is_machine_tier (tier_cases input) ∙ machine_verdict (clear input) (high input) in
      ((λ h. clear_sound input (sym t ∙ h)), λ p. t ∙ clear_complete input p)
