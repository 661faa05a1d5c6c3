-- ===== src/Validate/Ingest/Contract.antt =====
-- The check of the ingest contract against a description of it.
use evorule_rule.Prelude.{
  ◌++◌, Text, String, ◌≡◌, ◌≢◌, refl, ◌↔◌, ◌⊎◌, inl, inr, Bool, true, false, Option, none, some, ok,
  codes, is_empty, arith, eq_iff, Option-cases, Bool-cases, not, ◌&&◌, ap, sym, ◌∙◌, subst, ◌||◌,
  Result, guard, ◌>>◌, opt_eq, str_eq,
}
use evorule_rule.External.{Externals}
use evorule_rule.Model.Entry.{KnowledgeEntry}
use evorule_rule.Validate.Ingest.Kinds.{
  IsKind, IsLevel, known_kind-IsKind, IsKind-known_kind, fits_sound, fits_complete, IsLevel-sound,
  IsLevel-complete, external_sound, external_rest,
}
use evorule_rule.Validate.Ingest.{
  known_kind, is_external, check_kind, check_trust, check_contract, validate_ingest_contract,
}

-- A kind that is known, a verdict only of a language model, and no built-in schema but that of the
-- kind.
pub record FitsKind (kind : String) (trust : Option String) (schema_ref : String) : Type 0 where
  pub known : IsKind kind
  pub verdict : kind ≡ "verdict" → trust ≡ some "llm"
  pub schema :
      (name : Text) → codes schema_ref ≡ codes "builtin:knowledge/" ++ name → name ≡ codes kind

-- A verdict of nothing else than "llm" is refused.
from_llm :
    (verdict : Bool) (trust : Option String)
    → not (verdict && not (opt_eq trust (some "llm"))) ≡ true
    → verdict ≡ true
    → trust ≡ some "llm"
from_llm verdict none h v = cc
from_llm verdict (some t) h v = ap some ((eq_iff t "llm").0 (kept verdict (str_eq t "llm") h v))
  where
    kept : (a b : Bool) → not (a && not b) ≡ true → a ≡ true → b ≡ true
    kept a b h e = ground arith

is_llm : (trust : Option String) → trust ≡ some "llm" → opt_eq trust (some "llm") ≡ true
is_llm trust e = ap (λ t. opt_eq t (some "llm")) e

three :
    {E : Type 0} (a b c : Bool) (e f g : E)
    → (guard a e >> (guard b f >> guard c g)) ≡ ok tt
    → (a ≡ true) × (b ≡ true) × (c ≡ true)
three a b c e f g h = (ground arith, ground arith, ground arith)

kind_sound :
    (kind : String) (trust : Option String) (schema_ref : String)
    → check_kind (some kind) trust schema_ref ≡ ok tt
    → FitsKind kind trust schema_ref
unfolding check_kind
kind_sound kind trust schema_ref h =
    let (k, v, s) = three (known_kind kind) _ _ _ _ _ h in
    record {
      known = known_kind-IsKind kind k;
      verdict = λ e. from_llm (str_eq kind "verdict") trust v ((eq_iff kind "verdict").1 e);
      schema = fits_sound kind schema_ref s;
    }

not_verdict : (verdict llm : Bool) → (verdict ≡ true → llm ≡ true) → not (verdict && not llm) ≡ true
not_verdict verdict llm h = ground (arith, h)

kind_complete :
    (kind : String) (trust : Option String) (schema_ref : String)
    → FitsKind kind trust schema_ref
    → check_kind (some kind) trust schema_ref ≡ ok tt
unfolding check_kind
kind_complete kind trust schema_ref f = ground (
  arith,
  IsKind-known_kind kind f.known,
  fits_complete kind schema_ref f.schema,
  not_verdict (str_eq kind "verdict") (opt_eq trust (some "llm"))
      (λ e. is_llm trust (f.verdict ((eq_iff kind "verdict").0 e))),
)

-- A known level, and a licence where the source is external.
pub record FitsTrust (level : String) (license : Option String) : Type 0 where
  pub valid : IsLevel level
  pub licensed : (source : Text) → codes level ≡ codes "external:" ++ source → license ≢ none

trust_sound :
    (level : String) (license : Option String)
    → check_trust (some level) license ≡ ok tt
    → FitsTrust level license
unfolding check_trust
trust_sound level license h = record {
  valid = IsLevel-sound level (ground arith);
  licensed = λ source e n. let t = external_sound level source e in ground (arith, t, n, h);
}

trust_complete :
    (level : String) (license : Option String)
    → FitsTrust level license
    → check_trust (some level) license ≡ ok tt
unfolding check_trust
trust_complete level license f = elim (Option-cases license) [
  | inl n ↦ elim (Bool-cases (is_external level)) [
    | inl e ↦ (let (source, q) = external_rest level e in absurd (f.licensed source q n))
    | inr e ↦ ground (arith, IsLevel-complete level f.valid, e, n)
  ]
  | inr (l, n) ↦ ground (arith, IsLevel-complete level f.valid, n)
]

-- One of the three pathways.
abbrev pub Pathway : String → Type 0
Pathway s = (s ≡ "direct") ⊎ ((s ≡ "injection") ⊎ (s ≡ "criterion"))

either : (a b c : Bool) → (a || b || c) ≡ true → (a ≡ true) ⊎ ((b ≡ true) ⊎ (c ≡ true))
either true b c h = inl refl
either false true c h = inr (inl refl)
either false false c h = inr (inr h)

Pathway-sound :
    (s : String)
    → (str_eq s "direct" || str_eq s "injection" || str_eq s "criterion") ≡ true
    → Pathway s
Pathway-sound s h =
    elim (either (str_eq s "direct") (str_eq s "injection") (str_eq s "criterion") h) [
      | inl e ↦ inl ((eq_iff s "direct").0 e)
      | inr (inl e) ↦ inr (inl ((eq_iff s "injection").0 e))
      | inr (inr e) ↦ inr (inr ((eq_iff s "criterion").0 e))
    ]

Pathway-complete :
    (s : String)
    → Pathway s
    → (not (str_eq s "") ≡ true)
      × ((str_eq s "direct" || str_eq s "injection" || str_eq s "criterion") ≡ true)
Pathway-complete s (inl e) =
    subst
      (λ u.
        (not (str_eq u "") ≡ true)
        × ((str_eq u "direct" || str_eq u "injection" || str_eq u "criterion") ≡ true))
      (sym e) (refl, refl)
Pathway-complete s (inr (inl e)) =
    subst
      (λ u.
        (not (str_eq u "") ≡ true)
        × ((str_eq u "direct" || str_eq u "injection" || str_eq u "criterion") ≡ true))
      (sym e) (refl, refl)
Pathway-complete s (inr (inr e)) =
    subst
      (λ u.
        (not (str_eq u "") ≡ true)
        × ((str_eq u "direct" || str_eq u "injection" || str_eq u "criterion") ≡ true))
      (sym e) (refl, refl)

both :
    {E : Type 0} (r s t : Result E (Unit {0}))
    → (r >> s >> t) ≡ ok tt
    → (r ≡ ok tt) × (s ≡ ok tt) × (t ≡ ok tt)
both r s t h = (ground arith, ground arith, ground arith)

kinds_checked :
    (o : Option String) (trust : Option String) (schema_ref : String)
    → ((k : String) → o ≡ some k → FitsKind k trust schema_ref)
    → check_kind o trust schema_ref ≡ ok tt
unfolding check_kind
kinds_checked none trust schema_ref f = refl
kinds_checked (some k) trust schema_ref f = kind_complete k trust schema_ref (f k refl)

trusts_checked :
    (o : Option String) (license : Option String)
    → ((t : String) → o ≡ some t → FitsTrust t license)
    → check_trust o license ≡ ok tt
unfolding check_trust
trusts_checked none license f = refl
trusts_checked (some t) license f = trust_complete t license (f t refl)

module _ (x : Externals) where
  -- One of the three pathways, and somebody who may consume.
  pub record FitsContract (c : x.ExecutionContract) : Type 0 where
    pub known_pathway : Pathway (x.pathway c)
    pub consumed : is_empty (x.consumer_allowlist c) ≡ false

  -- What an entry declares of itself, where it declares it.
  pub record Declares (e : KnowledgeEntry x) : Type 0 where
    pub kind : (k : String) → e.knowledge_kind ≡ some k → FitsKind k e.trust_level e.schema_ref
    pub trust : (t : String) → e.trust_level ≡ some t → FitsTrust t e.license_ref
    pub contract : (c : x.ExecutionContract) → e.execution_contract ≡ some c → FitsContract c

  contract_sound : (c : x.ExecutionContract) → check_contract x (some c) ≡ ok tt → FitsContract c
  unfolding check_contract
  contract_sound c h =
      let (n, p, m) = three (not (str_eq (x.pathway c) "")) _ _ _ _ _ h in
      record { known_pathway = Pathway-sound (x.pathway c) p; consumed = ground (arith, m) }

  contract_complete : (c : x.ExecutionContract) → FitsContract c → check_contract x (some c) ≡ ok tt
  unfolding check_contract
  contract_complete c f =
      let (n, p) = Pathway-complete (x.pathway c) f.known_pathway in
      ground (arith, n, p, f.consumed)

  contracts_checked :
      (o : Option x.ExecutionContract)
      → ((c : x.ExecutionContract) → o ≡ some c → FitsContract c)
      → check_contract x o ≡ ok tt
  unfolding check_contract
  contracts_checked none f = refl
  contracts_checked (some c) f = contract_complete c (f c refl)

  ingest_sound : (e : KnowledgeEntry x) → validate_ingest_contract x e ≡ ok tt → Declares e
  unfolding validate_ingest_contract
  ingest_sound e h =
      let (k, t, c) =
        both (check_kind e.knowledge_kind e.trust_level e.schema_ref)
          (check_trust e.trust_level e.license_ref) (check_contract x e.execution_contract) h in
      record {
        kind = λ v p.
            kind_sound v e.trust_level e.schema_ref
              (ap (λ o. check_kind o e.trust_level e.schema_ref) (sym p) ∙ k);
        trust =
            λ v p. trust_sound v e.license_ref (ap (λ o. check_trust o e.license_ref) (sym p) ∙ t);
        contract = λ v p. contract_sound v (ap (check_contract x) (sym p) ∙ c);
      }

  ingest_complete : (e : KnowledgeEntry x) → Declares e → validate_ingest_contract x e ≡ ok tt
  unfolding validate_ingest_contract
  ingest_complete e d = ground (
    arith,
    kinds_checked e.knowledge_kind e.trust_level e.schema_ref d.kind,
    trusts_checked e.trust_level e.license_ref d.trust,
    contracts_checked e.execution_contract d.contract,
  )

  -- The contract of an entry is complete exactly where each thing that it declares fits: a known
  -- kind, a verdict from a model and the built-in schema of the kind; a known level of trust, and a
  -- licence for an external source; one of the three pathways and somebody who may consume.
  pub validate_ingest_contract_iff :
      (e : KnowledgeEntry x) → (validate_ingest_contract x e ≡ ok tt) ↔ Declares e
  validate_ingest_contract_iff e = (ingest_sound e, ingest_complete e)
