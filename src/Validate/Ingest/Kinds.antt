-- ===== src/Validate/Ingest/Kinds.antt =====
-- The kinds, the levels of trust and the built-in schemas of knowledge entries, described apart from
-- the tests of src/model/knowledge.rs.
use evorule_rule.Chars.{starts_with, text_eq}
use evorule_rule.Chars.Laws.{text_eq_refl, text_eq-eq, starts_with-append, starts_with-rest}
use evorule_rule.Prelude.{
  ℕ, [], ◌∷◌, ◌++◌, Text, drop, length, if◌then◌else◌, String, ◌≡◌, refl, inl, inr, Bool, true,
  false, Option, none, some, codes, arith, eq_iff, Option-cases, Bool-cases, ap, sym, ◌∙◌, ◌||◌,
  str_eq,
}
use evorule_rule.Validate.Ingest.{
  known_kind, fits_schema, strip_prefix, is_some_text, is_valid_trust_level, is_external,
}

-- A text that is the prefix and something more.
abbrev pub Extends : String → String → Type 0
Extends prefix s = (c : ℕ) × (rest : Text) × (codes s ≡ codes prefix ++ (c ∷ rest))

-- One of the seven kinds, or a custom one with a name.
pub data IsKind (kind : String) : Type 0 where
  is_fact : kind ≡ "fact" → IsKind kind
  is_procedure : kind ≡ "procedure" → IsKind kind
  is_heuristic : kind ≡ "heuristic" → IsKind kind
  is_narrative : kind ≡ "narrative" → IsKind kind
  is_model : kind ≡ "model" → IsKind kind
  is_verdict : kind ≡ "verdict" → IsKind kind
  is_preference : kind ≡ "preference" → IsKind kind
  is_custom : Extends "custom:" kind → IsKind kind

some-inj : (a b : Text) → ◌≡◌ {A = Option Text} (some a) (some b) → a ≡ b
some-inj a b h = ground (arith, h)

drop-append : (p s : Text) → drop (length p) (p ++ s) ≡ s
drop-append [] s = refl
drop-append (c ∷ p) s = drop-append p s

strip-append : (s p r : Text) → s ≡ p ++ r → strip_prefix s p ≡ some r
strip-append s p r e =
    ap (λ t. strip_prefix t p) e
    ∙ ap (λ b. if b then some (drop (length p) (p ++ r)) else none) (starts_with-append p r)
    ∙ ap some (drop-append p r)

strip-rest : (s p r : Text) → strip_prefix s p ≡ some r → s ≡ p ++ r
strip-rest s p r h = elim (Bool-cases (starts_with s p)) [
  | inr e ↦ cc (sym h ∙ ap (λ b. if b then some (drop (length p) s) else none) e)
  | inl e ↦
      let (rest, q) = starts_with-rest s p e in
      q ∙ ap (λ t. p ++ t) (some-inj rest r (sym (strip-append s p rest q) ∙ h))
]

Extends-sound :
    (prefix s : String)
    → is_some_text (strip_prefix (codes s) (codes prefix)) ≡ true
    → Extends prefix s
Extends-sound prefix s h = elim (Option-cases (strip_prefix (codes s) (codes prefix))) [
  | inl n ↦ cc (sym h ∙ ap is_some_text n)
  | inr ([], n) ↦ cc (sym h ∙ ap is_some_text n)
  | inr (c ∷ rest, n) ↦ (c, rest, strip-rest (codes s) (codes prefix) (c ∷ rest) n)
]

Extends-complete :
    (prefix s : String)
    → Extends prefix s
    → is_some_text (strip_prefix (codes s) (codes prefix)) ≡ true
Extends-complete prefix s (c, rest, e) =
    ap is_some_text (strip-append (codes s) (codes prefix) (c ∷ rest) e)

step : (a b : Bool) {C : Type 0} → (a ≡ true → C) → (b ≡ true → C) → (a || b) ≡ true → C
step true b f g h = f refl
step false b f g h = g h

or_right : (a b : Bool) → b ≡ true → (a || b) ≡ true
or_right a b h = ground (arith, h)

pub known_kind-IsKind : (kind : String) → known_kind kind ≡ true → IsKind kind
unfolding known_kind
known_kind-IsKind kind h =
    step _ _
      (step _ _ (λ e. is_fact (sym ((eq_iff "fact" kind).0 e)))
        (step _ _ (λ e. is_procedure (sym ((eq_iff "procedure" kind).0 e)))
          (step _ _ (λ e. is_heuristic (sym ((eq_iff "heuristic" kind).0 e)))
            (step _ _ (λ e. is_narrative (sym ((eq_iff "narrative" kind).0 e)))
              (step _ _ (λ e. is_model (sym ((eq_iff "model" kind).0 e)))
                (step _ _ (λ e. is_verdict (sym ((eq_iff "verdict" kind).0 e)))
                  (step _ _ (λ e. is_preference (sym ((eq_iff "preference" kind).0 e)))
                    (λ e. cc e))))))))
      (λ e. is_custom (Extends-sound "custom:" kind e)) h

pub IsKind-known_kind : (kind : String) → IsKind kind → known_kind kind ≡ true
unfolding known_kind
IsKind-known_kind kind (is_fact e) = ap known_kind e
IsKind-known_kind kind (is_procedure e) = ap known_kind e
IsKind-known_kind kind (is_heuristic e) = ap known_kind e
IsKind-known_kind kind (is_narrative e) = ap known_kind e
IsKind-known_kind kind (is_model e) = ap known_kind e
IsKind-known_kind kind (is_verdict e) = ap known_kind e
IsKind-known_kind kind (is_preference e) = ap known_kind e
IsKind-known_kind kind (is_custom e) = or_right _ _ (Extends-complete "custom:" kind e)

pub fits_sound :
    (kind schema_ref : String)
    → fits_schema kind (strip_prefix (codes schema_ref) (codes "builtin:knowledge/")) ≡ true
    → (name : Text) → codes schema_ref ≡ codes "builtin:knowledge/" ++ name
    → name ≡ codes kind
unfolding fits_schema
fits_sound kind schema_ref h name e = text_eq-eq name (codes kind) (
    ap (fits_schema kind)
      (sym (strip-append (codes schema_ref) (codes "builtin:knowledge/") name e))
    ∙ h)

pub fits_complete :
    (kind schema_ref : String)
    → ((name : Text) → codes schema_ref ≡ codes "builtin:knowledge/" ++ name → name ≡ codes kind)
    → fits_schema kind (strip_prefix (codes schema_ref) (codes "builtin:knowledge/")) ≡ true
unfolding fits_schema
fits_complete kind schema_ref f =
    elim (Option-cases (strip_prefix (codes schema_ref) (codes "builtin:knowledge/"))) [
      | inl n ↦ ap (fits_schema kind) n
      | inr (r, n) ↦
          ap (fits_schema kind) n
          ∙ ap (λ t. text_eq t (codes kind))
              (f r (strip-rest (codes schema_ref) (codes "builtin:knowledge/") r n))
          ∙ text_eq_refl (codes kind)
    ]

-- A human, a language model, or an external source with a name.
pub data IsLevel (level : String) : Type 0 where
  by_human : level ≡ "human" → IsLevel level
  by_llm : level ≡ "llm" → IsLevel level
  from_source : Extends "external:" level → IsLevel level

pub IsLevel-sound : (level : String) → is_valid_trust_level level ≡ true → IsLevel level
unfolding is_valid_trust_level
IsLevel-sound level h =
    step (str_eq level "human" || str_eq level "llm") _
      (step (str_eq level "human") _ (λ e. by_human ((eq_iff level "human").0 e))
        (λ e. by_llm ((eq_iff level "llm").0 e)))
      (λ e. from_source (Extends-sound "external:" level e)) h

pub IsLevel-complete : (level : String) → IsLevel level → is_valid_trust_level level ≡ true
unfolding is_valid_trust_level
IsLevel-complete level (by_human e) = ap is_valid_trust_level e
IsLevel-complete level (by_llm e) = ap is_valid_trust_level e
IsLevel-complete level (from_source e) =
    or_right (str_eq level "human" || str_eq level "llm") _ (Extends-complete "external:" level e)

pub external_sound :
    (level : String) (source : Text)
    → codes level ≡ codes "external:" ++ source
    → is_external level ≡ true
unfolding is_external
external_sound level source e =
    ap (λ t. starts_with t (codes "external:")) e ∙ starts_with-append (codes "external:") source

pub external_rest :
    (level : String)
    → is_external level ≡ true
    → (source : Text) × (codes level ≡ codes "external:" ++ source)
unfolding is_external
external_rest level h = starts_with-rest (codes level) (codes "external:") h
