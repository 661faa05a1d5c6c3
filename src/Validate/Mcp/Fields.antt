-- ===== src/Validate/Mcp/Fields.antt =====
-- The fields of an object of `serde_json`: what is read after an insertion, and that keys stay
-- distinct.
use evorule_rule.Prelude.{
  subst, ◌≡◌, refl, sym, ap, ◌∙◌, inl, inr, false, none, some, List, [], ◌∷◌, Text, if◌then◌else◌,
  Bool-cases, arith,
}
use evorule_rule.Chars.{text_eq}
use evorule_rule.Chars.Laws.{text_eq_refl, text_eq-eq}
use evorule_rule.Validate.Mcp.{get, insert}

pub get-insert :
    {J : Type 0} (key : Text) (v : J) (obj : List (Text × J)) → get key (insert key v obj) ≡ some v
get-insert key v [] = ground (arith, text_eq_refl key)
get-insert key v (field ∷ obj) = ground (arith, text_eq_refl key, get-insert key v obj)

pub get-insert_other :
    {J : Type 0} (key other : Text) (v : J) (obj : List (Text × J))
    → text_eq key other ≡ false
    → get other (insert key v obj) ≡ get other obj
get-insert_other key other v [] apart = ground (arith, apart)
get-insert_other key other v (field ∷ obj) apart = elim (Bool-cases (text_eq field.0 key)) [
  | inl e ↦ ground (arith, apart, e, ap (λ k. text_eq k other) (text_eq-eq field.0 key e))
  | inr e ↦ ground (arith, e, get-insert_other key other v obj apart)
]

text_eq_apart : (s t : Text) → text_eq s t ≡ false → text_eq t s ≡ false
text_eq_apart s t h = elim (Bool-cases (text_eq t s)) [
  | inr e ↦ e
  | inl e ↦ cc (sym h ∙ ap (λ k. text_eq s k) (text_eq-eq t s e) ∙ text_eq_refl s)
]

-- No key stands in two fields.
abbrev pub DistinctKeys : {J : Type 0} → List (Text × J) → Type 0
DistinctKeys [] = Unit
DistinctKeys (field ∷ obj) = (get field.0 obj ≡ none) × DistinctKeys obj

pub insert-Distinct :
    {J : Type 0} (key : Text) (v : J) (obj : List (Text × J))
    → DistinctKeys obj
    → DistinctKeys (insert key v obj)
insert-Distinct key v [] d = (refl, tt)
insert-Distinct key v (field ∷ obj) d = elim (Bool-cases (text_eq field.0 key)) [
  | inl e ↦
      subst (λ b. DistinctKeys (if b then (key, v) ∷ obj else field ∷ insert key v obj)) (sym e)
        (subst (λ k. get k obj ≡ none) (text_eq-eq field.0 key e) d.0, d.1)
  | inr e ↦
      subst (λ b. DistinctKeys (if b then (key, v) ∷ obj else field ∷ insert key v obj)) (sym e)
        (
          get-insert_other key field.0 v obj (text_eq_apart field.0 key e) ∙ d.0,
          insert-Distinct key v obj d.1,
        )
]
