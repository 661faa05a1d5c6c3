-- ===== src/Validate/Law/Formula.antt =====
-- The formula check against a description of an equation.
use evorule_rule.Prelude.{
  ℕ, ◌≤◌, ◌≡◌, refl, ap, ◌∙◌, ◌↔◌, ◌⊎◌, inl, inr, Bool, true, false, List, [], ◌∷◌, ◌++◌, Text, ok,
  length, arith, all, not, ◌==◌, Bool-cases, is_empty, subst, Result, guard, ltb, ◌>>◌,
}
use evorule_rule.Chars.{trim}
use evorule_rule.Validate.Law.{
  LawError, formula_too_short, normalize, split_equals, check_sides, validate_law_formula,
}

-- A text without `=`.
abbrev pub lacks : Text → Bool
lacks = all (λ c. not (c == b'='))

-- A split has a first part.
split-cons : (s : Text) → (p : Text) × (ps : List Text) × (split_equals s ≡ p ∷ ps)
unfolding split_equals
split-cons [] = ([], [], refl)
split-cons (c ∷ s) =
    let (p, ps, e) = split-cons s in
    elim (Bool-cases (c == b'=')) [
      | inl q ↦ ([], p ∷ ps, ground (arith, e, q))
      | inr q ↦ (c ∷ p, ps, ground (arith, e, q))
    ]

one_part : (s b : Text) → split_equals (normalize false s) ≡ b ∷ [] → (s ≡ b) × (lacks b ≡ true)
unfolding split_equals normalize
one_part [] b h = (ground arith, ground arith)
one_part (c ∷ s) b h =
    let (p, ps, e) = split-cons (normalize (c == b'=') s) in
    elim (Bool-cases (c == b'=')) [
      | inl q ↦ ground (arith, e, q)
      | inr q ↦
          let (r, l) = one_part s p (ground (arith, e, q)) in
          (ground (arith, e, q, r), ground (arith, e, q, l))
    ]

-- Behind a first `=`, a second one belongs to the separator.
behind_equals :
    (s b : Text)
    → split_equals (normalize true s) ≡ b ∷ []
    → ((s ≡ b) ⊎ (s ≡ b'=' ∷ b)) × (lacks b ≡ true)
unfolding split_equals normalize
behind_equals [] b h = (inl (ground arith), ground arith)
behind_equals (c ∷ s) b h = elim (Bool-cases (c == b'=')) [
  | inl q ↦ let (r, l) = one_part s b (ground (arith, q)) in (inr (ground (arith, q, r)), l)
  | inr q ↦
      let (p, ps, e) = split-cons (normalize false s) in
      let (r, l) = one_part s p (ground (arith, e, q)) in
      (inl (ground (arith, e, q, r)), ground (arith, e, q, l))
]

-- Two texts without `=` around one separator, `=` or `==`.
pub record Equation (s l r : Text) : Type 0 where
  pub separated : (s ≡ l ++ b'=' ∷ r) ⊎ (s ≡ l ++ b'=' ∷ b'=' ∷ r)
  pub left : lacks l ≡ true
  pub right : lacks r ≡ true

grown : (c : ℕ) (s l r : Text) → (c == b'=') ≡ false → Equation s l r → Equation (c ∷ s) (c ∷ l) r
grown c s l r q e = record {
  separated = elim e.separated [
    | inl h ↦ inl (ground (arith, h))
    | inr h ↦ inr (ground (arith, h))
  ];
  left = ground (arith, q, e.left);
  right = e.right;
}

two_parts : (s l r : Text) → split_equals (normalize false s) ≡ l ∷ r ∷ [] → Equation s l r
unfolding split_equals normalize
two_parts [] l r h = ground arith
two_parts (c ∷ s) l r h =
    let (p, ps, e) = split-cons (normalize (c == b'=') s) in
    elim (Bool-cases (c == b'=')) [
      | inl q ↦
          let (d, k) = behind_equals s r (ground (arith, q)) in
          record {
            separated = elim d [
              | inl m ↦ inl (ground (arith, q, m))
              | inr m ↦ inr (ground (arith, q, m))
            ];
            left = ground (arith, q);
            right = k;
          }
      | inr q ↦
          subst (λ m. Equation (c ∷ s) m r) (ground (arith, e, q))
            (grown c s p r q (two_parts s p r (ground (arith, e, q))))
    ]

no_split : (r : Text) → lacks r ≡ true → split_equals (normalize false r) ≡ r ∷ []
unfolding split_equals normalize
no_split [] h = refl
no_split (c ∷ r) h = ground (arith, no_split r)

no_split_behind : (r : Text) → lacks r ≡ true → split_equals (normalize true r) ≡ r ∷ []
unfolding split_equals normalize
no_split_behind [] h = refl
no_split_behind (c ∷ r) h = ground (arith, no_split r)

split-single :
    (l r : Text)
    → lacks l ≡ true
    → lacks r ≡ true
    → split_equals (normalize false (l ++ b'=' ∷ r)) ≡ l ∷ r ∷ []
unfolding split_equals normalize
split-single [] r h k = ground (arith, no_split_behind r k)
split-single (c ∷ l) r h k = ground (arith, split-single l r)

split-double :
    (l r : Text)
    → lacks l ≡ true
    → lacks r ≡ true
    → split_equals (normalize false (l ++ b'=' ∷ b'=' ∷ r)) ≡ l ∷ r ∷ []
unfolding split_equals normalize
split-double [] r h k = ground (arith, no_split r k)
split-double (c ∷ l) r h k = ground (arith, split-double l r)

-- What a law's formula has to be: of at least three characters, and an equation of two sides that
-- are not blank.
pub record IsEquation (formula : Text) : Type 0 where
  pub long : 3 ≤ length (trim formula)
  pub lhs : Text
  pub rhs : Text
  pub equation : Equation (trim formula) lhs rhs
  pub lhs_stated : is_empty (trim lhs) ≡ false
  pub rhs_stated : is_empty (trim rhs) ≡ false

split-Equation : (s l r : Text) → Equation s l r → split_equals (normalize false s) ≡ l ∷ r ∷ []
split-Equation s l r e = elim e.separated [
  | inl h ↦ ap (λ t. split_equals (normalize false t)) h ∙ split-single l r e.left e.right
  | inr h ↦ ap (λ t. split_equals (normalize false t)) h ∙ split-double l r e.left e.right
]

sides_stated :
    (parts : List Text)
    → check_sides parts ≡ ok tt
    → (l : Text) × (r : Text) × (parts ≡ l ∷ r ∷ [])
      × (is_empty (trim l) ≡ false)
      × (is_empty (trim r) ≡ false)
unfolding check_sides
sides_stated [] h = cc
sides_stated (l ∷ []) h = cc
sides_stated (l ∷ r ∷ []) h = (l, r, refl, ground arith, ground arith)
sides_stated (l ∷ r ∷ p ∷ ps) h = cc

long_enough :
    (n : ℕ) (r : Result LawError (Unit {0}))
    → (guard (not (ltb n 3)) formula_too_short >> r) ≡ ok tt
    → (3 ≤ n) × (r ≡ ok tt)
long_enough n r h = (ground arith, ground arith)

formula_sound : (formula : Text) → validate_law_formula formula ≡ ok tt → IsEquation formula
unfolding validate_law_formula
formula_sound formula h =
    let parts = split_equals (normalize false (trim formula)) in
    let (long, k) = long_enough (length (trim formula)) (check_sides parts) h in
    let (l, r, e, n, m) = sides_stated parts k in
    record {
      long = long;
      lhs = l;
      rhs = r;
      equation = two_parts (trim formula) l r e;
      lhs_stated = n;
      rhs_stated = m;
    }

formula_complete : (formula : Text) → IsEquation formula → validate_law_formula formula ≡ ok tt
unfolding validate_law_formula check_sides
formula_complete formula e = ground (
  arith,
  e.long,
  split-Equation (trim formula) e.lhs e.rhs e.equation,
  e.lhs_stated,
  e.rhs_stated,
)

-- The formula check passes exactly for a text of at least three characters that is one equation:
-- a single `=` or `==` between two sides, neither of which is blank or has an `=`.
pub validate_law_formula_iff :
    (formula : Text) → (validate_law_formula formula ≡ ok tt) ↔ IsEquation formula
validate_law_formula_iff formula = (formula_sound formula, formula_complete formula)
