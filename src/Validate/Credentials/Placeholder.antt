-- ===== src/Validate/Credentials/Placeholder.antt =====
-- The values are cut from the lower-cased text, so no exemption spelled in capitals can apply.
use evorule_rule.Prelude.{
  ℕ, ◌≡◌, refl, Bool, true, false, ◌&&◌, not, [], ◌∷◌, ◌++◌, drop, zero, suc, Text, arith, all,
  codes, leb,
}
use evorule_rule.Chars.{
  to_ascii_lowercase, trim_start_matches, trim_end_matches, take_while, contains,
}
use evorule_rule.Validate.Credentials.{gap, value_text, value}

-- A text that lacks the first character of another does not hold it.
pub contains_absent :
    (ok : ℕ → Bool) (s : Text) (c : ℕ) (p : Text)
    → all ok s ≡ true
    → ok c ≡ false
    → contains s (c ∷ p) ≡ false
contains_absent ok [] c p h n = refl
contains_absent ok (a ∷ s) c p h n = ground (arith, contains_absent ok s c p)

abbrev no_capital : ℕ → Bool
no_capital c = not (leb b'A' c && leb c b'Z')

pub lower-no_capital : (s : Text) → all no_capital (to_ascii_lowercase s) ≡ true
unfolding to_ascii_lowercase
lower-no_capital [] = refl
lower-no_capital (c ∷ s) = ground (arith, lower-no_capital s)

-- Cutting a text keeps what holds of each character.
module _ (ok : ℕ → Bool) where
  all-suffix : (pre s : Text) → all ok (pre ++ s) ≡ true → all ok s ≡ true
  all-suffix [] s h = h
  all-suffix (a ∷ pre) s h = all-suffix pre s (ground arith)

  all-drop : (n : ℕ) (s : Text) → all ok s ≡ true → all ok (drop n s) ≡ true
  all-drop zero s h = h
  all-drop (suc n) [] h = refl
  all-drop (suc n) (c ∷ s) h = all-drop n s (ground arith)

  all-trim_start :
      (p : ℕ → Bool) (s : Text) → all ok s ≡ true → all ok (trim_start_matches p s) ≡ true
  all-trim_start p [] h = refl
  all-trim_start p (c ∷ s) h = ground (arith, all-trim_start p s)

  all-trim_end : (p : ℕ → Bool) (s : Text) → all ok s ≡ true → all ok (trim_end_matches p s) ≡ true
  all-trim_end p [] h = refl
  all-trim_end p (c ∷ s) h = ground (arith, all-trim_end p s)

  all-take_while : (p : ℕ → Bool) (s : Text) → all ok s ≡ true → all ok (take_while p s) ≡ true
  all-take_while p [] h = refl
  all-take_while p (c ∷ s) h = ground (arith, all-take_while p s)

  pub all-value : (s : Text) → all ok s ≡ true → all ok (value (value_text s)) ≡ true
  unfolding value value_text
  all-value s h =
      all-trim_end _ _
        (all-take_while _ _ (all-trim_start _ _ (all-trim_start _ _ (all-trim_start _ s h))))

-- Behind a key, wherever it stands in the lower-cased text, the value never holds the word
-- `PLACEHOLDER`: the exemption that names it is never taken.
pub placeholder_never_exempt :
    (text pre behind : Text)
    → to_ascii_lowercase text ≡ pre ++ behind
    → contains (value (value_text (drop 1 (drop (gap behind) behind)))) (codes "PLACEHOLDER")
      ≡ false
placeholder_never_exempt text pre behind e =
    let low : all no_capital behind ≡ true =
      all-suffix no_capital pre behind (rw (← e) (lower-no_capital text)) in
    contains_absent no_capital (value (value_text (drop 1 (drop (gap behind) behind)))) b'P'
      (codes "LACEHOLDER")
      (all-value no_capital _ (
        all-drop no_capital 1 (drop (gap behind) behind)
          (all-drop no_capital (gap behind) behind low)))
      refl
