-- ===== src/Chars/Laws.antt =====
-- Prefixes and substrings.
use evorule_rule.Prelude.{◌≡◌, refl, true, [], ◌∷◌, ◌++◌, Text, arith}
use evorule_rule.Chars.{text_eq, starts_with, contains}

pub text_eq_refl : (s : Text) → text_eq s s ≡ true
text_eq_refl [] = refl
text_eq_refl (c ∷ s) = ground (arith, text_eq_refl s)

pub text_eq-eq : (s t : Text) → text_eq s t ≡ true → s ≡ t
text_eq-eq [] [] h = refl
text_eq-eq [] (b ∷ t) h = cc
text_eq-eq (a ∷ s) [] h = cc
text_eq-eq (a ∷ s) (b ∷ t) h = ground (arith, text_eq-eq s t)

pub starts_with-append : (p s : Text) → starts_with (p ++ s) p ≡ true
starts_with-append [] [] = refl
starts_with-append [] (c ∷ s) = refl
starts_with-append (c ∷ p) s = ground (arith, starts_with-append p s)

-- A prefix test that passes gives the rest.
pub starts_with-rest : (s p : Text) → starts_with s p ≡ true → (r : Text) × (s ≡ p ++ r)
starts_with-rest [] [] h = ([], refl)
starts_with-rest (a ∷ s) [] h = (a ∷ s, refl)
starts_with-rest [] (c ∷ p) h = cc
starts_with-rest (a ∷ s) (c ∷ p) h =
    let (r, e) = starts_with-rest s p (ground arith) in (r, ground arith)

pub contains-append : (pre p post : Text) → contains (pre ++ (p ++ post)) p ≡ true
contains-append [] [] [] = refl
contains-append [] [] (c ∷ post) = refl
contains-append [] (c ∷ p) post = ground (arith, starts_with-append p post)
contains-append (a ∷ pre) p post = ground (arith, contains-append pre p post)
