-- ===== src/Validate/Credentials/Hits.antt =====
-- The list of hits: no hit twice, and none lost by dropping repeats.
use evorule_rule.Prelude.{◌≡◌, refl, true, false, List, [], ◌∷◌, Text, arith}
use evorule_rule.Chars.{text_eq}
use evorule_rule.Chars.Laws.{text_eq-eq, text_eq_refl}
use evorule_rule.Validate.Credentials.{text_mem, retain_new, scan_credentials}

abbrev pub Distinct : List Text → Type 0
Distinct [] = Unit
Distinct (h ∷ hs) = (text_mem h hs ≡ false) × Distinct hs

mem_of_eq :
    (h t : Text) (seen : List Text)
    → text_eq h t ≡ true
    → text_mem t seen ≡ true
    → text_mem h seen ≡ true
mem_of_eq h t seen e m = rw (text_eq-eq h t e) m

retain_new_seen :
    (t : Text) (seen hs : List Text)
    → text_mem t seen ≡ true
    → text_mem t (retain_new seen hs) ≡ false
unfolding retain_new
retain_new_seen t seen [] m = refl
retain_new_seen t seen (h ∷ hs) m =
    let ih = retain_new_seen t (h ∷ seen) hs (ground arith) in ground (arith, mem_of_eq h t seen)

retain_new-Distinct : (seen hs : List Text) → Distinct (retain_new seen hs)
unfolding retain_new
retain_new-Distinct seen [] = tt
retain_new-Distinct seen (h ∷ hs) =
    let fresh = retain_new_seen h (h ∷ seen) hs (rw (text_eq_refl h)) in
    ground (arith, fresh, retain_new-Distinct (h ∷ seen) hs)

eq_sym : (h t : Text) → text_eq h t ≡ true → text_eq t h ≡ true
eq_sym h t e = rw (text_eq-eq h t e) (text_eq_refl t)

-- What is not dropped as a repeat is kept.
pub mem-retain_new :
    (t : Text) (seen hs : List Text)
    → text_mem t seen ≡ false
    → text_mem t hs ≡ true
    → text_mem t (retain_new seen hs) ≡ true
unfolding retain_new
mem-retain_new t seen [] m n = cc
mem-retain_new t seen (h ∷ hs) m n =
    ground (arith, mem-retain_new t (h ∷ seen) hs, mem_of_eq t h seen, eq_sym h t)

-- No hit is reported twice.
pub scan_credentials-Distinct : (text : Text) → Distinct (scan_credentials text)
unfolding scan_credentials
scan_credentials-Distinct text = retain_new-Distinct [] _
