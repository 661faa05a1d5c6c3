-- ===== src/Validate/Credentials/Detection.antt =====
-- What the scan is sure to report: a known prefix anywhere, and a key with a plain value anywhere.
use evorule_rule.Prelude.{
  ℕ, zero, suc, ◌+◌, ◌-◌, ◌≤◌, ◌≡◌, refl, ◌⊎◌, inl, inr, Bool, true, false, ◌||◌, List, [], ◌∷◌,
  ◌++◌, Text, arith, all, any-append, drop, length, not, if◌then◌else◌, Bool-cases,
}
use evorule_rule.Chars.{to_ascii_lowercase, text_eq, starts_with, contains}
use evorule_rule.Chars.Laws.{starts_with-append, text_eq_refl, text_eq-eq}
use evorule_rule.Validate.Credentials.{
  fmt_prefixes, prefix_hits, key_names, key_hits, scan_key, scan_keys, scan_credentials, text_mem,
}
use evorule_rule.Validate.Credentials.Hits.{mem-retain_new}

-- Does some suffix of `t` begin `name`?
abbrev overlaps : Text → Text → Bool
overlaps name [] = false
overlaps name (c ∷ t) = starts_with name (c ∷ t) || overlaps name t

-- A name that no shorter text both begins and ends.
abbrev unbordered : Text → Bool
unbordered [] = false
unbordered (c ∷ t) = not (overlaps (c ∷ t) t)

starts_with-prefix :
    (name post q : Text)
    → length q ≤ length name
    → starts_with (name ++ post) q ≡ true
    → starts_with name q ≡ true
starts_with-prefix [] post [] l h = refl
starts_with-prefix [] post (c ∷ q) l h = absurd (omega arith)
starts_with-prefix (a ∷ name) post [] l h = refl
starts_with-prefix (a ∷ name) post (c ∷ q) l h = ground (arith, starts_with-prefix name post q)

overlap_or_apart :
    (name post d q : Text)
    → length q ≤ length name + length d
    → starts_with (d ++ (name ++ post)) q ≡ true
    → (length q ≤ length d) ⊎ (overlaps name q ≡ true)
overlap_or_apart name post d [] l h = inl (omega arith)
overlap_or_apart name post [] (c ∷ q) l h =
    inr (ground (arith, starts_with-prefix name post (c ∷ q)))
overlap_or_apart name post (a ∷ d) (c ∷ q) l h = ground (arith, overlap_or_apart name post d q)

-- Two occurrences of an unbordered name do not overlap.
apart :
    (name post d : Text) (a : ℕ)
    → unbordered name ≡ true
    → starts_with (a ∷ d ++ (name ++ post)) name ≡ true
    → length name ≤ suc (length d)
apart [] post d a u h = cc
apart (c ∷ t) post d a u h = ground (arith, overlap_or_apart (c ∷ t) post d t)

drop_name : (name s : Text) → drop (length name) (name ++ s) ≡ s
drop_name [] s = refl
drop_name (c ∷ name) s = drop_name name s

mem_right : (h : Text) (xs ys : List Text) → text_mem h ys ≡ true → text_mem h (xs ++ ys) ≡ true
mem_right h [] ys m = m
mem_right h (x ∷ xs) ys m = ground (arith, mem_right h xs ys m)

-- What the search passes over when it stands at `s`.
abbrev passed : Text → Text → ℕ
passed name s = if starts_with s name then length name - 1 else 0

passed-le :
    (name post d : Text) (a : ℕ)
    → unbordered name ≡ true
    → passed name (a ∷ d ++ (name ++ post)) ≤ length d
passed-le name post d a u = ground (arith, apart name post d a u)

-- Every occurrence of an unbordered name is looked at.
scan_key_at :
    (name post h pre : Text) (skip : ℕ)
    → unbordered name ≡ true
    → skip ≤ length pre
    → text_mem h (key_hits name post) ≡ true
    → text_mem h (scan_key name skip (pre ++ (name ++ post))) ≡ true
unfolding scan_key
scan_key_at [] post h pre skip u l m = cc
scan_key_at (c ∷ t) post h [] (suc skip) u l m = absurd (omega arith)
scan_key_at (c ∷ t) post h [] zero u l m =
    rw (starts_with-append (c ∷ t) post, drop_name t post, any-append) (ground arith)
scan_key_at (c ∷ t) post h (a ∷ pre) (suc skip) u l m =
    scan_key_at (c ∷ t) post h pre skip u (omega arith) m
scan_key_at (c ∷ t) post h (a ∷ pre) zero u l m =
    let s = pre ++ (c ∷ t ++ post) in
    mem_right h
      (if starts_with (a ∷ s) (c ∷ t) then key_hits (c ∷ t) (drop (length (c ∷ t)) (a ∷ s)) else [])
      (scan_key (c ∷ t) (passed (c ∷ t) (a ∷ s)) s)
      (scan_key_at (c ∷ t) post h pre (passed (c ∷ t) (a ∷ s)) u (passed-le (c ∷ t) post pre a u) m)

scan_keys_at :
    (names : List Text) (name post h pre : Text)
    → all unbordered names ≡ true
    → text_mem name names ≡ true
    → text_mem h (key_hits name post) ≡ true
    → text_mem h (scan_keys names (pre ++ (name ++ post))) ≡ true
unfolding scan_keys
scan_keys_at [] name post h pre u n m = cc
scan_keys_at (k ∷ names) name post h pre u n m = elim (Bool-cases (text_eq k name)) [
  | inl here ↦
      rw (text_eq-eq k name here, any-append)
        (ground (arith, scan_key_at name post h pre 0, text_eq-eq k name here))
  | inr there ↦
      mem_right h (scan_key k 0 (pre ++ (name ++ post))) _
        (scan_keys_at names name post h pre (ground arith) (ground arith) m)
]

-- What the text behind a key yields is reported, wherever the key stands in the text.
pub reported :
    (text pre name post h : Text)
    → to_ascii_lowercase text ≡ pre ++ (name ++ post)
    → text_mem name key_names ≡ true
    → text_mem h (key_hits name post) ≡ true
    → text_mem h (scan_credentials text) ≡ true
unfolding scan_credentials
reported text pre name post h e n m = mem-retain_new h [] _ refl (
    mem_right h (prefix_hits text fmt_prefixes) (scan_keys key_names (to_ascii_lowercase text))
      (rw e (scan_keys_at key_names name post h pre refl n m)))

prefix_found :
    (text p : Text) (ps : List Text)
    → text_mem p ps ≡ true
    → contains text p ≡ true
    → text_mem p (prefix_hits text ps) ≡ true
prefix_found text p [] n c = cc
prefix_found text p (q ∷ ps) n c =
    ground (arith, prefix_found text p ps, text_eq-eq q p, text_eq_refl p)

mem_left : (h : Text) (xs ys : List Text) → text_mem h xs ≡ true → text_mem h (xs ++ ys) ≡ true
mem_left h [] ys m = cc
mem_left h (x ∷ xs) ys m = ground (arith, mem_left h xs ys)

-- Each of the known prefixes is reported of every text that holds it.
pub prefix_reported :
    (text p : Text)
    → text_mem p fmt_prefixes ≡ true
    → contains text p ≡ true
    → text_mem p (scan_credentials text) ≡ true
unfolding scan_credentials
prefix_reported text p n c =
    mem-retain_new p [] _ refl (mem_left p _ _ (prefix_found text p fmt_prefixes n c))
