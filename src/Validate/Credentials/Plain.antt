-- ===== src/Validate/Credentials/Plain.antt =====
-- A key with a plain value: letters only, up to a character that ends values.
use evorule_rule.Prelude.{
  ℕ, ◌≡◌, refl, ap, Bool, true, false, ◌&&◌, [], ◌∷◌, ◌++◌, Text, arith, all, codes, ◌==◌, ◌||◌,
  if◌then◌else◌,
}
use evorule_rule.Chars.{
  to_ascii_lowercase, is_ascii_lowercase, starts_with, trim_end_matches, first_part,
}
use evorule_rule.Chars.Laws.{text_eq_refl}
use evorule_rule.Validate.Credentials.{
  key_names, key_hits, scan_credentials, text_mem, value, value_text, non_trivial, is_accepted,
  ends_value,
}
use evorule_rule.Validate.Credentials.Placeholder.{contains_absent}
use evorule_rule.Validate.Credentials.Detection.{reported}

value_text_plain : (c : ℕ) (s : Text) → is_ascii_lowercase c ≡ true → value_text (c ∷ s) ≡ c ∷ s
unfolding value_text is_ascii_lowercase
value_text_plain c s h = ground arith

letter_goes_on : (c : ℕ) → is_ascii_lowercase c ≡ true → ends_value c ≡ false
unfolding is_ascii_lowercase
letter_goes_on c h = ground arith

letter_stays : (c : ℕ) → is_ascii_lowercase c ≡ true → (c == b'{' || c == b',') ≡ false
unfolding is_ascii_lowercase
letter_stays c h = ground arith

first_part_plain :
    (val : Text) (stop : ℕ) (post : Text)
    → all is_ascii_lowercase val ≡ true
    → ends_value stop ≡ true
    → first_part ends_value (val ++ stop ∷ post) ≡ val
first_part_plain [] stop post a e = rw e
first_part_plain (c ∷ val) stop post a e =
    rw (letter_goes_on c (ground arith), first_part_plain val stop post (ground arith) e)

trim_end_plain :
    (p : ℕ → Bool) (val : Text)
    → ((c : ℕ) → is_ascii_lowercase c ≡ true → p c ≡ false)
    → all is_ascii_lowercase val ≡ true
    → trim_end_matches p val ≡ val
trim_end_plain p [] k a = refl
trim_end_plain p (c ∷ val) k a =
    rw (k c (ground arith)) (ap (λ t. c ∷ t) (trim_end_plain p val k (ground arith)))

value_plain :
    (val : Text) (stop : ℕ) (post : Text)
    → all is_ascii_lowercase val ≡ true
    → ends_value stop ≡ true
    → value (val ++ stop ∷ post) ≡ val
unfolding value
value_plain val stop post a e =
    rw (first_part_plain val stop post a e) (trim_end_plain _ val letter_stays a)

accepted_plain :
    (c : ℕ) (val : Text) → all is_ascii_lowercase (c ∷ val) ≡ true → is_accepted (c ∷ val) ≡ true
unfolding is_accepted is_ascii_lowercase
accepted_plain c val a =
    let lacks = λ (d : ℕ) (p : Text) (n : is_ascii_lowercase d ≡ false).
      contains_absent is_ascii_lowercase (c ∷ val) d p a n in
    ground (
      arith,
      lacks 25552 (31034 ∷ []) refl,
      lacks 31034 (20363 ∷ []) refl,
      lacks 21344 (20301 ∷ []) refl,
      lacks b'P' (codes "LACEHOLDER") refl,
      lacks b'.' (codes "..") refl,
      lacks b'<' [] refl,
      lacks b'{' [] refl,
    )

non_trivial_plain :
    (c : ℕ) (s : Text)
    → is_ascii_lowercase c ≡ true
    → starts_with (c ∷ s) (codes "true") ≡ false
    → starts_with (c ∷ s) (codes "false") ≡ false
    → non_trivial (c ∷ s) ≡ true
unfolding non_trivial is_ascii_lowercase
non_trivial_plain c s h t f = ground arith

key_hits_at_equals :
    (name s : Text)
    → key_hits name (b'=' ∷ s) ≡ (
        let v = value_text s in
        if non_trivial v && is_accepted (value v) then (name ++ codes "=" ++ value v) ∷ [] else [])
unfolding key_hits
key_hits_at_equals name s = refl

plain_hit :
    (name : Text) (c : ℕ) (val : Text) (stop : ℕ) (post : Text)
    → all is_ascii_lowercase (c ∷ val) ≡ true
    → starts_with (c ∷ val ++ stop ∷ post) (codes "true") ≡ false
    → starts_with (c ∷ val ++ stop ∷ post) (codes "false") ≡ false
    → ends_value stop ≡ true
    → text_mem (name ++ codes "=" ++ (c ∷ val)) (key_hits name (b'=' ∷ (c ∷ val ++ stop ∷ post)))
      ≡ true
plain_hit name c val stop post a t f e =
    let low : is_ascii_lowercase c ≡ true = ground arith in
    rw (
      key_hits_at_equals,
      value_text_plain c (val ++ stop ∷ post) low,
      non_trivial_plain c (val ++ stop ∷ post) low t f,
      value_plain (c ∷ val) stop post a e,
      accepted_plain c val a,
      text_eq_refl,
    )

-- A key of the list, in any capitals and at any place, followed by `=` and a word of lower-case
-- letters that ends before a blank, quote, comma or bracket and does not begin like a Boolean, is
-- reported as `key=word`.
pub plain_secret_reported :
    (text pre name : Text) (c : ℕ) (val : Text) (stop : ℕ) (post : Text)
    → to_ascii_lowercase text ≡ pre ++ (name ++ b'=' ∷ (c ∷ val ++ stop ∷ post))
    → text_mem name key_names ≡ true
    → all is_ascii_lowercase (c ∷ val) ≡ true
    → starts_with (c ∷ val ++ stop ∷ post) (codes "true") ≡ false
    → starts_with (c ∷ val ++ stop ∷ post) (codes "false") ≡ false
    → ends_value stop ≡ true
    → text_mem (name ++ codes "=" ++ (c ∷ val)) (scan_credentials text) ≡ true
plain_secret_reported text pre name c val stop post l n a t f e =
    reported text pre name (b'=' ∷ (c ∷ val ++ stop ∷ post)) (name ++ codes "=" ++ (c ∷ val)) l n
      (plain_hit name c val stop post a t f e)
