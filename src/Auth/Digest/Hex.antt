-- ===== src/Auth/Digest/Hex.antt =====
-- Hexadecimal text undoes itself.
use Prim.Native.Char.{code}
use evorule_rule.Prelude.{
  ℕ, String, zero, suc, ◌+◌, ◌*◌, ◌/◌, ◌%◌, ◌<◌, ◌≡◌, refl, Bool, true, false, not, ◌&&◌, Option,
  none, some, List, [], ◌∷◌, arith, All, Option-cases, inl, inr, ◌==◌,
}
use evorule_rule.Auth.Digest.{digit, digit_value, hex, from_pair, unhex}

all_below : (ℕ → Bool) → ℕ → Bool
all_below p zero = true
all_below p (suc n) = all_below p n && p n

all_below_sound : (p : ℕ → Bool) (n m : ℕ) → all_below p n ≡ true → m < n → p m ≡ true
unfolding all_below
all_below_sound p zero m h l = absurd (omega arith)
all_below_sound p (suc n) m h l = ground (arith, all_below_sound p n m)

reads_as : Option ℕ → ℕ → Bool
reads_as none n = false
reads_as (some m) n = m == n

-- Every digit has its number and is neither a plus sign nor a dot.
is_read : ℕ → Bool
unfolding digit_value reads_as
is_read n =
    reads_as (digit_value (code (digit n))) n
    && not (code (digit n) == 43)
    && not (code (digit n) == 46)

table : all_below is_read 16 ≡ true
unfolding all_below is_read reads_as digit_value
table = refl

digit-read :
    (n : ℕ) → n < 16 → (digit_value (code (digit n)) ≡ some n) × ((code (digit n) == 43) ≡ false)
unfolding is_read reads_as
digit-read n lt =
    let read = all_below_sound is_read 16 n table lt in
    elim (Option-cases (digit_value (code (digit n)))) [
      | inl e ↦ ground (arith, e, read)
      | inr (m, e) ↦ (ground (arith, e, read), ground (arith, e, read))
    ]

pair-read :
    (h l : ℕ) → h < 16 → l < 16 → from_pair (code (digit h)) (code (digit l)) ≡ some (16 * h + l)
unfolding from_pair
pair-read h l hh hl = let p = digit-read h hh in let q = digit-read l hl in rw (p.1, p.0, q.0)

-- The bytes that were written are read again.
pub unhex-hex : (bytes : List ℕ) → All (λ b. b < 256) bytes → unhex (hex bytes) ≡ bytes
unfolding unhex hex
unhex-hex [] h = refl
unhex-hex (b ∷ bytes) (lt, h) =
    rw (pair-read (b / 16) (b % 16) (omega arith) (omega arith), unhex-hex bytes h, halves b)
  where
    halves : (b : ℕ) → 16 * (b / 16) + b % 16 ≡ b
    halves b = omega arith

-- No character of a text is a dot.
unfoldable pub NoDot : String → Type 0
NoDot String.[] = Unit
NoDot (String.◌∷◌ c s) = ((code c == 46) ≡ false) × NoDot s

digit-NoDot : (n : ℕ) → n < 16 → (code (digit n) == 46) ≡ false
unfolding is_read
digit-NoDot n lt = ground (arith, all_below_sound is_read 16 n table lt)

pub hex-NoDot : (bytes : List ℕ) → All (λ b. b < 256) bytes → NoDot (hex bytes)
unfolding hex NoDot
hex-NoDot [] h = tt
hex-NoDot (b ∷ bytes) (lt, h) =
    (digit-NoDot (b / 16) (omega arith), (digit-NoDot (b % 16) (omega arith), hex-NoDot bytes h))
