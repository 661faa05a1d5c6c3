-- ===== src/Auth/Digest.antt =====
-- The primitives of src/auth/mod.rs: bytes as hexadecimal text, HMAC-SHA256 and PBKDF2 over it.
pub mod Hex
pub mod Blocks
use Prim.Native.Char.{Char, code}
use Prim.Native.String.{char_at}
use Prim.Native.String
use evorule_rule.Prelude.{
  ℕ, zero, suc, ◌+◌, ◌-◌, ◌*◌, ◌/◌, ◌%◌, String, Bool, true, false, ◌&&◌, Option, none, some, List,
  [], ◌∷◌, ◌++◌, length, take, ltb, leb, ◌==◌, if◌then◌else◌,
}

-- UTF-8, as `as_bytes` gives it.
abbrev utf8 : ℕ → List ℕ
utf8 c =
    if ltb c 128
    then c ∷ []
    else if ltb c 2048
    then (192 + c / 64) ∷ (128 + c % 64) ∷ []
    else if ltb c 65536
    then (224 + c / 4096) ∷ (128 + (c / 64) % 64) ∷ (128 + c % 64) ∷ []
    else (240 + c / 262144) ∷ (128 + (c / 4096) % 64) ∷ (128 + (c / 64) % 64) ∷ (128 + c % 64) ∷ []

abbrev pub as_bytes : String → List ℕ
as_bytes String.[] = []
as_bytes (String.◌∷◌ c s) = utf8 (code c) ++ as_bytes s

-- The digit of a number below 16, and the number of a digit in either case.
abbrev pub digit : ℕ → Char
digit n = char_at "0123456789abcdef" n

unfoldable pub digit_value : ℕ → Option ℕ
digit_value c =
    if leb 48 c && leb c 57
    then some (c - 48)
    else if leb 97 c && leb c 102
    then some (c - 87)
    else if leb 65 c && leb c 70
    then some (c - 55)
    else none

-- `format!("{b:02x}")` of every byte.
unfoldable pub hex : List ℕ → String
hex [] = String.[]
hex (b ∷ bytes) = String.◌∷◌ (digit (b / 16)) (String.◌∷◌ (digit (b % 16)) (hex bytes))

-- `u8::from_str_radix(pair, 16).ok()` of two characters: a plus sign may stand before one digit.
abbrev byte_of : Option ℕ → Option ℕ → Option ℕ
byte_of (some h) (some l) = some (16 * h + l)
byte_of _ _ = none

unfoldable pub from_pair : ℕ → ℕ → Option ℕ
unfolding digit_value
from_pair h l = if h == 43 then digit_value l else byte_of (digit_value h) (digit_value l)

abbrev cons? : Option ℕ → List ℕ → List ℕ
cons? none bytes = bytes
cons? (some b) bytes = b ∷ bytes

-- The pairs of an ASCII text; a pair that is no number and a single last digit are skipped.
unfoldable pub unhex : String → List ℕ
unfolding from_pair
unhex String.[] = []
unhex (String.◌∷◌ c String.[]) = []
unhex (String.◌∷◌ c (String.◌∷◌ d s)) = cons? (from_pair (code c) (code d)) (unhex s)

-- `^` on bytes, by their bits from the lowest.
abbrev xor_bits : ℕ → ℕ → ℕ → ℕ
xor_bits zero a b = 0
xor_bits (suc n) a b = (a % 2 + b % 2) % 2 + 2 * xor_bits n (a / 2) (b / 2)

abbrev xor : ℕ → ℕ → ℕ
xor a b = xor_bits 8 a b

-- The first list, each byte of which that has a partner is combined with it (`zip`).
abbrev pub xor_bytes : List ℕ → List ℕ → List ℕ
xor_bytes [] bs = []
xor_bytes (a ∷ front) [] = a ∷ front
xor_bytes (a ∷ front) (b ∷ bs) = xor a b ∷ xor_bytes front bs

abbrev repeat : ℕ → ℕ → List ℕ
repeat zero b = []
repeat (suc n) b = b ∷ repeat n b

-- `Sha256::digest` of the crate `sha2`.
module _ (sha256 : List ℕ → List ℕ) where
  -- The key in a block of 64 bytes: its digest, where it is longer than one.
  abbrev padded : List ℕ → List ℕ
  padded key =
      let k = if ltb 64 (length key) then sha256 key else key in k ++ repeat (64 - length k) 0

  unfoldable pub hmac_sha256 : (key data_ : List ℕ) → List ℕ
  hmac_sha256 key data_ =
      let k = padded key in
      sha256 (xor_bytes (repeat 64 92) k ++ sha256 (xor_bytes (repeat 64 54) k ++ data_))

  -- `u32::to_be_bytes`.
  abbrev to_be_bytes : ℕ → List ℕ
  to_be_bytes n = (n / 16777216 % 256) ∷ (n / 65536 % 256) ∷ (n / 256 % 256) ∷ (n % 256) ∷ []

  -- The rounds after the first: `u` is the last digest and `t` the combination of all of them.
  abbrev rounds : ℕ → (password u t : List ℕ) → List ℕ
  rounds zero password u t = t
  rounds (suc n) password u t =
      let v = hmac_sha256 password u in rounds n password v (xor_bytes t v)

  -- One block of the key. The combination starts with the first digest.
  abbrev pub block : (password salt : List ℕ) (iterations index : ℕ) → List ℕ
  block password salt iterations index =
      let u = hmac_sha256 password (salt ++ to_be_bytes index) in
      rounds (iterations - 1) password u u

  -- `while dk.len() < dk_len`, for as many blocks as `fuel` says.
  abbrev pub blocks :
      (fuel : ℕ) (password salt : List ℕ) (iterations dk_len index : ℕ) → List ℕ → List ℕ
  blocks zero password salt iterations dk_len index dk = dk
  blocks (suc fuel) password salt iterations dk_len index dk = elim (ltb (length dk) dk_len) [
    | true ↦
        blocks fuel password salt iterations dk_len (index + 1)
          (dk ++ block password salt iterations index)
    | false ↦ dk
  ]

  -- `dk_len` blocks are enough, as each adds a byte at least.
  unfoldable pub pbkdf2_hmac_sha256 : (password salt : List ℕ) (iterations dk_len : ℕ) → List ℕ
  pbkdf2_hmac_sha256 password salt iterations dk_len =
      take dk_len (blocks dk_len password salt iterations dk_len 1 [])
