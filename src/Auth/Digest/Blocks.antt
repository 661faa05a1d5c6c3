-- ===== src/Auth/Digest/Blocks.antt =====
-- The loop of PBKDF2 ends with as many bytes as are asked for.
use evorule_rule.Prelude.{
  ℕ, zero, suc, ◌+◌, ◌-◌, ◌≤◌, ◌≡◌, refl, ap, ◌∙◌, inl, inr, List, [], ◌∷◌, ◌++◌, arith, length,
  length-append, take, ltb, Bool-cases,
}
use evorule_rule.Auth.Digest.{xor_bytes, hmac_sha256, rounds, block, blocks, pbkdf2_hmac_sha256}

length-xor_bytes : (front rest : List ℕ) → length (xor_bytes front rest) ≡ length front
length-xor_bytes [] rest = refl
length-xor_bytes (a ∷ front) [] = refl
length-xor_bytes (a ∷ front) (b ∷ rest) = ap suc (length-xor_bytes front rest)

length-take : (n : ℕ) (bytes : List ℕ) → n ≤ length bytes → length (take n bytes) ≡ n
length-take zero bytes h = refl
length-take (suc n) [] h = absurd (omega arith)
length-take (suc n) (b ∷ bytes) h = ap suc (length-take n bytes (omega arith))

-- A digest has 32 bytes.
module _ (sha256 : List ℕ → List ℕ) (size : (bytes : List ℕ) → length (sha256 bytes) ≡ 32) where
  length-hmac : (key text : List ℕ) → length (hmac_sha256 sha256 key text) ≡ 32
  unfolding hmac_sha256
  length-hmac key text = size _

  length-rounds : (n : ℕ) (password u t : List ℕ) → length (rounds sha256 n password u t) ≡ length t
  length-rounds zero password u t = refl
  length-rounds (suc n) password u t =
      length-rounds n password _ _ ∙ length-xor_bytes t (hmac_sha256 sha256 password u)

  length-block :
      (password salt : List ℕ) (iterations index : ℕ)
      → length (block sha256 password salt iterations index) ≡ 32
  length-block password salt iterations index =
      length-rounds (iterations - 1) password _ _ ∙ length-hmac password _

  blocks-suffice :
      (fuel : ℕ) (password salt : List ℕ) (iterations dk_len index : ℕ) (dk : List ℕ)
      → dk_len ≤ length dk + fuel
      → dk_len ≤ length (blocks sha256 fuel password salt iterations dk_len index dk)
  blocks-suffice zero password salt iterations dk_len index dk h = omega arith
  blocks-suffice (suc fuel) password salt iterations dk_len index dk h =
      elim (Bool-cases (ltb (length dk) dk_len)) [
        | inl e ↦
            let next = block sha256 password salt iterations index in
            let longer =
              blocks-suffice fuel password salt iterations dk_len (index + 1) (dk ++ next) in
            ground
              (arith, e, longer, length-append dk next, length-block password salt iterations index)
        | inr e ↦ ground (arith, e)
      ]

  -- Where every digest has 32 bytes, the loop of PBKDF2 ends, and the key has exactly as many bytes as
  -- were asked for.
  pub length-pbkdf2_hmac_sha256 :
      (password salt : List ℕ) (iterations dk_len : ℕ)
      → length (pbkdf2_hmac_sha256 sha256 password salt iterations dk_len) ≡ dk_len
  unfolding pbkdf2_hmac_sha256
  length-pbkdf2_hmac_sha256 password salt iterations dk_len =
      length-take dk_len _
        (blocks-suffice dk_len password salt iterations dk_len 1 [] (omega arith))
