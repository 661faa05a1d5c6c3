-- ===== src/Auth/Password/Laws.antt =====
-- What a stored hash accepts.
use Prim.Native.String.{◌++◌}
use Prim.Native.String.append
use evorule_rule.Prelude.{
  ℕ, String, true, false, ◌≡◌, refl, sym, ap, ◌↔◌, ◌<◌, subst, List, [], ◌∷◌, All, some, arith,
}
use evorule_rule.Auth.Digest.{as_bytes, hex, unhex}
use evorule_rule.Auth.Digest.Hex.{unhex-hex}
use evorule_rule.Auth.Password.{
  Hashes, strip_prefix, bytes_eq, password_hash_prefix, hash_password, verify_by, verify_password,
  needs_rehash,
}

strip_prefix-append : (p s : String) → strip_prefix p (p ++ s) ≡ some s
strip_prefix-append String.[] s = ap some (append.nil s)
strip_prefix-append (String.◌∷◌ c p) s =
    subst (λ t. strip_prefix (String.◌∷◌ c p) t ≡ some s) (sym (append.cons c p s))
      (ground (arith, strip_prefix-append p s))

pub bytes_eq_iff : (front rest : List ℕ) → (bytes_eq front rest ≡ true) ↔ (front ≡ rest)
unfolding bytes_eq
bytes_eq_iff [] [] = (λ h. refl, λ h. refl)
bytes_eq_iff [] (b ∷ rest) = ground arith
bytes_eq_iff (a ∷ front) [] = ground arith
bytes_eq_iff (a ∷ front) (b ∷ rest) = ground (arith, bytes_eq_iff front rest)

module _ (hashes : Hashes)
    (bytes : (password salt : List ℕ) → All (λ b. b < 256) (hashes.argon2id password salt)) where
  -- Where Argon2id gives bytes, a hash that was stored for a password under a salt accepts exactly the
  -- passwords with the same digest under that salt, that password among them; and it asks for no
  -- new hash.
  pub verify-hash_password :
      (iterations : ℕ) (password other salt : String)
      → ((verify_password hashes iterations other salt (hash_password hashes password salt) ≡ true)
          ↔ (hashes.argon2id (as_bytes password) (unhex salt)
              ≡ hashes.argon2id (as_bytes other) (unhex salt)))
        × (needs_rehash (hash_password hashes password salt) ≡ false)
  unfolding verify_password hash_password needs_rehash
  verify-hash_password iterations password other salt =
      let digest = hashes.argon2id (as_bytes password) (unhex salt) in
      let attempt = hashes.argon2id (as_bytes other) (unhex salt) in
      let stripped = strip_prefix-append password_hash_prefix (hex digest) in
      let read = unhex-hex digest (bytes (as_bytes password) (unhex salt)) in
      (
        subst
            (λ o.
              (verify_by hashes iterations other salt (hash_password hashes password salt) o ≡ true)
              ↔ (digest ≡ attempt))
            (sym stripped)
            (subst (λ d. (bytes_eq d attempt ≡ true) ↔ (digest ≡ attempt)) (sym read)
              (bytes_eq_iff digest attempt)),
        ground (arith, stripped),
      )
