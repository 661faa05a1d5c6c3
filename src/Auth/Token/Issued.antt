-- ===== src/Auth/Token/Issued.antt =====
-- A token that was signed is read again.
use Prim.Native.String.{◌++◌}
use Prim.Native.String.append
use text.Mathlib.TextLemmas.{append_assoc}
use evorule_rule.Prelude.{
  ℕ, ◌<◌, ◌≡◌, refl, sym, ap, ◌∙◌, subst, ◌⊎◌, inl, inr, String, true, Option, some, List, [], ◌∷◌,
  ok, arith, All,
}
use evorule_rule.Model.Auth.{TokenClaims}
use evorule_rule.KeyRing.{verify_token}
use evorule_rule.KeyRing.Rotation.{verify_token_iff}
use evorule_rule.Auth.Digest.{hmac_sha256}
use evorule_rule.Auth.Digest.Hex.{NoDot}
use evorule_rule.Auth.Password.Laws.{bytes_eq_iff}
use evorule_rule.Auth.Token.{Encoding, split, signature, sign, jwt}

split-plain : (s : String) → NoDot s → split s ≡ s ∷ []
unfolding NoDot
split-plain String.[] h = refl
split-plain (String.◌∷◌ c s) (n, h) = ground (arith, n, split-plain s h)

split-dot : (s t : String) → NoDot s → split (s ++ "." ++ t) ≡ s ∷ split t
unfolding NoDot
split-dot String.[] t h =
    ap split (append.nil ("." ++ t))
    ∙ ap split (append.cons "." "" t)
    ∙ ground (arith, ap split (append.nil t))
split-dot (String.◌∷◌ c s) t (n, h) =
    ap split (append.cons c s ("." ++ t)) ∙ ground (arith, n, split-dot s t h)

-- Base64 undoes itself and has no dots; the other encodings give bytes.
pub record IsFaithful (e : Encoding) : Type 0 where
  pub decode-encode :
      (bytes : List ℕ) → All (λ b. b < 256) bytes → e.decode (e.encode bytes) ≡ some bytes
  pub no_dot : (bytes : List ℕ) → All (λ b. b < 256) bytes → NoDot (e.encode bytes)
  pub header_bytes : All (λ b. b < 256) e.header
  pub claims_bytes : (claims : TokenClaims) → All (λ b. b < 256) (e.to_vec claims)
  pub digest_bytes : (bytes : List ℕ) → All (λ b. b < 256) (e.sha256 bytes)

module _ (e : Encoding) (f : IsFaithful e) where
  signature-bytes :
      (secret header payload : String) → All (λ b. b < 256) (signature e secret header payload)
  unfolding hmac_sha256
  signature-bytes secret header payload = f.digest_bytes _

  split-sign :
      (secret : String) (claims : TokenClaims)
      → let header = e.encode e.header in
        let payload = e.encode (e.to_vec claims) in
        split (sign e secret claims)
        ≡ header ∷ payload ∷ e.encode (signature e secret header payload) ∷ []
  unfolding sign
  split-sign secret claims =
      let header = e.encode e.header in
      let payload = e.encode (e.to_vec claims) in
      let last = e.encode (signature e secret header payload) in
      ap split (append_assoc header ("." ++ payload) ("." ++ last))
      ∙ ap (λ s. split (header ++ s)) (append_assoc "." payload ("." ++ last))
      ∙ split-dot header (payload ++ "." ++ last) (f.no_dot e.header f.header_bytes)
      ∙ ap (λ ps. header ∷ ps)
          (split-dot payload last (f.no_dot (e.to_vec claims) (f.claims_bytes claims))
            ∙ ap (λ ps. payload ∷ ps)
                (split-plain last (f.no_dot _ (signature-bytes secret header payload))))

  sign-signed :
      (secret : String) (claims : TokenClaims) → (jwt e).signed (sign e secret claims) secret ≡ true
  sign-signed secret claims =
      let header = e.encode e.header in
      let payload = e.encode (e.to_vec claims) in
      let expected = signature e secret header payload in
      rw
        (split-sign secret claims, f.decode-encode expected (signature-bytes secret header payload))
        ((bytes_eq_iff expected expected).1 refl)

  sign-payload :
      (secret : String) (claims : TokenClaims)
      → (jwt e).payload (sign e secret claims) ≡ some (e.from_slice (e.to_vec claims))
  sign-payload secret claims =
      rw (split-sign secret claims, f.decode-encode (e.to_vec claims) (f.claims_bytes claims))

  -- Where base64 undoes itself without dots and the claims are read as they were written, a token that
  -- was signed with the active or the previous secret is accepted with its claims until it expires, as
  -- a token of its own type.
  pub verify_token-sign :
      (active : String) (previous : Option String) (secret : String) (claims : TokenClaims)
      (now : ℕ)
      → e.from_slice (e.to_vec claims) ≡ ok claims
      → (active ≡ secret) ⊎ (previous ≡ some secret)
      → now < claims.exp
      → verify_token (jwt e) active previous (sign e secret claims) now claims.token_type
        ≡ ok claims
  verify_token-sign active previous secret claims now reads signer lives =
      (verify_token_iff (jwt e) active previous (sign e secret claims) now claims.token_type
          claims).1
        (
          elim signer [
            | inl same ↦ inl (
                subst (λ s. (jwt e).signed (sign e secret claims) s ≡ true) (sym same)
                  (sign-signed secret claims))
            | inr older ↦ inr (secret, older, sign-signed secret claims)
          ],
          record {
            decodes = sign-payload secret claims ∙ ap some reads;
            lives = lives;
            of_type = refl;
          },
        )
