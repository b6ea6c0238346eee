-- ===== src/Contract/Crypto.antt =====
-- What the program takes from crypto/sha256 and crypto/ed25519, and the `Signer` interface of
-- internal/contract/models.go. Signatures are modelled up to their interface.
use Prim.Native.String.{String}
use estate_ci.Prelude.{
  ℕ, ◌≡◌, refl, Bool, true, false, ◌&&◌, [], ◌∷◌, ◌++◌, Text, bytes, Result, ok, ◌>>=◌, ◌>>◌, guard,
  >>=-eq-ok, Option, none, some, length, All, arith, all, replicate, subst, nat_eq, is_empty, ◌==◌,
  text_instance, ◌||◌,
}
use estate_ci.Go.Base64.{IsByte, decode}
use estate_ci.Go.Hex.{is_hex, hex, length-hex, all-hex}
use estate_ci.Contract.Json.{Json}
use estate_ci.Contract.Canonical.{write_canonical}
use estate_ci.Contract.Models.{Signature}
use estate_ci.Contract.Patterns.{is_digest, fits, is_key_id}

pub record Crypto : Type 0 where
  -- the 32 bytes of `sha256.Sum256`
  pub sum256 : Text → Text
  -- `ed25519.Verify(publicKey, message, signature)`
  pub verify : Text → Text → Text → Bool

pub record Signer : Type 0 where
  pub key_id : Text
  pub sign : Text → Result String Text
  pub public_key : Text

-- What the code relies on: SHA-256 gives 32 bytes, the signer has a valid key ID and an Ed25519
-- key, and what it signs is a signature of 64 bytes that verifies.
pub record IsSigner (c : Crypto) (signer : Signer) : Type 0 where
  pub length_sum256 : (p : Text) → length (c.sum256 p) ≡ 32
  pub byte_sum256 : (p : Text) → All IsByte (c.sum256 p)
  pub valid_key_id : is_key_id signer.key_id ≡ true
  pub length_public_key : length signer.public_key ≡ 32
  pub length_sign : (m v : Text) → signer.sign m ≡ ok v → length v ≡ 64
  pub byte_sign : (m v : Text) → signer.sign m ≡ ok v → All IsByte v
  pub verify_sign : (m v : Text) → signer.sign m ≡ ok v → c.verify signer.public_key m v ≡ true

-- `Digest` of canonical.go, from the canonical JSON of the value.
unfoldable pub digest_of : Crypto → Json → Result String Text
digest_of c value = do
  payload ← write_canonical value
  ok (bytes "sha256:" ++ hex (c.sum256 payload))

abbrev pub has_length : ℕ → Option Text → Bool
has_length n none = false
has_length n (some v) = nat_eq (length v) n

unfoldable pub validate_signature : Signature → Text → Result String (Unit {0})
validate_signature s expected_key_id = do
  guard (s.algorithm == bytes "Ed25519" && is_key_id s.key_id && has_length 64 (decode s.value))
      "Ed25519 signature envelope is invalid"
  guard (is_empty expected_key_id || s.key_id == expected_key_id) "signature key ID is not trusted"

abbrev pub or_empty : Option Text → Text
or_empty none = []
or_empty (some v) = v

unfoldable pub verify_signature : Crypto → Json → Text → Signature → Text → Result String (Unit {0})
verify_signature c material digest s public_key = do
  guard (nat_eq (length public_key) 32) "Ed25519 public key is invalid"
  got ← digest_of c material
  guard (digest == got) "signed digest does not bind its canonical content"
  guard (c.verify public_key digest (or_empty (decode s.value)))
      "Ed25519 signature verification failed"

-- A text of `n` characters of one class fits `n` copies of the class.
pub fits-replicate :
    (p : ℕ → Bool) (s : Text) → all p s ≡ true → fits (replicate (length s) p) s ≡ true
unfolding all fits
fits-replicate p [] h = refl
fits-replicate p (c ∷ s) h = ground (arith, fits-replicate p s)

module _ {c : Crypto} {signer : Signer} (sound : IsSigner c signer) where
  pub hex-sum256 : (p : Text) → fits (replicate 64 is_hex) (hex (c.sum256 p)) ≡ true
  hex-sum256 p =
      let long : length (hex (c.sum256 p)) ≡ 64 =
        omega (arith, length-hex (c.sum256 p), sound.length_sum256 p) in
      subst (λ n. fits (replicate n is_hex) (hex (c.sum256 p)) ≡ true) long
        (fits-replicate is_hex (hex (c.sum256 p)) (all-hex (c.sum256 p) (sound.byte_sum256 p)))

  pub digest_of-is_digest : (j : Json) (g : Text) → digest_of c j ≡ ok g → is_digest g ≡ true
  unfolding digest_of is_digest
  digest_of-is_digest j g h =
      let (p, _, e) = >>=-eq-ok (write_canonical j) _ h in
      let g_eq : bytes "sha256:" ++ hex (c.sum256 p) ≡ g = cc e in rw (← g_eq) (hex-sum256 p)
