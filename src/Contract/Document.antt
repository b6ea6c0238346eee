-- ===== src/Contract/Document.antt =====
-- The signed documents of internal/contract/models.go: requests, dispatches, dispatch results and
-- receipts are sealed and verified by the same code, which is written out four times there. Here
-- a document type is the parts in which the copies differ, and the code is written once.
pub mod Sealing
pub mod Binding
use Prim.Native.String.{String}
use estate_ci.Prelude.{
  [], ◌≡◌, ◌&&◌, Text, bytes, Result, ok, ◌>>=◌, ◌>>◌, guard, is_ok, on_error, is_empty, ◌==◌,
  text_instance, text_eq, if◌then◌else◌,
}
use estate_ci.Go.Time.{Time, zero_time}
use estate_ci.Go.Base64.{encode}
use estate_ci.Contract.Json.{Json}
use estate_ci.Contract.Models.{Signature, empty_signature}
use estate_ci.Contract.Patterns.{is_digest}
use estate_ci.Contract.Crypto.{Crypto, Signer, digest_of, validate_signature, verify_signature}

pub record Document (D : Type 0) : Type 0 where
  pub current_version : Text
  pub schema_version : D → Text
  pub with_version : Text → D → D
  pub validate : Time → D → Result String (Unit {0})
  pub json : D → Json
  pub digest : D → Text
  pub signature : D → Signature
  pub with_seal : Text → Signature → D → D
  pub sign_error : String
  pub unsealed_error : String
  pub digest_error : String

-- Validation does not read the seal, and a seal is replaced whole.
pub record IsDocument {D : Type 0} (doc : Document D) : Type 0 where
  pub validate_sealed :
      (t : Time) (g : Text) (s : Signature) (d : D)
      → doc.validate t (doc.with_seal g s d) ≡ doc.validate t d
  pub digest_sealed : (g : Text) (s : Signature) (d : D) → doc.digest (doc.with_seal g s d) ≡ g
  pub signature_sealed :
      (g : Text) (s : Signature) (d : D) → doc.signature (doc.with_seal g s d) ≡ s
  pub with_seal_sealed :
      (g g' : Text) (s s' : Signature) (d : D)
      → doc.with_seal g' s' (doc.with_seal g s d) ≡ doc.with_seal g' s' d

module _ {D : Type 0} (doc : Document D) where
  -- `material.Digest = ""; material.Signature = Signature{}`
  abbrev pub material : D → Json
  material d = doc.json (doc.with_seal ([]) empty_signature d)

  abbrev pub default_version : D → D
  default_version d =
      if is_empty (doc.schema_version d) then doc.with_version doc.current_version d else d

  unfoldable pub seal : Crypto → Signer → D → Result String D
  seal c signer draft = do
    let d = default_version draft
    doc.validate zero_time d
    digest ← digest_of c (material d)
    signed ← on_error doc.sign_error (signer.sign digest)
    ok (
        doc.with_seal digest
          (record { algorithm = bytes "Ed25519"; key_id = signer.key_id; value = encode signed }) d)

  unfoldable pub verify_digest : Crypto → Time → D → Result String (Unit {0})
  verify_digest c now d = do
    guard (is_ok (doc.validate now d) && is_digest (doc.digest d)) doc.unsealed_error
    validate_signature (doc.signature d) ([])
    got ← on_error doc.digest_error (digest_of c (material d))
    guard (doc.digest d == got) doc.digest_error

  unfoldable pub verify : Crypto → Time → Text → Text → D → Result String (Unit {0})
  verify c now expected_key_id public_key d = do
    verify_digest c now d
    validate_signature (doc.signature d) expected_key_id
    verify_signature c (material d) (doc.digest d) (doc.signature d) public_key
