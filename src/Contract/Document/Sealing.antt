-- ===== src/Contract/Document/Sealing.antt =====
-- The seal functions of internal/contract/models.go, and `VerifySignature` after them.
use estate_ci.Prelude.{
  ◌≡◌, refl, Bool, true, Text, bytes, ok, on_error, is_empty, ◌==◌, ◌||◌, >>=-eq-ok, >>-eq-ok,
  on_error-eq-ok, text_instance, [], text_eq_refl, some, arith, ap, sym, ◌∙◌, ◌⊎◌, inl, inr,
}
use estate_ci.Go.Time.{Time, zero_time}
use estate_ci.Go.Base64.{encode, decode, decode-encode}
use estate_ci.Contract.Json.{Json}
use estate_ci.Contract.Models.{Signature, empty_signature}
use estate_ci.Contract.Patterns.{is_digest}
use estate_ci.Contract.Crypto.{
  Crypto, Signer, IsSigner, digest_of, validate_signature, verify_signature, digest_of-is_digest,
}
use estate_ci.Contract.Document.{
  Document, IsDocument, material, default_version, seal, verify_digest, verify,
}

-- What `seal` has gone through when it returns a document.
record Sealed {D : Type 0} (doc : Document D) (c : Crypto) (signer : Signer) (draft d : D)
    : Type 0 where
  body : D
  digest : Text
  signed : Text
  is_body : default_version doc draft ≡ body
  valid : doc.validate zero_time body ≡ ok tt
  digested : digest_of c (material doc body) ≡ ok digest
  signs : signer.sign digest ≡ ok signed
  result :
      d
      ≡ doc.with_seal digest
          (record { algorithm = bytes "Ed25519"; key_id = signer.key_id; value = encode signed })
          body

seal-Sealed :
    {D : Type 0} (doc : Document D) (c : Crypto) (signer : Signer) (draft : D) {d : D}
    → seal doc c signer draft ≡ ok d
    → Sealed doc c signer draft d
unfolding seal
seal-Sealed doc c signer draft {d} h =
    let (valid, h1) = >>-eq-ok (doc.validate zero_time (default_version doc draft)) _ h in
    let (digest, digested, h2) =
      >>=-eq-ok (digest_of c (material doc (default_version doc draft))) _ h1 in
    let (signed, signs, h3) = >>=-eq-ok (on_error doc.sign_error (signer.sign digest)) _ h2 in
    record {
      body = default_version doc draft;
      digest = digest;
      signed = signed;
      is_body = refl;
      valid = valid;
      digested = digested;
      signs = on_error-eq-ok doc.sign_error (signer.sign digest) signs;
      result = cc;
    }

-- The seal that `seal` puts on a document.
abbrev seal_of : Signer → Text → Signature
seal_of signer signed = record {
  algorithm = bytes "Ed25519";
  key_id = signer.key_id;
  value = encode signed;
}

module _ {c : Crypto} {signer : Signer} (sound : IsSigner c signer) (digest signed : Text)
    (signs : signer.sign digest ≡ ok signed) where
  decode-value : decode (encode signed) ≡ some signed
  decode-value = decode-encode signed (sound.byte_sign digest signed signs)

  envelope :
      (expected : Text)
      → (is_empty expected || signer.key_id == expected) ≡ true
      → validate_signature (seal_of signer signed) expected ≡ ok tt
  unfolding validate_signature
  envelope expected h = rw (text_eq_refl (bytes "Ed25519")) (
      rw sound.valid_key_id
        (rw decode-value (rw (sound.length_sign digest signed signs) (rw h refl))))

  bound :
      (material : Json)
      → digest_of c material ≡ ok digest
      → verify_signature c material digest (seal_of signer signed) signer.public_key ≡ ok tt
  unfolding verify_signature
  bound material h = rw sound.length_public_key (
      rw h (
        rw (text_eq_refl digest)
          (rw decode-value (rw (sound.verify_sign digest signed signs) refl))))

or-right : (a : Bool) {b : Bool} → b ≡ true → (a || b) ≡ true
or-right a h = ground arith

-- The parts of `verify`, in its order.
verify_parts :
    {D : Type 0} (doc : Document D) (c : Crypto) (now : Time) (key pk : Text) (d : D) (g : Text)
    (j : Json) (v : Signature)
    → doc.validate now d ≡ ok tt
    → doc.digest d ≡ g
    → doc.signature d ≡ v
    → material doc d ≡ j
    → is_digest g ≡ true
    → validate_signature v ([]) ≡ ok tt
    → digest_of c j ≡ ok g
    → validate_signature v key ≡ ok tt
    → verify_signature c j g v pk ≡ ok tt
    → verify doc c now key pk d ≡ ok tt
unfolding verify verify_digest
verify_parts doc c now key pk d g j v e1 e2 e3 e4 e5 e6 e7 e8 e9 =
    rw (e1, e2, e3, e4, e5, e6, e7, text_eq_refl g, e8, e9)

module _ {D : Type 0} {doc : Document D} (lawful : IsDocument doc) {c : Crypto} {signer : Signer}
    (sound : IsSigner c signer) where
  material_sealed :
      (g : Text) (s : Signature) (d : D) → material doc (doc.with_seal g s d) ≡ material doc d
  material_sealed g s d = ap doc.json (lawful.with_seal_sealed g ([]) s empty_signature d)

  Sealed-verify :
      (now : Time) (draft d : D)
      → (s : Sealed doc c signer draft d) → doc.validate now s.body ≡ ok tt
      → verify doc c now signer.key_id signer.public_key d ≡ ok tt
  Sealed-verify now draft d s valid = rw s.result (
      verify_parts doc c now signer.key_id signer.public_key _ s.digest (material doc s.body)
        (seal_of signer s.signed) (lawful.validate_sealed now _ _ s.body ∙ valid)
        (lawful.digest_sealed _ _ s.body) (lawful.signature_sealed _ _ s.body)
        (material_sealed _ _ s.body)
        (digest_of-is_digest sound (material doc s.body) s.digest s.digested)
        (envelope sound s.digest s.signed s.signs [] refl) s.digested
        (envelope sound s.digest s.signed s.signs signer.key_id
          (or-right (is_empty signer.key_id) (text_eq_refl signer.key_id)))
        (bound sound s.digest s.signed s.signs (material doc s.body) s.digested))

  -- A document that `seal` returns passes `verify` with the signer's own key ID and public key, at
  -- the zero time and at every other time at which its fields are valid.
  pub seal-verify :
      (now : Time) (draft d : D)
      → seal doc c signer draft ≡ ok d
      → (now ≡ zero_time) ⊎ (doc.validate now d ≡ ok tt)
      → verify doc c now signer.key_id signer.public_key d ≡ ok tt
  seal-verify now draft d h when =
      let s = seal-Sealed doc c signer draft h in
      Sealed-verify now draft d s (elim when [
        | inl e ↦ rw e s.valid
        | inr v ↦ sym (lawful.validate_sealed now _ _ s.body) ∙ (rw s.result at v)
      ])

-- What `seal` returns is its draft, with the version filled in, under some seal.
pub seal-eq-with_seal :
    {D : Type 0} (doc : Document D) (c : Crypto) (signer : Signer) (draft d : D)
    → seal doc c signer draft ≡ ok d
    → (g : Text) × (v : Signature) × (d ≡ doc.with_seal g v (default_version doc draft))
seal-eq-with_seal doc c signer draft d h =
    let s = seal-Sealed doc c signer draft h in
    (s.digest, seal_of signer s.signed, rw s.is_body s.result)
