-- ===== src/Auth/Iap/Validated.antt =====
-- `Validate` of internal/auth/iap.go.
use Prim.Native.String.{String}
use estate_ci.Prelude.{
  ◌+◌, ◌-◌, ◌*◌, ◌≤◌, ◌<◌, ◌≡◌, refl, ap, sym, ◌∙◌, true, false, not, ◌&&◌, Option, none, some, ◌∷◌,
  ◌++◌, Text, bytes, Result, ok, err, guard, require, on_error, leb, ltb, length, is_empty, ◌==◌,
  text_instance, arith, text_eq_iff, >>=-eq-ok, >>-eq-ok, guard-ok, ok-inj, contains_any, nat_eq,
  take, drop,
}
use estate_ci.Go.Base64.{decode}
use estate_ci.Go.Strings.{trim_space, to_lower}
use estate_ci.Go.Time.{Time, second, hour}
use estate_ci.Auth.Identity.{Identity}
use estate_ci.Auth.Iap.Keys.{EcdsaKey, Ecdsa, KeyCache, key_for}
use estate_ci.Contract.Patterns.{line_breaks}
use estate_ci.Auth.Iap.{
  Validator, JwtHeader, TimedClaims, compact, read_header, verify_parts, read_claims, identity_of,
  normal_email, at_now, with_key, with_header, with_parts, validate, decode_segment,
}

require-ok : {A : Type 0} (o : Option A) (e : String) {a : A} → require o e ≡ ok a → o ≡ some a
require-ok (some a) e h = cc
require-ok none e h = cc

verify_parts-ok :
    (ecdsa : Ecdsa) (key : EcdsaKey) (header claims signature : Text)
    → verify_parts ecdsa key header claims signature ≡ ok tt
    → (raw : Text) × (decode signature ≡ some raw)
      × (ecdsa.verify key (ecdsa.sum256 (header ++ (b'.' ∷ claims))) (take 32 raw) (drop 32 raw)
          ≡ true)
unfolding verify_parts
verify_parts-ok ecdsa key header claims signature h =
    let (raw, decoded, more) = >>=-eq-ok (require (decode signature) _) _ h in
    let (long, last) = >>-eq-ok (guard (nat_eq (length raw) 64) _) _ more in
    (raw, require-ok _ _ decoded, guard-ok _ _ last)

module _ {W : Type 0} (validator : Validator W) where
  read_header-algorithm :
      (segment : Text) (header : JwtHeader)
      → read_header validator segment ≡ ok header
      → header.algorithm ≡ bytes "ES256"
  unfolding read_header
  read_header-algorithm segment header h =
      let (read, decoded, more) =
        >>=-eq-ok
          (on_error "IAP assertion header is invalid" (decode_segment validator.jwt_header segment))
          _ h in
      let (valid, last) =
        >>-eq-ok
          (guard
            (read.algorithm == bytes "ES256"
              && read.kind == bytes "JWT"
              && not (is_empty read.key_id)
              && leb (length read.key_id) 256)
            "IAP assertion algorithm or key is invalid")
          _ more in
      let known = guard-ok _ _ valid in
      ap (λ x. x.algorithm) (sym (ok-inj _ refl last))
      ∙ ground (arith, known, text_eq_iff read.algorithm (bytes "ES256"))

  -- The claims are those of this validator's audience, within their window at `now`, and give the
  -- identity.
  pub record IsCurrent (now : Time) (t : TimedClaims) (identity : Identity) : Type 0 where
    pub issuer : t.claims.issuer ≡ validator.issuer
    pub audience : t.claims.audience ≡ validator.audience
    pub issued : t.issued_at ≤ now + 30 * second
    pub unexpired : now < t.expires_at + 30 * second
    pub short : t.expires_at ≤ t.issued_at + 2 * hour
    pub email : identity.email ≡ to_lower (trim_space t.claims.email)
    pub given : is_empty identity.email ≡ false
    pub subject : identity.subject ≡ t.claims.subject

  -- What an accepted assertion is.
  pub record IsValid (token : Text) (state : KeyCache × W) (identity : Identity) : Type 0 where
    pub header_part : Text
    pub claims_part : Text
    pub signature_part : Text
    pub parts : compact token ≡ ok (header_part, claims_part, signature_part)
    pub header : JwtHeader
    pub read : read_header validator header_part ≡ ok header
    pub algorithm : header.algorithm ≡ bytes "ES256"
    pub key : EcdsaKey
    pub keyed :
        (key_for validator.keys validator.ecdsa validator.now header.key_id state).0 ≡ ok key
    pub signature : Text
    pub decoded : decode signature_part ≡ some signature
    pub verified :
        validator.ecdsa.verify key
          (validator.ecdsa.sum256 (header_part ++ (b'.' ∷ claims_part)))
          (take 32 signature)
          (drop 32 signature)
        ≡ true
    pub claims : TimedClaims
    pub claimed : read_claims validator claims_part ≡ ok claims
    pub current :
        IsCurrent
          (validator.now
            (key_for validator.keys validator.ecdsa validator.now header.key_id state).2).0
          claims
          identity

  identity-IsCurrent :
      (now : Time) (t : TimedClaims) (identity : Identity)
      → identity_of validator now t ≡ ok identity
      → IsCurrent now t identity
  unfolding identity_of
  identity-IsCurrent now t identity h =
      let at1 =
        >>-eq-ok
          (guard (t.claims.issuer == validator.issuer && t.claims.audience == validator.audience)
            "IAP assertion issuer or audience is invalid")
          _ h in
      let at2 =
        >>-eq-ok
          (guard
            (leb t.issued_at (now + 30 * second)
              && ltb (now - 30 * second) t.expires_at
              && leb (t.expires_at - t.issued_at) (2 * hour))
            "IAP assertion is outside its validity window")
          _ at1.1 in
      let at3 =
        >>-eq-ok
          (guard
            (not (is_empty (normal_email t.claims))
              && not (is_empty t.claims.subject)
              && leb (length (normal_email t.claims)) 320
              && not (contains_any line_breaks (normal_email t.claims)))
            "IAP assertion identity is invalid")
          _ at2.1 in
      let from = guard-ok _ _ at1.0 in
      let window = guard-ok _ _ at2.0 in
      let person = guard-ok _ _ at3.0 in
      let is = sym (ok-inj _ refl at3.1) in
      record {
        issuer = ground (arith, from, text_eq_iff t.claims.issuer validator.issuer);
        audience = ground (arith, from, text_eq_iff t.claims.audience validator.audience);
        issued = ground (arith, window);
        unexpired = ground (arith, window);
        short = ground (arith, window);
        email = ap (λ i. i.email) is;
        given = ap (λ i. is_empty i.email) is ∙ ground (arith, person);
        subject = ap (λ i. i.subject) is;
      }

  -- The state after the key has been looked up.
  abbrev keyed_state : JwtHeader → KeyCache × W → KeyCache × W
  keyed_state header state =
      let (key, cache, w) =
        key_for validator.keys validator.ecdsa validator.now header.key_id state in
      (cache, w)

  at_now-IsCurrent :
      (m : Result String TimedClaims) (state : KeyCache × W) (identity : Identity)
      → (at_now validator m state).0 ≡ ok identity
      → (t : TimedClaims) × (m ≡ ok t) × IsCurrent (validator.now state.1).0 t identity
  at_now-IsCurrent (err e) state identity h = cc
  at_now-IsCurrent (ok t) state identity h =
      (t, refl, identity-IsCurrent (validator.now state.1).0 t identity h)

  key-IsValid :
      (token h c s : Text) (state : KeyCache × W) (identity : Identity) (header : JwtHeader)
      (key : Result String EcdsaKey)
      → compact token ≡ ok (h, c, s)
      → read_header validator h ≡ ok header
      → (key_for validator.keys validator.ecdsa validator.now header.key_id state).0 ≡ key
      → (with_key validator (h, c, s) key (keyed_state header state)).0 ≡ ok identity
      → IsValid token state identity
  key-IsValid token h c s state identity header (err e) parts read keyed done = cc
  key-IsValid token h c s state identity header (ok key) parts read keyed done =
      let (t, chain, current) = at_now-IsCurrent _ (keyed_state header state) identity done in
      let (signed, claimed) =
        >>-eq-ok (verify_parts validator.ecdsa key h c s) (read_claims validator c) chain in
      let (raw, decoded, verified) = verify_parts-ok validator.ecdsa key h c s signed in
      record {
        header_part = h;
        claims_part = c;
        signature_part = s;
        parts = parts;
        header = header;
        read = read;
        algorithm = read_header-algorithm h header read;
        key = key;
        keyed = keyed;
        signature = raw;
        decoded = decoded;
        verified = verified;
        claims = t;
        claimed = claimed;
        current = current;
      }

  header-IsValid :
      (token h c s : Text) (state : KeyCache × W) (identity : Identity)
      (header : Result String JwtHeader)
      → compact token ≡ ok (h, c, s)
      → read_header validator h ≡ header
      → (with_header validator (h, c, s) header state).0 ≡ ok identity
      → IsValid token state identity
  header-IsValid token h c s state identity (err e) parts read done = cc
  header-IsValid token h c s state identity (ok header) parts read done =
      key-IsValid token h c s state identity header _ parts read refl done

  parts-IsValid :
      (token : Text) (state : KeyCache × W) (identity : Identity)
      (parts : Result String (Text × Text × Text))
      → compact token ≡ parts
      → (with_parts validator parts state).0 ≡ ok identity
      → IsValid token state identity
  parts-IsValid token state identity (err e) same done = cc
  parts-IsValid token state identity (ok (h, c, s)) same done =
      header-IsValid token h c s state identity _ same refl done

  -- An assertion that `Validate` accepts has three parts; its header names the algorithm ES256; the key that the header names, out of the cache or fetched, verifies the signature of the
  -- first two parts; and its claims are of the validator's issuer and audience, were issued no later
  -- than 30 seconds from the clock's reading on, expired no more than 30 seconds ago, span two hours
  -- at most, and give the subject and the email, which is not empty, of the identity.
  pub validate-IsValid :
      (token : Text) (state : KeyCache × W) (identity : Identity)
      → (validate validator token state).0 ≡ ok identity
      → IsValid token state identity
  unfolding validate
  validate-IsValid token state identity h = parts-IsValid token state identity _ refl h
