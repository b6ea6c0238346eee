-- ===== src/Auth/Iap.antt =====
-- `JWKSValidator` of internal/auth/iap.go: the assertions of the identity proxy.
pub mod Keys
pub mod Validated
pub mod CachedKeys
use Prim.Native.String.{String}
use estate_ci.Prelude.{
  ℕ, ◌+◌, ◌-◌, ◌*◌, Bool, true, false, not, ◌&&◌, ◌||◌, Option, none, some, List, [], ◌∷◌, ◌++◌,
  Text, bytes, Result, ok, err, ◌>>=◌, ◌>>◌, guard, require, ℤ, pos, negsuc, leb, ltb, length, take,
  drop, is_empty, nat_eq, if◌then◌else◌, ◌==◌, text_instance, contains_any, starts_with, on_error,
}
use estate_ci.Go.Base64.{decode}
use estate_ci.Go.Strconv.{parse_int}
use estate_ci.Go.Strings.{trim_space, to_lower}
use estate_ci.Go.Time.{Time, second, hour, unix_epoch}
use estate_ci.Go.Url.{Url}
use estate_ci.Auth.Identity.{Identity}
use estate_ci.Auth.Iap.Keys.{EcdsaKey, Ecdsa, KeyCache, KeySource, key_for}
use estate_ci.Contract.Patterns.{split, line_breaks}
use estate_ci.Storage.Cloud.Decoding.{Decoder, strict_json}

abbrev pub iap_issuer : Text
iap_issuer = bytes "https://cloud.google.com/iap"

pub record JwtHeader : Type 0 where
  pub algorithm : Text
  pub key_id : Text
  pub kind : Text

-- `json.Number` is the text of a number.
pub record JwtClaims : Type 0 where
  pub audience : Text
  pub email : Text
  pub expires_at : Text
  pub issued_at : Text
  pub issuer : Text
  pub subject : Text

pub record Validator (W : Type 0) : Type 0 where
  pub audience : Text
  pub issuer : Text
  pub keys : KeySource W
  pub now : W → Time × W
  pub ecdsa : Ecdsa
  -- `json.Decoder` on the two parts of an assertion; the first one takes no unknown fields
  pub jwt_header : Decoder JwtHeader
  pub claims : Decoder JwtClaims

-- `NewJWKSValidator`: its checks of the audience and of the URL of the keys.
unfoldable pub check_validator : (Text → Option Url) → Text → Text → Result String (Unit {0})
check_validator parse audience jwks_url = do
  guard (not (is_empty (trim_space audience)) && leb (length audience) 512)
      "IAP audience is required"
  u ← require (parse jwks_url) "JWKS URL must use HTTPS"
  guard (u.scheme == bytes "https" || starts_with (bytes "http://127.0.0.1:") jwks_url)
      "JWKS URL must use HTTPS"

-- `time.Unix(n, 0)`. An instant that is too far off for a `time.Time`, or before the start of the time
-- line, is outside of every validity window either way.
unfoldable pub unix_time : ℤ → Time
unix_time (pos n) = unix_epoch + n * second
unix_time (negsuc n) = unix_epoch - (n + 1) * second

unfoldable pub decode_segment : {A : Type 0} → Decoder A → Text → Result String A
decode_segment decoder segment = do
  raw ← require (decode segment) "JWT segment is invalid"
  guard (leb (length raw) 8192) "JWT segment is invalid"
  strict_json decoder raw

-- The three parts of a compact assertion.
abbrev pub three_parts : List Text → Option (Text × Text × Text)
three_parts (h ∷ c ∷ s ∷ []) = some (h, c, s)
three_parts _ = none

unfoldable pub compact : Text → Result String (Text × Text × Text)
compact token = do
  guard (leb (length token) 16384) "IAP assertion has an invalid compact form"
  require (three_parts (split b'.' token)) "IAP assertion has an invalid compact form"

unfoldable pub read_header : {W : Type 0} → Validator W → Text → Result String JwtHeader
read_header validator segment = do
  header ← on_error "IAP assertion header is invalid" (decode_segment validator.jwt_header segment)
  guard
      (header.algorithm == bytes "ES256"
        && header.kind == bytes "JWT"
        && not (is_empty header.key_id)
        && leb (length header.key_id) 256)
      "IAP assertion algorithm or key is invalid"
  ok header

-- The signature of the first two parts.
unfoldable pub verify_parts : Ecdsa → EcdsaKey → Text → Text → Text → Result String (Unit {0})
verify_parts ecdsa key header claims signature = do
  raw ← require (decode signature) "IAP assertion signature is invalid"
  guard (nat_eq (length raw) 64) "IAP assertion signature is invalid"
  guard (ecdsa.verify key (ecdsa.sum256 (header ++ (b'.' ∷ claims))) (take 32 raw) (drop 32 raw))
      "IAP assertion signature verification failed"

-- The claims, and their instants.
pub record TimedClaims : Type 0 where
  pub claims : JwtClaims
  pub issued_at : Time
  pub expires_at : Time

unfoldable pub read_claims : {W : Type 0} → Validator W → Text → Result String TimedClaims
read_claims validator segment = do
  claims ← on_error "IAP assertion claims are invalid" (decode_segment validator.claims segment)
  issued_unix ← require (parse_int claims.issued_at) "IAP assertion iat is invalid"
  expires_unix ← require (parse_int claims.expires_at) "IAP assertion exp is invalid"
  ok (record {
    claims = claims;
    issued_at = unix_time issued_unix;
    expires_at = unix_time expires_unix;
  })

abbrev pub normal_email : JwtClaims → Text
normal_email claims = to_lower (trim_space claims.email)

-- The checks of the claims at the instant `now`.
unfoldable pub identity_of :
    {W : Type 0} → Validator W → Time → TimedClaims → Result String Identity
identity_of validator now t = do
  guard (t.claims.issuer == validator.issuer && t.claims.audience == validator.audience)
      "IAP assertion issuer or audience is invalid"
  guard
      (leb t.issued_at (now + 30 * second)
        && ltb (now - 30 * second) t.expires_at
        && leb (t.expires_at - t.issued_at) (2 * hour))
      "IAP assertion is outside its validity window"
  guard
      (not (is_empty (normal_email t.claims))
        && not (is_empty t.claims.subject)
        && leb (length (normal_email t.claims)) 320
        && not (contains_any line_breaks (normal_email t.claims)))
      "IAP assertion identity is invalid"
  ok (record {
    subject = t.claims.subject;
    email = normal_email t.claims;
    issued_at = t.issued_at;
    expires_at = t.expires_at;
  })

module _ {W : Type 0} (validator : Validator W) where
  abbrev pub at_now :
      Result String TimedClaims → KeyCache × W → Result String Identity × KeyCache × W
  at_now (err e) (cache, w) = (err e, cache, w)
  at_now (ok t) (cache, w) =
      let (now, w') = validator.now w in (identity_of validator now t, cache, w')

  -- The part of `Validate` behind the key.
  abbrev pub with_key :
      Text × Text × Text
      → Result String EcdsaKey
      → KeyCache × W
      → Result String Identity × KeyCache × W
  with_key parts (err e) (cache, w) = (err e, cache, w)
  with_key (header, claims, signature) (ok key) (cache, w) =
      at_now
        (verify_parts validator.ecdsa key header claims signature >> read_claims validator claims)
        (cache, w)

  abbrev pub with_header :
      Text × Text × Text
      → Result String JwtHeader
      → KeyCache × W
      → Result String Identity × KeyCache × W
  with_header parts (err e) (cache, w) = (err e, cache, w)
  with_header parts (ok header) (cache, w) =
      let (key, cache', w') =
        key_for validator.keys validator.ecdsa validator.now header.key_id (cache, w) in
      with_key parts key (cache', w')

  abbrev pub with_parts :
      Result String (Text × Text × Text) → KeyCache × W → Result String Identity × KeyCache × W
  with_parts (err e) (cache, w) = (err e, cache, w)
  with_parts (ok parts) (cache, w) = with_header parts (read_header validator parts.0) (cache, w)

  unfoldable pub validate : Text → KeyCache × W → Result String Identity × KeyCache × W
  validate token state = with_parts (compact token) state
