-- ===== src/Auth/Iap/Keys.antt =====
-- The key set of the identity proxy: `key` and `cacheLifetime` of internal/auth/iap.go.
use Prim.Native.String.{String}
use estate_ci.Prelude.{
  ℕ, ◌+◌, ◌*◌, Bool, true, false, not, ◌&&◌, Option, none, some, List, [], ◌∷◌, ◌++◌, Text, bytes,
  Result, ok, err, ◌>>=◌, ◌>>◌, guard, require, ℤ, pos, negsuc, leb, ltb, length, take, is_empty,
  nat_eq, if◌then◌else◌, ◌==◌, text_instance,
}
use estate_ci.Go.Base64.{decode}
use estate_ci.Go.Http.{HttpRequest, HttpResponse, Exchange}
use estate_ci.Go.Strconv.{parse_int}
use estate_ci.Go.Strings.{trim_space, equal_fold}
use estate_ci.Go.Time.{Time, second, minute}
use estate_ci.Contract.Patterns.{split}
use estate_ci.Storage.Cloud.Decoding.{Decoder, strict_json}
use estate_ci.Storage.Table.{Table, lookup, has, add}

-- The coordinates of a public key, in 32 bytes each.
pub record EcdsaKey : Type 0 where
  pub x : Text
  pub y : Text

-- What the program takes from crypto/sha256, crypto/ecdsa and crypto/elliptic for P-256.
pub record Ecdsa : Type 0 where
  pub sum256 : Text → Text
  pub verify : EcdsaKey → Text → Text → Text → Bool
  pub on_curve : EcdsaKey → Bool

pub record EncodedKey : Type 0 where
  pub algorithm : Text
  pub curve : Text
  pub key_id : Text
  pub key_type : Text
  pub usage : Text
  pub x : Text
  pub y : Text

pub record KeyCache : Type 0 where
  pub keys : Table EcdsaKey
  pub expires : Time

pub record KeySource (W : Type 0) : Type 0 where
  pub jwks_url : Text
  pub exchange : Exchange W
  pub document : Decoder (List EncodedKey)

-- The value of `max-age` in one directive, if it is one that is kept to.
abbrev pub seconds_within : Option ℤ → Option ℕ
seconds_within none = none
seconds_within (some (negsuc n)) = none
seconds_within (some (pos n)) = if leb 60 n && leb n 86400 then some n else none

-- `strings.Cut(s, "=")`
cut_from : Text → Text → Option (Text × Text)
cut_from name [] = none
cut_from name (c ∷ s) =
    let rest = cut_from (name ++ (c ∷ [])) s in if nat_eq c b'=' then some (name, s) else rest

abbrev pub directive_value : Option (Text × Text) → Option ℕ
directive_value none = none
directive_value (some (name, value)) =
    if equal_fold name (bytes "max-age") then seconds_within (parse_int value) else none

unfoldable pub max_age : Text → Option ℕ
unfolding cut_from
max_age directive = directive_value (cut_from ([]) (trim_space directive))

-- The first directive that gives a lifetime.
unfoldable pub first_lifetime : List Text → Time
first_lifetime [] = 10 * minute
first_lifetime (d ∷ ds) = elim (max_age d) [ some n ↦ n * second | none ↦ first_lifetime ds ]

unfoldable pub cache_lifetime : Text → Time
cache_lifetime cache_control = first_lifetime (split b',' cache_control)

unfoldable pub decode_key : Ecdsa → EncodedKey → Result String EcdsaKey
decode_key ecdsa e = do
  guard
      (e.algorithm == bytes "ES256"
        && e.curve == bytes "P-256"
        && e.key_type == bytes "EC"
        && e.usage == bytes "sig"
        && not (is_empty e.key_id))
      "IAP verification key has an invalid contract"
  x ← require (decode e.x) "IAP verification key coordinates are invalid"
  y ← require (decode e.y) "IAP verification key coordinates are invalid"
  guard (nat_eq (length x) 32 && nat_eq (length y) 32)
      "IAP verification key coordinates are invalid"
  guard (ecdsa.on_curve (record { x = x; y = y })) "IAP verification key is not on P-256"
  ok (record { x = x; y = y })

-- The loop over the keys, with those that have been read before.
unfoldable pub decode_keys :
    Ecdsa → Table EcdsaKey → List EncodedKey → Result String (Table EcdsaKey)
decode_keys ecdsa keys [] = ok keys
decode_keys ecdsa keys (e ∷ es) = do
  key ← decode_key ecdsa e
  guard (not (has e.key_id keys)) "IAP verification key ID is duplicated"
  decode_keys ecdsa (add e.key_id key keys) es

abbrev pub read_body : Decoder (List EncodedKey) → Option Text → Result String (List EncodedKey)
read_body decoder none = err "IAP verification key set is invalid"
read_body decoder (some body) = strict_json decoder (take (1024 * 1024) body)

abbrev pub bounded_keys : Result String (List EncodedKey) → Result String (List EncodedKey)
bounded_keys (err e) = err "IAP verification key set is invalid"
bounded_keys (ok es) =
    if leb 1 (length es) && leb (length es) 20
    then ok es
    else err "IAP verification key set is invalid"

-- The key set of a response.
unfoldable pub fetched_keys :
    Ecdsa
    → Decoder (List EncodedKey)
    → Result String HttpResponse
    → Result String (Table EcdsaKey × Text)
fetched_keys ecdsa decoder (err e) = err "fetch IAP verification keys"
fetched_keys ecdsa decoder (ok response) = do
  guard (nat_eq response.status 200) "fetch IAP verification keys: HTTP status"
  es ← bounded_keys (read_body decoder response.body)
  keys ← decode_keys ecdsa ([]) es
  ok (keys, response.header (bytes "Cache-Control"))

unfoldable pub jwks_request : Text → HttpRequest
jwks_request url = record { method = bytes "GET"; url = url; headers = []; body = [] }

abbrev pub found_key : Option EcdsaKey → Result String EcdsaKey
found_key none = err "IAP assertion references an unknown verification key"
found_key (some key) = ok key

-- The key in the cache, if the cache has not expired.
abbrev pub cached_key : Bool → Option EcdsaKey → Option EcdsaKey
cached_key true found = found
cached_key false found = none

module _ {W : Type 0} (source : KeySource W) (ecdsa : Ecdsa) where
  -- A new key set takes the place of the old one, also if it does not have the key.
  abbrev pub keep_keys :
      Time
      → Text
      → Result String (Table EcdsaKey × Text)
      → KeyCache
      → W
      → Result String EcdsaKey × KeyCache × W
  keep_keys now key_id (err e) cache w = (err e, cache, w)
  keep_keys now key_id (ok (keys, cache_control)) cache w = (
    found_key (lookup key_id keys),
    record { keys = keys; expires = now + cache_lifetime cache_control },
    w,
  )

  abbrev pub key_or_fetch :
      Time → Text → Option EcdsaKey → KeyCache → W → Result String EcdsaKey × KeyCache × W
  key_or_fetch now key_id (some key) cache w = (ok key, cache, w)
  key_or_fetch now key_id none cache w =
      let (response, w') = source.exchange (jwks_request source.jwks_url) w in
      keep_keys now key_id (fetched_keys ecdsa source.document response) cache w'

  unfoldable pub key_for :
      (W → Time × W) → Text → KeyCache × W → Result String EcdsaKey × KeyCache × W
  key_for clock key_id (cache, w) =
      let (now, w1) = clock w in
      key_or_fetch now key_id (cached_key (ltb now cache.expires) (lookup key_id cache.keys)) cache
        w1
