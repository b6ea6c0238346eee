-- ===== src/Github/Tokens.antt =====
-- `InstallationTokenSource` of internal/githubapp/client.go: a token of the installation, kept while
-- it has more than a minute left.
use Prim.Native.String.{String}
use estate_ci.Prelude.{
  ◌+◌, ◌-◌, ◌*◌, Bool, not, ◌&&◌, Option, none, some, [], ◌∷◌, ◌++◌, Text, bytes, Result, ok, err,
  ℤ, int_text, leb, ltb, nat_eq, length, take, is_empty, if◌then◌else◌, ◌==◌, text_instance,
  contains_any,
}
use estate_ci.Go.Http.{HttpRequest, HttpResponse, Exchange}
use estate_ci.Go.Strings.{trim_space}
use estate_ci.Go.Base64.{encode}
use estate_ci.Go.Time.{Time, second, minute, hour, parse_time, unix_seconds}
use estate_ci.Contract.Json.{object, no_fields, text_field, int_field}
use estate_ci.Contract.Canonical.{write_canonical}
use estate_ci.Storage.Cloud.{or_nil}
use estate_ci.Contract.Patterns.{line_breaks}
use estate_ci.Storage.Cloud.Decoding.{Decoder, strict_json}
use estate_ci.Github.Config.{AppConfig}

-- The token and expiry of a response.
pub record TokenPayload : Type 0 where
  pub token : Text
  pub expires_at : Text

-- The cached token, empty at first.
pub record TokenCache : Type 0 where
  pub token : Text
  pub expires : Time

pub record TokenSource (W : Type 0) : Type 0 where
  pub config : AppConfig
  pub exchange : Exchange W
  pub api_base : Text
  pub now : W → Time × W
  -- `readPrivateKey` of the file; SHA-256 and `rsa.SignPKCS1v15` of a text with the key
  pub read_key : Text → W → Result String Text × W
  pub sign : Text → Text → W → Result String Text × W
  pub payload : Decoder TokenPayload

abbrev pub Tokens : Type 0 → Type 0 → Type 0
Tokens W A = TokenCache × W → Result String A × TokenCache × W

unfoldable pub valid_token : Text → Bool
unfolding trim_space contains_any
valid_token token =
    not (is_empty token)
    && leb (length token) 4096
    && trim_space token == token
    && not (contains_any line_breaks token)

-- The expiry lies in the two hours from `now` on, and not in their first minute.
abbrev pub accept_expiry : Text → Time → Option Time → Result String TokenCache
accept_expiry token now none = err "GitHub App installation token expiry is invalid"
accept_expiry token now (some expires) =
    if ltb (now + minute) expires && leb expires (now + 2 * hour)
    then ok (record { token = token; expires = expires })
    else err "GitHub App installation token expiry is invalid"

abbrev pub accept_payload : Time → Result String TokenPayload → Result String TokenCache
accept_payload now (err e) = err "GitHub App installation token response is invalid"
accept_payload now (ok payload) =
    if valid_token payload.token
    then accept_expiry payload.token now (parse_time payload.expires_at)
    else err "GitHub App installation token response is invalid"

abbrev pub read_payload : Decoder TokenPayload → Time → Option Text → Result String TokenCache
read_payload decoder now none = err "GitHub App installation token response is invalid"
read_payload decoder now (some body) = accept_payload now (strict_json decoder (take 32768 body))

unfoldable pub accept_token :
    Decoder TokenPayload → Time → Result String HttpResponse → Result String TokenCache
accept_token decoder now (err e) = err "exchange GitHub App installation token"
accept_token decoder now (ok response) =
    if nat_eq response.status 201
    then read_payload decoder now response.body
    else err "exchange GitHub App installation token: HTTP status"

-- The signing input of `signAppJWT`: good for nine minutes, and from half a minute ago.
unfoldable pub jwt_input : ℤ → Time → Text
jwt_input app_id now =
    encode (
      or_nil (
        write_canonical
          (object (text_field "alg" (bytes "RS256") (text_field "typ" (bytes "JWT") no_fields)))))
    ++ (b'.'
        ∷ encode (
            or_nil (
              write_canonical (
                object (
                  int_field "exp" (unix_seconds (now + 9 * minute)) (
                    int_field "iat" (unix_seconds (now - 30 * second))
                      (int_field "iss" app_id no_fields)))))))

abbrev pub signed_jwt : Text → Result String Text → Result String Text
signed_jwt input (err e) = err "sign GitHub App JWT"
signed_jwt input (ok signature) = ok (input ++ (b'.' ∷ encode signature))

-- The cache after an exchange, and the token.
abbrev pub keep_token :
    {W : Type 0} → Result String TokenCache → TokenCache → W → Result String Text × TokenCache × W
keep_token (err e) cache w = (err e, cache, w)
keep_token (ok fresh) cache w = (ok fresh.token, fresh, w)

unfoldable pub token_request : Text → AppConfig → Text → HttpRequest
token_request api_base config jwt = record {
  method = bytes "POST";
  url =
      api_base
      ++ (bytes "/app/installations/"
          ++ (int_text config.installation_id ++ bytes "/access_tokens"));
  headers =
      (bytes "Accept", bytes "application/vnd.github+json")
      ∷ (bytes "Authorization", bytes "Bearer " ++ jwt)
      ∷ (bytes "Content-Type", bytes "application/json")
      ∷ (bytes "X-GitHub-Api-Version", bytes "2022-11-28")
      ∷ [];
  body = bytes "{}";
}

module _ {W : Type 0} (source : TokenSource W) where
  open source use {config, exchange, api_base}

  unfoldable pub sign_jwt : Text → Time → W → Result String Text × W
  sign_jwt key now w =
      let input = jwt_input config.app_id now in
      let (signature, w') = source.sign key input w in (signed_jwt input signature, w')

  abbrev pub exchange_token :
      Time → Result String Text → TokenCache → W → Result String Text × TokenCache × W
  exchange_token now (err e) cache w = (err e, cache, w)
  exchange_token now (ok jwt) cache w =
      let (response, w') = exchange (token_request api_base config jwt) w in
      keep_token (accept_token source.payload now response) cache w'

  abbrev pub sign_and_exchange :
      Result String Text → TokenCache → W → Result String Text × TokenCache × W
  sign_and_exchange (err e) cache w = (err e, cache, w)
  sign_and_exchange (ok key) cache w =
      let (now, w1) = source.now w in
      let (jwt, w2) = sign_jwt key now w1 in exchange_token now jwt cache w2

  unfoldable pub fetch_token : TokenCache → W → Result String Text × TokenCache × W
  fetch_token cache w =
      let (key, w1) = source.read_key config.private_key_file w in sign_and_exchange key cache w1

  unfoldable pub token : Tokens W Text
  token (cache, w) =
      let (now, w1) = source.now w in
      if is_empty cache.token
      then fetch_token cache w
      else if ltb (now + minute) cache.expires
      then (ok cache.token, cache, w1)
      else fetch_token cache w1
