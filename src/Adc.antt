-- ===== src/Adc.antt =====
-- internal/adc/metadata.go: access tokens of the workload identity, kept while they have more than a
-- minute left.
pub mod Granted
use Prim.Native.String.{String}
use estate_ci.Prelude.{
  ℕ, ◌+◌, ◌*◌, Bool, true, false, ◌&&◌, Option, none, some, List, [], ◌∷◌, ◌++◌, Text, bytes,
  Result, ok, err, ◌>>◌, ◌>>=◌, guard, require, ℤ, pos, negsuc, leb, ltb, nat_eq, length, take,
  is_empty, if◌then◌else◌, ◌==◌, text_instance, starts_with,
}
use estate_ci.Go.Http.{HttpRequest, HttpResponse, Exchange}
use estate_ci.Go.Time.{Time, second, minute}
use estate_ci.Go.Url.{Url, query_escape}
use estate_ci.Storage.Cloud.Decoding.{Decoder, strict_json}
use estate_ci.Github.Tokens.{valid_token, TokenCache}

pub record AccessPayload : Type 0 where
  pub access_token : Text
  pub expires_in : ℤ
  pub token_type : Text

pub record MetadataTokenSource (W : Type 0) : Type 0 where
  pub endpoint : Text
  pub scopes : List Text
  pub exchange : Exchange W
  pub now : W → Time × W
  pub payload : Decoder AccessPayload

-- The checks of `newMetadataTokenSource`.
unfoldable pub check_scopes : (Text → Option Url) → List Text → Result String (Unit {0})
check_scopes parse [] = ok tt
check_scopes parse (scope ∷ scopes) = do
  u ← require (parse scope) "metadata token scope is invalid"
  guard
      (u.scheme == bytes "https"
        && u.host == bytes "www.googleapis.com"
        && starts_with (bytes "/auth/") u.path)
      "metadata token scope is invalid"
  check_scopes parse scopes

unfoldable pub check_source : (Text → Option Url) → List Text → Result String (Unit {0})
check_source parse scopes = do
  guard (leb 1 (length scopes) && leb (length scopes) 10) "metadata token scopes are required"
  check_scopes parse scopes

-- `strings.Join(scopes, ",")`
unfoldable pub join_scopes : List Text → Text
join_scopes [] = []
join_scopes (s ∷ []) = s
join_scopes (s ∷ t ∷ rest) = s ++ (b',' ∷ join_scopes (t ∷ rest))

unfoldable pub metadata_request : Text → List Text → HttpRequest
metadata_request endpoint scopes = record {
  method = bytes "GET";
  url = endpoint ++ (bytes "?scopes=" ++ query_escape (join_scopes scopes));
  headers = (bytes "Metadata-Flavor", bytes "Google") ∷ [];
  body = [];
}

-- The lifetime in seconds, if it is one that is taken.
abbrev pub lifetime : ℤ → Option ℕ
lifetime (negsuc n) = none
lifetime (pos n) = if leb 60 n && leb n 7200 then some n else none

abbrev pub granted : Text → Bool → Option ℕ → Result String (Text × ℕ)
granted token true (some seconds) = ok (token, seconds)
granted token true none = err "workload identity access token response is invalid"
granted token false seconds = err "workload identity access token response is invalid"

abbrev pub grant : Result String AccessPayload → Result String (Text × ℕ)
grant (err e) = err "workload identity access token response is invalid"
grant (ok p) =
    granted p.access_token (valid_token p.access_token && p.token_type == bytes "Bearer")
      (lifetime p.expires_in)

abbrev pub grant_body : Decoder AccessPayload → Option Text → Result String (Text × ℕ)
grant_body decoder none = err "workload identity access token response is invalid"
grant_body decoder (some body) = grant (strict_json decoder (take 16384 body))

-- The token of a response, and the seconds that it lasts.
unfoldable pub accept_access :
    Decoder AccessPayload → Result String HttpResponse → Result String (Text × ℕ)
accept_access decoder (err e) = err "obtain workload identity access token"
accept_access decoder (ok response) =
    if nat_eq response.status 200 && response.header (bytes "Metadata-Flavor") == bytes "Google"
    then grant_body decoder response.body
    else err "obtain workload identity access token: HTTP status"

module _ {W : Type 0} (source : MetadataTokenSource W) where
  abbrev pub keep_access :
      Result String (Text × ℕ) → TokenCache → W → Result String Text × TokenCache × W
  keep_access (err e) cache w = (err e, cache, w)
  keep_access (ok (token, seconds)) cache w =
      let (now, w') = source.now w in
      (ok token, record { token = token; expires = now + seconds * second }, w')

  unfoldable pub fetch_access : TokenCache → W → Result String Text × TokenCache × W
  fetch_access cache w =
      let (response, w') = source.exchange (metadata_request source.endpoint source.scopes) w in
      keep_access (accept_access source.payload response) cache w'

  unfoldable pub access_token : TokenCache × W → Result String Text × TokenCache × W
  access_token (cache, w) =
      let (now, w1) = source.now w in
      if is_empty cache.token
      then fetch_access cache w
      else if ltb (now + minute) cache.expires
      then (ok cache.token, cache, w1)
      else fetch_access cache w1

  -- `Header.Set` on the copy: the first entry of a name counts.
  abbrev pub authorized_request : HttpRequest → Text → HttpRequest
  authorized_request request token = record request {
    headers = (bytes "Authorization", bytes "Bearer " ++ token) ∷ request.headers;
  }

  abbrev pub with_access :
      Exchange W
      → HttpRequest
      → Result String Text
      → TokenCache
      → W
      → Result String HttpResponse × TokenCache × W
  with_access base request (err e) cache w = (err e, cache, w)
  with_access base request (ok token) cache w =
      let (response, w') = base (authorized_request request token) w in (response, cache, w')

  -- A request goes on with the token, or not at all.
  unfoldable pub round_trip :
      Exchange W → HttpRequest → TokenCache × W → Result String HttpResponse × TokenCache × W
  round_trip base request state =
      let (token, cache, w) = access_token state in with_access base request token cache w
