-- ===== src/Tests/AdcWitnesses.antt =====
-- The theorem on internal/adc/metadata.go at concrete data.
use Prim.Native.String.{String}
use estate_ci.Prelude.{inl, refl, ℕ, ◌+◌, some, [], ◌∷◌, bytes, Result, ok, pos, text_instance}
use estate_ci.Go.Http.{HttpRequest, HttpResponse}
use estate_ci.Adc.{MetadataTokenSource, round_trip}
use estate_ci.Adc.Granted.{Carried, IsSound, round_trip-Carried}
use estate_ci.Github.Tokens.{TokenCache}
use estate_ci.Tests.Data.{noon_time}

-- The metadata server, and the service behind the transport.
abbrev server : HttpRequest → ℕ → Result String HttpResponse × ℕ
server r n =
    (ok (record { status = 200; header = λ name. bytes "Google"; body = some (bytes "{}") }), n + 1)

abbrev source : MetadataTokenSource ℕ
source = record {
  endpoint = bytes "http://metadata.google.internal/token";
  scopes = bytes "https://www.googleapis.com/auth/devstorage.read_write" ∷ [];
  exchange = server;
  now = λ n. (noon_time, n);
  payload = λ raw. some (
    record { access_token = bytes "ya29"; expires_in = pos 3600; token_type = bytes "Bearer" },
    [],
  );
}

abbrev download : HttpRequest
download = record {
  method = bytes "GET";
  url = bytes "https://storage.googleapis.com/storage/v1/b/estate-audit/o/a";
  headers = [];
  body = [];
}

abbrev empty : TokenCache
empty = record { token = []; expires = 0 }

round_trip-Carried_example :
    Carried source server download empty 0 (round_trip source server download (empty, 0))
    × IsSound source (round_trip source server download (empty, 0)).1
round_trip-Carried_example = round_trip-Carried source server download empty 0 (inl refl)
