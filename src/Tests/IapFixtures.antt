-- ===== src/Tests/IapFixtures.antt =====
-- A concrete validator of assertions, with a key server.
use Prim.Native.String.{String}
use estate_ci.Prelude.{ℕ, ◌+◌, true, some, [], ◌∷◌, ◌++◌, Text, bytes, Result, ok, replicate}
use estate_ci.Go.Http.{HttpRequest, HttpResponse}
use estate_ci.Auth.Iap.{Validator, iap_issuer}
use estate_ci.Auth.Iap.Keys.{Ecdsa, KeyCache, KeySource}
use estate_ci.Tests.Fixtures.{operator_email}
use estate_ci.Tests.Data.{noon_time}

abbrev pub test_ecdsa : Ecdsa
test_ecdsa = record { sum256 = λ p. p; verify = λ key digest r s. true; on_curve = λ key. true }

abbrev key_server : HttpRequest → ℕ → Result String HttpResponse × ℕ
key_server r n = (
  ok (record { status = 200; header = λ name. bytes "public, max-age=3600"; body = some [] }),
  n + 1,
)

abbrev pub test_keys : KeySource ℕ
test_keys = record {
  jwks_url = bytes "https://www.gstatic.com/iap/verify/public_key-jwk";
  exchange = key_server;
  document = λ raw. some (
    record {
      algorithm = bytes "ES256";
      curve = bytes "P-256";
      key_id = bytes "k1";
      key_type = bytes "EC";
      usage = bytes "sig";
      x = replicate 43 b'A';
      y = replicate 43 b'A';
    }
        ∷ [],
    [],
  );
}

abbrev pub empty_cache : KeyCache
empty_cache = record { keys = []; expires = 0 }

abbrev pub test_validator : Validator ℕ
test_validator = record {
  audience = bytes "/projects/1/global/backendServices/2";
  issuer = iap_issuer;
  keys = test_keys;
  now = λ n. (noon_time, n);
  ecdsa = test_ecdsa;
  jwt_header = λ raw.
      some (record { algorithm = bytes "ES256"; key_id = bytes "k1"; kind = bytes "JWT" }, []);
  claims = λ raw. some (
    record {
      audience = bytes "/projects/1/global/backendServices/2";
      email = operator_email;
      expires_at = bytes "1788351000";
      issued_at = bytes "1788350400";
      issuer = iap_issuer;
      subject = bytes "operator";
    },
    [],
  );
}

abbrev pub assertion : Text
assertion = bytes "aGVhZA.Y2xhaW1z." ++ replicate 86 b'A'
