-- ===== src/Tests/ApiFixtures.antt =====
-- A concrete API server, and requests of it.
use estate_ci.Prelude.{none, some, [], Text, bytes, ok, false, if◌then◌else◌, ◌==◌, text_instance}
use estate_ci.Storage.Memory.{MemoryRepository, memory_repository}
use estate_ci.Api.Http.{Request}
use estate_ci.Api.Csrf.{cookie_name}
use estate_ci.Api.Server.{Server, connected}
use estate_ci.Tests.Fixtures.{
  World, bytes_of, test_crypto, test_service, test_catalog, test_role, test_intent, operator,
}

abbrev pub test_server : Server MemoryRepository World
test_server = record {
  config = record {
    allowed_origin = bytes "https://estate.mindclade.example/";
    secure_cookies = false;
    runtime_state = connected;
  };
  validate = λ assertion w. (ok operator, w);
  role_for = λ email w. (ok (test_role email), w);
  repository = memory_repository test_crypto;
  operations = test_service;
  catalog = test_catalog;
  read_random = λ n w. (ok (bytes_of n w.seed), record w { seed = 2 });
  media_type = λ value. ok value;
  intent = λ raw. some (test_intent, []);
}

abbrev csrf_token : Text
csrf_token = bytes "0123456789abcdef0123456789abcdef"

unfoldable pub test_header : Text → Text
test_header name =
    if name == bytes "Origin"
    then bytes "https://estate.mindclade.example"
    else if name == bytes "Sec-Fetch-Site"
    then bytes "same-origin"
    else if name == bytes "X-Estate-CSRF"
    then csrf_token
    else if name == bytes "Content-Type"
    then bytes "application/json"
    else bytes "assertion"

abbrev pub submission : Request
submission = record {
  method = bytes "POST";
  path = bytes "/api/v1/operations";
  query = λ name. [];
  header = test_header;
  cookie = λ name. if name == cookie_name false then some csrf_token else none;
  body = bytes "{}";
}

abbrev pub listing : Request
listing = record submission { method = bytes "GET"; query = λ name. bytes "7" }
