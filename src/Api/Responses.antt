-- ===== src/Api/Responses.antt =====
-- `problem`, `writeJSON`, `methodNotAllowed` and `storageProblem` of internal/api/server.go.
use Prim.Native.String.{String}
use estate_ci.Prelude.{ℕ, [], ◌++◌, Text, bytes}
use estate_ci.Go.Strings.{to_lower}
use estate_ci.Storage.Repository.{StorageError, not_found, conflict, failure}
use estate_ci.Api.Http.{Payload, problem_body, Reply, reply}

-- The detail of a problem is a text for people, and is left out.
unfoldable pub problem : ℕ → String → Reply
problem status code = reply (record {
  status = status;
  content_type = bytes "application/problem+json";
  allow = [];
  cookies = [];
  payload = problem_body (record {
    kind = bytes "https://estate-ci.mindclade.dev/problems/" ++ to_lower (bytes code);
    status = status;
    code = bytes code;
  });
})

unfoldable pub write_json : ℕ → Payload → Reply
write_json status payload = reply (record {
  status = status;
  content_type = bytes "application/json";
  allow = [];
  cookies = [];
  payload = payload;
})

unfoldable pub method_not_allowed : Text → Reply
method_not_allowed allow = reply (record {
  status = 405;
  content_type = bytes "application/problem+json";
  allow = allow;
  cookies = [];
  payload = problem_body (record {
    kind = bytes "https://estate-ci.mindclade.dev/problems/method_not_allowed";
    status = 405;
    code = bytes "METHOD_NOT_ALLOWED";
  });
})

unfoldable pub storage_problem : StorageError → Reply
unfolding problem
storage_problem not_found = problem 404 "OBJECT_NOT_FOUND"
storage_problem conflict = problem 503 "STORAGE_UNAVAILABLE"
storage_problem (failure message) = problem 503 "STORAGE_UNAVAILABLE"
