-- ===== src/Api/Server.antt =====
-- `Server` of internal/api/server.go: authentication and routes.
mod Types
mod Handlers
use Prim.Native.String.{String}
use estate_ci.Prelude.{
  ℕ, Bool, true, false, not, ◌&&◌, ◌||◌, Option, none, some, List, [], ◌∷◌, Text, bytes, Result, ok,
  err, pos, leb, ltb, length, is_empty, if◌then◌else◌, ◌==◌, text_instance, starts_with,
  strip_prefix,
}
use estate_ci.Go.Base64.{encode}
use estate_ci.Auth.Identity.{Identity}
use estate_ci.Auth.Roles.{Role, role_viewer, role_operator, role_text}
use estate_ci.Contract.Models.{OperationIntent, OperationReceipt}
use estate_ci.Contract.Patterns.{is_repository, is_request_id}
use estate_ci.Contract.Snapshot.{RepositoryHealth}
use estate_ci.Storage.Repository.{StorageError, Op, Repository}
use estate_ci.Storage.Cloud.Decoding.{Decoder, strict_json}
use estate_ci.Operations.Catalog.{Catalog}
use estate_ci.Operations.Catalog
use estate_ci.Operations.Environment.{Service}
use estate_ci.Operations.Exec.{
  Failure, State, denied, invalid, replay, unready, pending, not_catalogued, disabled,
  unready_receipt, internal, stuck,
}
use estate_ci.Operations.Service.{create}
use estate_ci.Api.Http.{
  Request, healthy, ready, session_body, snapshot_body, snapshots_body, repositories_body,
  repository_body, evidence_body, options_body, receipts_body, receipt_body, Reply, reply, panics,
}
use estate_ci.Api.Responses.{problem, write_json, method_not_allowed, storage_problem}
use estate_ci.Api.Csrf.{cookie_name, valid_csrf, query_limit}
pub use estate_ci.Api.Server.Types.{
  Config, Server, Principal, Handler, connected, source_ready, api_prefix, path_after, stored,
  operation_reply, is_get,
}
unfoldable pub use estate_ci.Api.Server.Types.{find_health, operation_problem, decode_intent}
pub use estate_ci.Api.Server.Handlers.{reading, session_reply, create_decoded, is_json}
unfoldable pub use estate_ci.Api.Server.Handlers.{
  session, latest_estate, estate_history, repositories, repository_health, evidence,
  list_operations, get_operation, create_operation,
}

-- The cases of the `switch` in `route`.
pub data Route : Type 0 where
  to_session to_estate to_history to_repositories to_repository to_evidence to_options : Route
  to_operations to_operation to_create to_other_method to_nothing : Route

-- The first case whose condition holds.
unfoldable pub find_route : Request → Route
find_route r =
    if is_get r && r.path == bytes "/api/v1/session"
    then to_session
    else if is_get r && r.path == bytes "/api/v1/estate"
    then to_estate
    else if is_get r && r.path == bytes "/api/v1/estate/history"
    then to_history
    else if is_get r && r.path == bytes "/api/v1/repositories"
    then to_repositories
    else if is_get r && starts_with (bytes "/api/v1/repositories/") r.path
    then to_repository
    else if is_get r && r.path == bytes "/api/v1/evidence"
    then to_evidence
    else if is_get r && r.path == bytes "/api/v1/operations/options"
    then to_options
    else if is_get r && r.path == bytes "/api/v1/operations"
    then to_operations
    else if is_get r && starts_with (bytes "/api/v1/operations/") r.path
    then to_operation
    else if r.method == bytes "POST" && r.path == bytes "/api/v1/operations"
    then to_create
    else if r.path == bytes "/api/v1/operations"
    then to_other_method
    else to_nothing

module _ {S W : Type 0} (server : Server S W) where
  open server use {config, validate, catalog}

  -- The routes behind authentication.
  unfoldable pub handle : Route → Request → Principal → Handler S W
  handle to_session r principal s = session server principal s
  handle to_estate r principal s = latest_estate server s
  handle to_history r principal s = estate_history server r s
  handle to_repositories r principal s = repositories server s
  handle to_repository r principal s = repository_health server r s
  handle to_evidence r principal s = evidence server r s
  handle to_options r principal s = (
    write_json 200 (
        options_body (config.runtime_state == connected)
          (not (config.runtime_state == source_ready)) (Catalog.repositories catalog)),
    s,
  )
  handle to_operations r principal s = list_operations server r s
  handle to_operation r principal s = get_operation server r s
  handle to_create r principal s = create_operation server r principal s
  handle to_other_method r principal s = (method_not_allowed (bytes "GET, POST"), s)
  handle to_nothing r principal s = (problem 404 "NOT_FOUND", s)

  -- The type assertion on the principal panics where there is none.
  abbrev pub with_principal : Request → Option Principal → Handler S W
  with_principal r none s = (panics, s)
  with_principal r (some principal) s = handle (find_route r) r principal s

  unfoldable pub route : Request → Option Principal → Handler S W
  route r principal s =
      if r.path == bytes "/healthz"
      then (if is_get r then write_json 200 healthy else method_not_allowed (bytes "GET"), s)
      else if r.path == bytes "/readyz"
      then (
        if is_get r
            then write_json 200 (ready (config.runtime_state == connected))
            else method_not_allowed (bytes "GET"),
        s,
      )
      else with_principal r principal s

  abbrev pub admit : Request → Identity → Result String Role → Handler S W
  admit r identity (err e) s = (problem 503 "ROLE_RESOLUTION_FAILED", s)
  admit r identity (ok role) s =
      if ltb role role_viewer
      then (problem 403 "ROLE_DENIED", s)
      else route r (some (record { identity = identity; role = role })) s

  abbrev pub identified : Request → Result String Identity → Handler S W
  identified r (err e) s = (problem 401 "IAP_ASSERTION_INVALID", s)
  identified r (ok identity) s =
      admit r identity (server.role_for identity.email s.world).0
        (record s { world = (server.role_for identity.email s.world).1 })

  abbrev pub assertion_of : Request → Text
  assertion_of r = r.header (bytes "X-Goog-IAP-JWT-Assertion")

  unfoldable pub authenticate : Request → Handler S W
  authenticate r s =
      if r.path == bytes "/healthz" || r.path == bytes "/readyz"
      then route r none s
      else if not (starts_with api_prefix r.path)
      then (problem 404 "NOT_FOUND", s)
      else if is_empty (assertion_of r)
      then (problem 401 "IAP_ASSERTION_REQUIRED", s)
      else identified r (validate (assertion_of r) s.world).0
          (record s { world = (validate (assertion_of r) s.world).1 })

  abbrev pub security_headers : List (Text × Text)
  security_headers =
      (bytes "Cache-Control", bytes "no-store")
      ∷ (bytes "Content-Security-Policy", bytes "default-src 'none'; frame-ancestors 'none'")
      ∷ (bytes "Cross-Origin-Resource-Policy", bytes "same-origin")
      ∷ (bytes "Referrer-Policy", bytes "no-referrer")
      ∷ (bytes "X-Content-Type-Options", bytes "nosniff")
      ∷ (bytes "X-Frame-Options", bytes "DENY")
      ∷ []

  -- `Handler()`: the headers are set before the reply, none of which sets one of them again.
  unfoldable pub serve : Request → State S W → (List (Text × Text) × Reply) × State S W
  serve r s = ((security_headers, (authenticate r s).0), (authenticate r s).1)
