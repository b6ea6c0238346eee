-- ===== src/Api/Server/Handlers.antt =====
-- The handlers of internal/api/server.go.
use Prim.Native.String.{String}
use estate_ci.Prelude.{
  Bool, true, false, not, [], ◌∷◌, Text, bytes, Result, ok, err, pos, ltb, if◌then◌else◌, ◌==◌,
  text_instance,
}
use estate_ci.Go.Base64.{encode}
use estate_ci.Auth.Roles.{role_operator, role_text}
use estate_ci.Contract.Models.{OperationIntent}
use estate_ci.Contract.Patterns.{is_repository, is_request_id}
use estate_ci.Storage.Repository.{Op}
use estate_ci.Operations.Service.{create}
use estate_ci.Api.Http.{
  Request, session_body, snapshot_body, snapshots_body, repositories_body, evidence_body,
  receipts_body, receipt_body, Reply, reply,
}
use estate_ci.Api.Responses.{problem, write_json}
use estate_ci.Api.Csrf.{cookie_name, valid_csrf, query_limit}
use estate_ci.Api.Server.Types.{
  Server, Principal, Handler, connected, source_ready, path_after, or_path, stored, find_health,
  operation_reply, decode_intent,
}

module _ {S W : Type 0} (server : Server S W) where
  open server use {config, validate, repository, operations, catalog, read_random, media_type}

  -- A read of the store.
  abbrev pub reading : {A : Type 0} → Op S A → (A → Reply) → Handler S W
  reading op show s = (stored show (op s.store).0, record s { store = (op s.store).1 })

  abbrev pub session_reply : Principal → Result String Text → Reply
  session_reply principal (err e) = problem 500 "CSRF_TOKEN_FAILED"
  session_reply principal (ok random) = reply (record {
    status = 200;
    content_type = bytes "application/json";
    allow = [];
    cookies =
        record {
          name = cookie_name config.secure_cookies;
          value = encode random;
          path = bytes "/";
          max_age = 1800;
          secure = config.secure_cookies;
          http_only = true;
          same_site_strict = true;
        }
        ∷ [];
    payload = session_body (record {
      email = principal.identity.email;
      role = role_text principal.role;
      csrf_token = encode random;
      runtime_state = config.runtime_state;
      connected_dispatch = config.runtime_state == connected;
      operation_submission_enabled = not (config.runtime_state == source_ready);
    });
  })

  unfoldable pub session : Principal → Handler S W
  session principal s = (
    session_reply principal (read_random 32 s.world).0,
    record s { world = (read_random 32 s.world).1 },
  )

  unfoldable pub latest_estate : Handler S W
  latest_estate =
      reading repository.latest_snapshot (λ snapshot. write_json 200 (snapshot_body snapshot))

  unfoldable pub estate_history : Request → Handler S W
  estate_history r s =
      if (query_limit r 20).1
      then reading (repository.list_snapshots (pos (query_limit r 20).0))
          (λ snapshots. write_json 200 (snapshots_body snapshots)) s
      else (problem 400 "INVALID_LIMIT", s)

  unfoldable pub repositories : Handler S W
  repositories =
      reading repository.latest_snapshot
        (λ snapshot. write_json 200 (repositories_body snapshot.observed_at snapshot.repositories))

  unfoldable pub repository_health : Request → Handler S W
  repository_health r s =
      let identifier = or_path r.path (path_after "/api/v1/repositories/" r.path) in
      if is_repository identifier
      then reading repository.latest_snapshot
          (λ snapshot. find_health identifier snapshot.repositories) s
      else (problem 400 "INVALID_REPOSITORY", s)

  unfoldable pub evidence : Request → Handler S W
  evidence r =
      reading (repository.get_evidence (r.query (bytes "digest")))
        (λ found. write_json 200 (evidence_body found))

  unfoldable pub list_operations : Request → Handler S W
  list_operations r s =
      if (query_limit r 50).1
      then reading (repository.list_receipts (pos (query_limit r 50).0))
          (λ receipts. write_json 200 (receipts_body receipts)) s
      else (problem 400 "INVALID_LIMIT", s)

  unfoldable pub get_operation : Request → Handler S W
  get_operation r s =
      let receipt_id = or_path r.path (path_after "/api/v1/operations/" r.path) in
      if is_request_id receipt_id
      then reading (repository.get_receipt receipt_id)
          (λ receipt. write_json 200 (receipt_body receipt)) s
      else (problem 400 "INVALID_RECEIPT_ID", s)

  -- `Create`, with the fuel that is enough.
  abbrev pub create_decoded : Principal → Result String OperationIntent → Handler S W
  create_decoded principal (err e) s = (problem 400 "INVALID_OPERATION_SCHEMA", s)
  create_decoded principal (ok intent) s =
      let outcome = create operations 2 principal.identity principal.role intent s in
      (operation_reply outcome.0, outcome.1)

  abbrev pub is_json : Result String Text → Bool
  is_json (ok kind) = kind == bytes "application/json"
  is_json (err e) = false

  unfoldable pub create_operation : Request → Principal → Handler S W
  create_operation r principal s =
      if ltb principal.role role_operator
      then (problem 403 "OPERATOR_ROLE_REQUIRED", s)
      else if not (valid_csrf config.allowed_origin config.secure_cookies r)
      then (problem 403 "CSRF_VALIDATION_FAILED", s)
      else if not (is_json (media_type (r.header (bytes "Content-Type"))))
      then (problem 415 "JSON_REQUIRED", s)
      else create_decoded principal (decode_intent server.intent r.body) s
