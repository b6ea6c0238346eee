-- ===== src/Api/Server/Types.antt =====
-- The configuration, the server and the caller of internal/api/server.go, and what its handlers reply.
use Prim.Native.String.{String}
use estate_ci.Prelude.{
  ℕ, Bool, Option, none, some, List, [], ◌∷◌, Text, bytes, Result, ok, err, leb, length, is_empty,
  if◌then◌else◌, ◌==◌, text_instance, strip_prefix,
}
use estate_ci.Auth.Identity.{Identity}
use estate_ci.Auth.Roles.{Role}
use estate_ci.Contract.Models.{OperationIntent, OperationReceipt}
use estate_ci.Contract.Snapshot.{RepositoryHealth}
use estate_ci.Storage.Repository.{StorageError, Repository}
use estate_ci.Storage.Cloud.Decoding.{Decoder, strict_json}
use estate_ci.Operations.Catalog.{Catalog}
use estate_ci.Operations.Environment.{Service}
use estate_ci.Operations.Exec.{
  Failure, State, denied, invalid, replay, unready, pending, not_catalogued, disabled,
  unready_receipt, internal, stuck,
}
use estate_ci.Api.Http.{Request, repository_body, receipt_body, Reply}
use estate_ci.Api.Responses.{problem, write_json, storage_problem}

pub record Config : Type 0 where
  pub allowed_origin : Text
  pub secure_cookies : Bool
  pub runtime_state : Text

pub record Server (S W : Type 0) : Type 0 where
  pub config : Config
  -- `validator.Validate` and `roles.RoleFor`
  pub validate : Text → W → Result String Identity × W
  pub role_for : Text → W → Result String Role × W
  pub repository : Repository S
  pub operations : Service S W
  pub catalog : Catalog
  -- crypto/rand, for a number of bytes; `mime.ParseMediaType`; `json.Decoder` on an intent
  pub read_random : ℕ → W → Result String Text × W
  pub media_type : Text → Result String Text
  pub intent : Decoder OperationIntent

pub record Principal : Type 0 where
  pub identity : Identity
  pub role : Role

abbrev pub Handler : Type 0 → Type 0 → Type 0
Handler S W = State S W → Reply × State S W

abbrev pub connected : Text
connected = bytes "connected"

abbrev pub source_ready : Text
source_ready = bytes "source-ready"

abbrev pub api_prefix : Text
api_prefix = bytes "/api/v1/"

-- `strings.TrimPrefix`
abbrev pub path_after : String → Text → Option Text
path_after prefix path = strip_prefix (bytes prefix) path

abbrev pub or_path : Text → Option Text → Text
or_path path none = path
or_path path (some rest) = rest

-- What the handler makes of a result of the store.
abbrev pub stored : {A : Type 0} → (A → Reply) → Result StorageError A → Reply
stored show (ok value) = show value
stored show (err e) = storage_problem e

-- The first repository with the name.
unfoldable pub find_health : Text → List RepositoryHealth → Reply
find_health name [] = problem 404 "REPOSITORY_NOT_FOUND"
find_health name (h ∷ hs) =
    if h.repository == name then write_json 200 (repository_body h) else find_health name hs

-- The status of an error of `Create`.
unfoldable pub operation_problem : Failure → Reply
operation_problem replay = problem 409 "OPERATION_REPLAYED"
operation_problem pending = problem 503 "OPERATION_PENDING_RECONCILIATION"
operation_problem denied = problem 403 "OPERATION_DENIED"
operation_problem not_catalogued = problem 400 "OPERATION_NOT_CATALOGUED"
operation_problem disabled = problem 503 "OPERATION_DISABLED"
operation_problem (unready_receipt receipt) =
    if is_empty receipt.receipt_id
    then problem 503 "CONNECTED_DISPATCH_UNAVAILABLE"
    else write_json 503 (receipt_body receipt)
operation_problem unready = problem 503 "CONNECTED_DISPATCH_UNAVAILABLE"
operation_problem invalid = problem 400 "INVALID_OPERATION"
operation_problem (internal message) = problem 400 "INVALID_OPERATION"
operation_problem stuck = problem 400 "INVALID_OPERATION"

abbrev pub operation_reply : Result Failure OperationReceipt → Reply
operation_reply (ok receipt) = write_json 202 (receipt_body receipt)
operation_reply (err e) = operation_problem e

-- A body of at most 32 KiB that holds one intent and nothing else.
unfoldable pub decode_intent : Decoder OperationIntent → Text → Result String OperationIntent
decode_intent decoder body =
    if leb (length body) 32768 then strict_json decoder body else err "http: request body too large"

abbrev pub is_get : Request → Bool
is_get r = r.method == bytes "GET"
