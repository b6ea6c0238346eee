-- ===== src/Api/Http.antt =====
-- What internal/api/server.go takes from net/http: requests and responses.
use estate_ci.Prelude.{ℕ, Bool, Option, List, Text}
use estate_ci.Contract.Models.{WorkflowEvidence, OperationReceipt}
use estate_ci.Contract.Snapshot.{EstateHealthSnapshot, RepositoryHealth}
use estate_ci.Operations.Catalog.{RepositoryTarget}

pub record Request : Type 0 where
  pub method : Text
  -- `URL.Path`
  pub path : Text
  -- `URL.Query().Get` and `Header.Get`, empty if there is none
  pub query : Text → Text
  pub header : Text → Text
  -- `Cookie`
  pub cookie : Text → Option Text
  pub body : Text

-- The members of a `problem` object; `title` is the text of its status.
pub record Problem : Type 0 where
  pub kind : Text
  pub status : ℕ
  pub code : Text

pub record Cookie : Type 0 where
  pub name : Text
  pub value : Text
  pub path : Text
  pub max_age : ℕ
  pub secure : Bool
  pub http_only : Bool
  pub same_site_strict : Bool

pub record Session : Type 0 where
  pub email : Text
  pub role : Text
  pub csrf_token : Text
  pub runtime_state : Text
  pub connected_dispatch : Bool
  pub operation_submission_enabled : Bool

-- The values that are encoded as JSON bodies.
pub data Payload : Type 0 where
  problem_body : Problem → Payload
  healthy : Payload
  ready : Bool → Payload
  session_body : Session → Payload
  snapshot_body : EstateHealthSnapshot → Payload
  snapshots_body : List EstateHealthSnapshot → Payload
  repositories_body : Text → List RepositoryHealth → Payload
  repository_body : RepositoryHealth → Payload
  evidence_body : WorkflowEvidence → Payload
  options_body : Bool → Bool → List RepositoryTarget → Payload
  receipts_body : List OperationReceipt → Payload
  receipt_body : OperationReceipt → Payload

pub record Response : Type 0 where
  pub status : ℕ
  pub content_type : Text
  -- the `Allow` header, empty if there is none
  pub allow : Text
  pub cookies : List Cookie
  pub payload : Payload

-- A handler writes a response, or panics.
pub data Reply : Type 0 where
  reply : Response → Reply
  panics : Reply
