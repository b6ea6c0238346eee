-- ===== src/Operations/Service/CloudOutbox.antt =====
-- The service of internal/operations/service.go over the Cloud Storage repository of
-- internal/storage/gcs.go.
use estate_ci.Prelude.{ℕ, suc, ◌≤◌, ◌≡◌, ◌≢◌, Option, List, Text, err}
use estate_ci.Auth.Identity.{Identity}
use estate_ci.Auth.Roles.{Role}
use estate_ci.Contract.Crypto.{Crypto, Signer}
use estate_ci.Contract.Models.{OperationIntent}
use estate_ci.Storage.Objects.Laws.{IsCreateOnly}
use estate_ci.Storage.Cloud.Config.{GcsRepository}
use estate_ci.Storage.Cloud.Decoding.{Decoders}
use estate_ci.Storage.Cloud.Outbox.{has_dispatch_object, cloud-IsOutbox, cloud-HasOutbox}
use estate_ci.Storage.Cloud.{cloud_repository}
use estate_ci.Operations.Catalog.{Catalog}
use estate_ci.Operations.Environment.{Environment, Service}
use estate_ci.Operations.Exec.{State, stuck}
use estate_ci.Operations.Service.{create}
use estate_ci.Operations.Service.Laws.{IsCounter}
use estate_ci.Operations.Service.Once.{bit, Call, run, dispatch_at_most_once}
use estate_ci.Operations.Service.Returns.{create_returns}

module _ {S W : Type 0} (c : Crypto) (json : Decoders) (repository : GcsRepository S)
    (held : S → Text → Text → Option Text) (laws : IsCreateOnly repository.objects held)
    (catalog : Catalog) (signer : Signer) (env : Environment W) where
  abbrev pub cloud_service : Service S W
  cloud_service = record {
    catalog = catalog;
    repository = cloud_repository c json repository;
    environment = env;
    signer = signer;
    crypto = c;
  }

  -- On an object store that only creates, and from a state in which nothing has been dispatched, any
  -- calls of `Create` make at most one dispatch call for each request ID, and none for a request ID
  -- without a dispatch object in the audit bucket; and every call of `Create` ends with a receipt or
  -- with an error of the program.
  pub cloud_dispatch_at_most_once :
      (calls : W → Text → ℕ) (fuel : ℕ) (cs : List Call) (s t : State S W) (identity : Identity)
      (role : Role) (i : OperationIntent)
      → IsCounter env calls
      → ((id : Text) → calls s.world id ≡ 0)
      → (id : Text)
      → (calls (run cloud_service fuel cs s).world id
          ≤ bit (has_dispatch_object c json repository held (run cloud_service fuel cs s).store id))
        × ((create cloud_service (suc (suc fuel)) identity role i t).0 ≢ err stuck)
  cloud_dispatch_at_most_once calls fuel cs s t identity role i counter none_yet id = (
    dispatch_at_most_once cloud_service (has_dispatch_object c json repository held) calls
        (cloud-IsOutbox c json repository held laws) counter fuel cs s none_yet id,
    create_returns cloud_service (cloud-HasOutbox c json repository held laws) fuel identity role i
        t,
  )
