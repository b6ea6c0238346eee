-- ===== src/Operations/Environment.antt =====
-- What the service calls besides its store: the clock, crypto/rand, the role resolver and the
-- `Dispatcher` of internal/operations/service.go, over the state `W` of the world.
use Prim.Native.String.{String}
use estate_ci.Prelude.{Bool, true, false, Text, bytes, Result, ◌++◌, []}
use estate_ci.Go.Time.{Time}
use estate_ci.Auth.Roles.{Role}
use estate_ci.Contract.Models.{OperationRequest}
use estate_ci.Contract.Crypto.{Crypto, Signer}
use estate_ci.Storage.Repository.{Repository}
use estate_ci.Operations.Catalog.{Catalog, RepositoryTarget}

pub record DispatchOutcome : Type 0 where
  pub final : Bool
  pub accepted : Bool
  pub reason_code : Text
  pub provider_reference : Text

pub record Environment (W : Type 0) : Type 0 where
  pub now : W → Time × W
  -- 16 random bytes
  pub random : W → Result String Text × W
  pub role_for : Text → W → Result String Role × W
  pub prepare : RepositoryTarget → OperationRequest → W → (Text × DispatchOutcome) × W
  pub dispatch : RepositoryTarget → OperationRequest → Text → W → DispatchOutcome × W
  pub recover : RepositoryTarget → OperationRequest → Text → W → DispatchOutcome × W

pub record Service (S W : Type 0) : Type 0 where
  pub catalog : Catalog
  pub repository : Repository S
  pub environment : Environment W
  pub signer : Signer
  pub crypto : Crypto

-- `FailClosedDispatcher`: every call has this outcome.
abbrev pub fail_closed : DispatchOutcome
fail_closed = record {
  final = true;
  accepted = false;
  reason_code = bytes "CONNECTED_DISPATCH_DISABLED";
  provider_reference = [];
}

abbrev pub fail_closed_token : Text
fail_closed_token = bytes "ZmFpbC1jbG9zZWQtdjE"

-- `SimulationDispatcher`: nothing is final at first, and every dispatch is accepted.
abbrev pub undecided : DispatchOutcome
undecided = record { final = false; accepted = false; reason_code = []; provider_reference = [] }

abbrev pub simulation_token : Text
simulation_token = bytes "c2ltdWxhdGlvbi12MQ"

unfoldable pub simulated : OperationRequest → DispatchOutcome
simulated request = record {
  final = true;
  accepted = true;
  reason_code = bytes "LOCAL_SIMULATION_ACCEPTED";
  provider_reference = bytes "simulation://operations/" ++ request.request_id;
}
