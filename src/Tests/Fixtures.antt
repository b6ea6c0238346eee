-- ===== src/Tests/Fixtures.antt =====
-- A concrete store, signer and world: those of internal/operations/service_test.go, with a clock
-- that moves by a second at each reading, and a checksum in place of the cryptography.
use Prim.Native.String.{String}
use estate_ci.Prelude.{
  ℕ, zero, suc, ◌+◌, ◌*◌, ◌/◌, ◌%◌, ◌^◌, ◌≡◌, refl, true, false, Option, none, some, List, [], ◌∷◌,
  Text, bytes, Result, ok, err, pos, if◌then◌else◌, ◌==◌, text_instance, text_eq, length, All,
  arith,
}
use estate_ci.Go.Time.{Time, second, parse_time}
use estate_ci.Go.Base64.{IsByte}
use estate_ci.Auth.Roles.{Role, role_operator, role_approver, role_none}
use estate_ci.Auth.Identity.{Identity}
use estate_ci.Contract.Crypto.{Crypto, Signer}
use estate_ci.Contract.Models.{
  OperationIntent, WorkflowEvidence, operation_rerun_failed, operation_refresh_health,
  operation_cancel_run,
}
use estate_ci.Contract.Evidence.{seal_evidence}
use estate_ci.Storage.Memory.{MemoryRepository, memory_repository, new_memory_repository}
use estate_ci.Operations.Catalog.{
  RepositoryTarget, CatalogDocument, Catalog, new_catalog, catalog_v1,
}
use estate_ci.Operations.Environment.{Environment, Service, simulated, simulation_token, undecided}
use estate_ci.Operations.Exec.{State}
use estate_ci.Operations.Service.{intent_schema_version}

-- The last `n` bytes of a number.
unfoldable pub bytes_of : ℕ → ℕ → Text
bytes_of zero x = []
bytes_of (suc n) x = (x % 256) ∷ bytes_of n (x / 256)

unfoldable pub checksum : ℕ → Text → ℕ
checksum acc [] = acc
checksum acc (b ∷ s) = checksum ((acc * 257 + b + 1) % 2 ^ 256) s

pub length-bytes_of : (n x : ℕ) → length (bytes_of n x) ≡ n
unfolding bytes_of
length-bytes_of zero x = refl
length-bytes_of (suc n) x = omega (arith, length-bytes_of n (x / 256))

pub IsByte-bytes_of : (n x : ℕ) → All IsByte (bytes_of n x)
unfolding bytes_of
IsByte-bytes_of zero x = tt
IsByte-bytes_of (suc n) x = (omega arith, IsByte-bytes_of n (x / 256))

abbrev pub test_crypto : Crypto
test_crypto = record {
  sum256 = λ p. bytes_of 32 (checksum 0 p);
  verify = λ pk m v. text_eq v (bytes_of 64 (checksum 7 m));
}

abbrev pub test_signer : Signer
test_signer = record {
  key_id = bytes "test-key-v1";
  sign = λ m. ok (bytes_of 64 (checksum 7 m));
  public_key = bytes_of 32 1;
}

pub record World : Type 0 where
  pub clock : Time
  pub seed : ℕ
  pub dispatched : List Text

-- How often a request has been dispatched.
abbrev pub dispatches : List Text → Text → ℕ
dispatches [] id = 0
dispatches (r ∷ rs) id = dispatches rs id + (if r == id then 1 else 0)

abbrev pub operator_email : Text
operator_email = bytes "operator@mindclade.example"

abbrev pub approver_email : Text
approver_email = bytes "approver@mindclade.example"

unfoldable pub test_role : Text → Role
test_role email =
    if email == operator_email
    then role_operator
    else if email == approver_email
    then role_approver
    else role_none

abbrev pub test_environment : Environment World
test_environment = record {
  now = λ w. (w.clock, record w { clock = w.clock + second });
  random = λ w. (ok (bytes_of 16 (checksum w.seed (1 ∷ []))), record w { seed = w.seed + 1 });
  role_for = λ email w. (ok (test_role email), w);
  prepare = λ t r w. ((simulation_token, undecided), w);
  dispatch = λ t r token w. (simulated r, record w { dispatched = r.request_id ∷ w.dispatched });
  recover = λ t r token w. (simulated r, w);
}

abbrev pub test_sha : Text
test_sha = bytes "0123456789abcdef0123456789abcdef01234567"

abbrev pub test_plan : Text
test_plan = bytes "sha256:aaaaaaaaaaaaaaaaaaaaaaaaaaaaaaaaaaaaaaaaaaaaaaaaaaaaaaaaaaaaaaaa"

abbrev pub test_reason : Text
test_reason = bytes "Retry the failed required workflow after runner recovery"

abbrev pub test_repository : Text
test_repository = bytes "mindclade/bootstrap"

abbrev pub test_target : RepositoryTarget
test_target = record {
  repository = test_repository;
  main_branch = bytes "main";
  operations = none;
  workflow_ids = some (
      (operation_refresh_health, pos 43)
      ∷ (operation_rerun_failed, pos 42)
      ∷ (operation_cancel_run, pos 42)
      ∷ []);
}

abbrev pub test_document : CatalogDocument
test_document = record {
  schema_version = catalog_v1;
  connected = true;
  repositories = test_target ∷ [];
}

abbrev pub catalog_or_empty : Result String Catalog → Catalog
catalog_or_empty (ok c) = c
catalog_or_empty (err e) = record { connected = false; targets = [] }

unfoldable pub test_catalog : Catalog
test_catalog = catalog_or_empty (new_catalog test_document)

abbrev pub test_service : Service MemoryRepository World
test_service = record {
  catalog = test_catalog;
  repository = memory_repository test_crypto;
  environment = test_environment;
  signer = test_signer;
  crypto = test_crypto;
}

abbrev pub noon : Text
noon = bytes "2026-09-02T12:00:00Z"

abbrev pub time_or_zero : Option Time → Time
time_or_zero none = 0
time_or_zero (some t) = t

abbrev pub draft_evidence : WorkflowEvidence
draft_evidence = record {
  schema_version = [];
  repository = test_repository;
  workflow_id = pos 42;
  workflow_run_id = pos 84;
  protected_main_sha = test_sha;
  plan_digest = test_plan;
  conclusion = bytes "success";
  superseded = false;
  approval = record {
    approval_id = bytes "aaaaaaaa-aaaa-4aaa-8aaa-aaaaaaaaaaaa";
    operation = operation_rerun_failed;
    requested_by = operator_email;
    reason = test_reason;
    approvers = approver_email ∷ [];
    approved_at = noon;
    decision = bytes "approved";
  };
  observed_at = noon;
  expires_at = bytes "2026-09-02T13:00:00Z";
  digest = [];
}

abbrev pub evidence_or_draft : Result String WorkflowEvidence → WorkflowEvidence
evidence_or_draft (ok e) = e
evidence_or_draft (err x) = draft_evidence

unfoldable pub test_evidence : WorkflowEvidence
test_evidence = evidence_or_draft (seal_evidence test_crypto draft_evidence)

abbrev pub intent_with : Text → Text → OperationIntent
intent_with request_id expires_at = record {
  schema_version = intent_schema_version;
  request_id = request_id;
  operation = operation_rerun_failed;
  repository = test_repository;
  workflow_id = pos 42;
  workflow_run_id = pos 84;
  protected_main_sha = test_sha;
  plan_digest = test_plan;
  evidence_digest = test_evidence.digest;
  reason = test_reason;
  expires_at = expires_at;
}

abbrev pub first_id : Text
first_id = bytes "11111111-1111-4111-8111-111111111111"

abbrev pub second_id : Text
second_id = bytes "33333333-3333-4333-8333-333333333333"

abbrev pub test_intent : OperationIntent
test_intent = intent_with first_id (bytes "2026-09-02T12:05:00Z")

abbrev pub operator : Identity
operator = record {
  subject = bytes "operator";
  email = operator_email;
  issued_at = 0;
  expires_at = 0;
}

abbrev pub start : State MemoryRepository World
start = record {
  store = record new_memory_repository { evidence = (test_evidence.digest, test_evidence) ∷ [] };
  world = record { clock = time_or_zero (parse_time noon); seed = 1; dispatched = [] };
}
