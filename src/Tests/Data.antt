-- ===== src/Tests/Data.antt =====
-- The documents, catalogs and groups that the instances of the theorems are about.
use estate_ci.Prelude.{true, ◌+◌, ◌*◌, List, [], ◌∷◌, Text, bytes, Result, ok, err, pos}
use estate_ci.Go.Time.{Time, minute, parse_time}
use estate_ci.Auth.Roles.{Checker, GroupBinding, Resolver, new_resolver, role_operator}
use estate_ci.Contract.Models.{
  OperationRequest, OperationDispatch, OperationDispatchResult, OperationReceipt,
}
use estate_ci.Contract.Request.{seal_request}
use estate_ci.Contract.Dispatch.{seal_dispatch}
use estate_ci.Contract.DispatchResult.{seal_result}
use estate_ci.Contract.Receipt.{seal_receipt}
use estate_ci.Contract.Snapshot.{EstateHealthSnapshot, RepositoryHealth, seal_snapshot}
use estate_ci.Storage.Repository.{Reservation}
use estate_ci.Operations.Catalog.{RepositoryTarget, authorize}
use estate_ci.Operations.Environment.{simulated, simulation_token}
use estate_ci.Contract.Crypto.{digest_of}
use estate_ci.Operations.Documents.{binding_json, request_of, dispatch_of, result_of, receipt_of}
use estate_ci.Operations.Service.{create}
use estate_ci.Operations.Service.Once.{Call}
use estate_ci.Tests.Fixtures.{
  test_crypto, test_signer, test_service, start, test_intent, test_catalog, test_target, test_sha,
  test_plan, intent_with, first_id, second_id, noon, operator, operator_email, time_or_zero,
}

abbrev pub or_else : {E A : Type 0} → A → Result E A → A
or_else a (ok b) = b
or_else a (err e) = a

abbrev pub noon_time : Time
noon_time = time_or_zero (parse_time noon)

abbrev pub draft_request : OperationRequest
draft_request =
    request_of test_intent operator_email noon_time (noon_time + 5 * minute)
      (bytes "0123456789abcdef0123456789abcdef")

unfoldable pub sealed_request : OperationRequest
sealed_request = or_else draft_request (seal_request test_crypto test_signer draft_request)

abbrev pub draft_dispatch : OperationDispatch
draft_dispatch = dispatch_of sealed_request second_id simulation_token noon_time

unfoldable pub sealed_dispatch : OperationDispatch
sealed_dispatch = or_else draft_dispatch (seal_dispatch test_crypto test_signer draft_dispatch)

abbrev pub draft_result : OperationDispatchResult
draft_result = result_of sealed_request sealed_dispatch (simulated sealed_request) noon_time

unfoldable pub sealed_result : OperationDispatchResult
sealed_result = or_else draft_result (seal_result test_crypto test_signer draft_result)

abbrev pub unsealed_receipt : OperationReceipt
unsealed_receipt = receipt_of sealed_request sealed_result

unfoldable pub sealed_receipt : OperationReceipt
sealed_receipt = or_else unsealed_receipt (seal_receipt test_crypto test_signer unsealed_receipt)

-- Two reservations of one approval.
abbrev pub first_reservation : Reservation
first_reservation = record {
  request_id = first_id;
  binding_digest = test_plan;
  approval_id = bytes "aaaaaaaa-aaaa-4aaa-8aaa-aaaaaaaaaaaa";
  nonce = bytes "0123456789abcdef0123456789abcdef";
  expires_at = noon;
}

abbrev pub second_reservation : Reservation
second_reservation = record first_reservation {
  request_id = second_id;
  binding_digest = bytes "sha256:bbbbbbbbbbbbbbbbbbbbbbbbbbbbbbbbbbbbbbbbbbbbbbbbbbbbbbbbbbbbbbbb";
}

unfoldable pub authorized_target : RepositoryTarget
authorized_target = or_else test_target (authorize test_catalog test_intent)

abbrev pub groups : List GroupBinding
groups =
    record { resource = bytes "groups/viewers"; role = bytes "viewer" }
    ∷ record { resource = bytes "groups/operators"; role = bytes "operator" }
    ∷ []

abbrev pub all_members : Checker
all_members group email = ok true

unfoldable pub resolver : Resolver
resolver = or_else (record { bindings = []; cache = [] }) (new_resolver groups)

abbrev health : Text → Text → RepositoryHealth
health name status = record {
  repository = name;
  profile = bytes "standard";
  head_sha = test_sha;
  last_green_sha = test_sha;
  required_check_status = status;
  queue_seconds = pos 1;
  execution_seconds = pos 2;
  failure_class = bytes "none";
  cache_hit_basis_points = pos 9000;
  evidence_digest = test_plan;
  observed_at = noon;
}

abbrev pub draft_snapshot : EstateHealthSnapshot
draft_snapshot = record {
  schema_version = [];
  snapshot_id = first_id;
  observed_at = noon;
  protected_main_sha = test_sha;
  summary = record { healthy = pos 1; degraded = pos 1; blocked = pos 0; unknown = pos 0 };
  repositories =
      health (bytes "mindclade/estate") (bytes "failure")
      ∷ health (bytes "mindclade/bootstrap") (bytes "success")
      ∷ [];
  digest = [];
}

unfoldable pub sealed_snapshot : EstateHealthSnapshot
sealed_snapshot = or_else draft_snapshot (seal_snapshot test_crypto draft_snapshot)

abbrev pub submit : Text → Call
submit request_id = record {
  identity = operator;
  role = role_operator;
  intent = intent_with request_id (bytes "2026-09-02T12:05:00Z");
}

-- A submission, its retry, and another submission.
abbrev pub submissions : List Call
submissions = submit first_id ∷ submit first_id ∷ submit second_id ∷ []

-- What the first submission returns.
unfoldable pub first_receipt : OperationReceipt
first_receipt =
    or_else unsealed_receipt (create test_service 2 operator role_operator test_intent start).0

-- The digest of the test operation's binding.
unfoldable pub test_binding : Text
test_binding = or_else test_plan (digest_of test_crypto (binding_json draft_request))

abbrev pub bound_reservation : Text → Reservation
bound_reservation request_id = record first_reservation {
  request_id = request_id;
  binding_digest = test_binding;
}
