-- ===== src/Tests/Witnesses.antt =====
-- The theorems at concrete data.
use estate_ci.Prelude.{
  ◌≡◌, ◌≢◌, ◌≤◌, ◌⊎◌, inl, refl, true, [], Text, bytes, ok, err, pos, ◌==◌, text_instance, ◌+◌, ◌*◌,
}
use estate_ci.Go.Time.{zero_time, minute, format_time}
use estate_ci.Auth.Roles.{role_operator}
use estate_ci.Contract.Canonical.{write_canonical}
use estate_ci.Contract.Document.{seal, verify, verify_digest, material}
use estate_ci.Contract.Document.Sealing.{seal-verify}
use estate_ci.Contract.Document.Binding.{Collision, same_digest-same_content}
use estate_ci.Contract.Request.{request_document, request_document-IsDocument}
use estate_ci.Contract.Patterns.{is_request_id, is_nonce}
use estate_ci.Contract.Snapshot.{validate_snapshot}
use estate_ci.Contract.Snapshot.Counts.{Rises, count, validate_snapshot_counts}
use estate_ci.Operations.Catalog.{new_catalog, authorize}
use estate_ci.Operations.Catalog.Authorized.{IsAuthorized, authorize-IsAuthorized}
use estate_ci.Operations.Exec.{stuck}
use estate_ci.Operations.Evidence.{validate_evidence}
use estate_ci.Operations.Evidence.Approval.{IsApproved, validated-IsApproved}
use estate_ci.Operations.Identifiers.{uuid_text, nonce_text}
use estate_ci.Operations.Identifiers.Valid.{identifiers_valid}
use estate_ci.Operations.Documents.{request_of, request_matches_intent}
use estate_ci.Operations.Service.{create}
use estate_ci.Operations.Service.Once.{run, bit, dispatch_at_most_once}
use estate_ci.Operations.Service.Returns.{create_returns}
use estate_ci.Operations.Service.Fuel.{create_fuel_enough}
use estate_ci.Operations.Service.Retry.{request_matches_own_intent}
use estate_ci.Operations.Service.MemoryOutbox.{has_dispatch, memory-IsOutbox, memory-HasOutbox}
use estate_ci.Contract.DispatchResult.{accepted}
use estate_ci.Contract.Crypto.{digest_of}
use estate_ci.Go.Strings.{to_lower}
use estate_ci.Operations.Documents.{binding_json}
use estate_ci.Operations.Service.Approved.{IsPermitted, create-IsPermitted}
use estate_ci.Operations.Service.Accepted.{create_accepted}
use estate_ci.Operations.Service.Duplicates.{same_operation_refused}
use estate_ci.Storage.Memory.{new_memory_repository, reserve_request}
use estate_ci.Storage.Memory.Steps.{Reach}
use estate_ci.Tests.Everything.{everything}
use estate_ci.Tests.Fixtures.{
  second_id, intent_with, noon, test_crypto, test_signer, test_service, test_intent, test_evidence,
  test_document, test_catalog, operator, operator_email, start, first_id, dispatches, bytes_of,
  length-bytes_of, IsByte-bytes_of,
}
use estate_ci.Tests.Lawful.{lawful-IsSigner, lawful-IsCounter}
use estate_ci.Tests.Data.{
  first_receipt, test_binding, bound_reservation, noon_time, draft_request, sealed_request,
  authorized_target, sealed_snapshot, submissions,
}

-- The service

dispatch_at_most_once_example :
    dispatches (run test_service 2 submissions start).world.dispatched first_id
    ≤ bit (has_dispatch (run test_service 2 submissions start).store first_id)
dispatch_at_most_once_example =
    dispatch_at_most_once test_service has_dispatch (λ w. dispatches w.dispatched)
      (memory-IsOutbox test_crypto) lawful-IsCounter 2 submissions start (λ id. refl) first_id

create_returns_example :
    (create test_service 2 operator role_operator test_intent start).0 ≢ err stuck
create_returns_example =
    create_returns test_service (memory-HasOutbox test_crypto) 0 operator role_operator test_intent
      start

create_fuel_enough_example :
    create test_service 7 operator role_operator test_intent start
    ≡ create test_service 2 operator role_operator test_intent start
create_fuel_enough_example =
    create_fuel_enough test_service (memory-HasOutbox test_crypto) 5 operator role_operator
      test_intent start

evidence_valid :
    (validate_evidence test_service noon_time operator_email test_intent test_evidence start).0
    ≡ ok tt
unfolding everything
evidence_valid = refl

validated-IsApproved_example :
    IsApproved test_service noon_time operator_email test_intent test_evidence
validated-IsApproved_example =
    validated-IsApproved test_service noon_time operator_email test_intent test_evidence start
      evidence_valid

request_matches_own_intent_example :
    request_matches_intent
      (request_of test_intent operator_email noon_time (noon_time + 5 * minute) first_id)
      test_intent
      operator_email
    ≡ (format_time (noon_time + 5 * minute) == test_intent.expires_at)
request_matches_own_intent_example =
    request_matches_own_intent test_intent operator_email first_id noon_time
      (noon_time + 5 * minute)

identifiers_valid_example :
    (is_request_id (uuid_text (bytes_of 16 12345)) ≡ true)
    × (is_nonce (nonce_text (bytes_of 16 12345)) ≡ true)
identifiers_valid_example =
    identifiers_valid (bytes_of 16 12345) (length-bytes_of 16 12345) (IsByte-bytes_of 16 12345)

catalog_made : new_catalog test_document ≡ ok test_catalog
unfolding everything
catalog_made = refl

intent_allowed : authorize test_catalog test_intent ≡ ok authorized_target
unfolding everything
intent_allowed = refl

authorize-IsAuthorized_example : IsAuthorized test_document test_intent authorized_target
authorize-IsAuthorized_example =
    authorize-IsAuthorized test_document test_catalog test_intent authorized_target catalog_made
      intent_allowed

first_accepted :
    (create test_service 2 operator role_operator test_intent start).0 ≡ ok first_receipt
unfolding everything
first_accepted = refl

create-IsPermitted_example : IsPermitted test_service operator role_operator test_intent start
create-IsPermitted_example =
    create-IsPermitted test_service 2 operator role_operator test_intent start first_receipt
      first_accepted

create_accepted_example : first_receipt.status ≡ accepted
create_accepted_example =
    create_accepted test_service 2 operator role_operator test_intent start first_receipt
      first_accepted

first_bound : digest_of test_crypto (binding_json draft_request) ≡ ok test_binding
unfolding everything
first_bound = refl

second_bound :
    digest_of test_crypto (
      binding_json (
        request_of
          (intent_with second_id noon)
          (bytes "Operator@Mindclade.example")
          noon_time
          noon_time
          second_id))
    ≡ ok test_binding
unfolding everything
second_bound = refl

bound_reserved : (reserve_request (bound_reservation first_id) new_memory_repository).0 ≡ ok tt
unfolding everything
bound_reserved = refl

same_requester : to_lower operator_email ≡ to_lower (bytes "Operator@Mindclade.example")
unfolding everything
same_requester = refl

same_operation_refused_example :
    ((reserve_request
        (bound_reservation second_id)
        (reserve_request (bound_reservation first_id) new_memory_repository).1).0
      ≢ ok tt)
    × ((reserve_request
          (bound_reservation second_id)
          (reserve_request (bound_reservation first_id) new_memory_repository).1).1
        ≡ (reserve_request (bound_reservation first_id) new_memory_repository).1)
same_operation_refused_example =
    same_operation_refused {c = test_crypto} test_intent second_id noon operator_email
      (bytes "Operator@Mindclade.example") (bytes "0123456789abcdef0123456789abcdef") second_id
      noon_time noon_time (noon_time + 5 * minute) noon_time (bound_reservation first_id)
      (bound_reservation second_id) new_memory_repository
      (reserve_request (bound_reservation first_id) new_memory_repository).1 same_requester
      first_bound second_bound bound_reserved Reach.here

-- Documents

request_sealed : seal request_document test_crypto test_signer draft_request ≡ ok sealed_request
unfolding everything
request_sealed = refl

seal-verify_example :
    verify request_document test_crypto zero_time test_signer.key_id test_signer.public_key
      sealed_request
    ≡ ok tt
seal-verify_example =
    seal-verify request_document-IsDocument lawful-IsSigner zero_time draft_request sealed_request
      request_sealed (inl refl)

request_verified : verify_digest request_document test_crypto zero_time sealed_request ≡ ok tt
unfolding everything
request_verified = refl

same_digest-same_content_example :
    (p : Text) × (q : Text) × (write_canonical (material request_document sealed_request) ≡ ok p)
    × (write_canonical (material request_document sealed_request) ≡ ok q)
    × ((p ≡ q) ⊎ Collision test_crypto p q)
same_digest-same_content_example =
    same_digest-same_content request_document test_crypto zero_time zero_time sealed_request
      sealed_request lawful-IsSigner.byte_sum256 request_verified request_verified refl

snapshot_valid : validate_snapshot sealed_snapshot ≡ ok tt
unfolding everything
snapshot_valid = refl

validate_snapshot_counts_example :
    Rises [] sealed_snapshot.repositories
    × (sealed_snapshot.summary.healthy ≡ pos (count (bytes "success") sealed_snapshot.repositories))
    × (sealed_snapshot.summary.degraded
        ≡ pos (count (bytes "failure") sealed_snapshot.repositories))
    × (sealed_snapshot.summary.blocked ≡ pos (count (bytes "blocked") sealed_snapshot.repositories))
    × (sealed_snapshot.summary.unknown ≡ pos (count (bytes "unknown") sealed_snapshot.repositories))
validate_snapshot_counts_example = validate_snapshot_counts sealed_snapshot snapshot_valid
