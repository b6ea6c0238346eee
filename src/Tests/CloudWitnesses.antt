-- ===== src/Tests/CloudWitnesses.antt =====
-- The theorems on internal/storage/gcs.go at concrete data.
use estate_ci.Prelude.{
  Option, ◌≡◌, ◌≢◌, ◌≤◌, inr, refl, List, [], ◌∷◌, Text, bytes, ok, err, pos, none, All,
}
use estate_ci.Auth.Roles.{role_operator}
use estate_ci.Contract.Canonical.{write_canonical}
use estate_ci.Contract.Dispatch.{dispatch_json}
use estate_ci.Storage.Repository.{conflict, Reservation}
use estate_ci.Storage.Objects.Gcs.{create_object, get_object}
use estate_ci.Storage.Objects.Gcs.Once.{none_yet, creates, gets, object_created_once}
use estate_ci.Storage.Memory.{limit_of}
use estate_ci.Storage.Memory.Receipts.{NewestFirst}
use estate_ci.Storage.Cloud.{
  or_nil, reserve_request, put_dispatch, get_dispatch, put_receipt, list_receipts,
}
use estate_ci.Storage.Cloud.Names.{dispatch_object, evidence_object}
use estate_ci.Storage.Cloud.Outbox.{has_dispatch_object}
use estate_ci.Storage.Cloud.Reservations.{cloud_reservation_single_use, conflict_uses_request_id}
use estate_ci.Storage.Cloud.Reads.{cloud_dispatch_read_back}
use estate_ci.Storage.Cloud.Listing.{Verified, cloud_list_receipts}
use estate_ci.Operations.Exec.{State, stuck}
use estate_ci.Operations.Service.{create}
use estate_ci.Operations.Service.Once.{run, bit}
use estate_ci.Operations.Service.CloudOutbox.{cloud_service, cloud_dispatch_at_most_once}
use estate_ci.Tests.Everything.{everything}
use estate_ci.Tests.Parts.{cloud_storage}
use estate_ci.Tests.CloudFixtures.{
  Stored, test_objects, test_held, test-IsCreateOnly, test_cloud, test_decoders, one_object_store,
  one_object-IsServer,
}
use estate_ci.Tests.Fixtures.{
  World, test_crypto, test_signer, test_environment, test_catalog, test_evidence, test_intent,
  operator, start, first_id, dispatches,
}
use estate_ci.Tests.Lawful.{lawful-IsCounter}
use estate_ci.Tests.Data.{
  submissions, first_reservation, second_reservation, sealed_dispatch, sealed_receipt,
}

abbrev cloud_start : State (List Stored) World
cloud_start = record {
  store =
      record {
        bucket = test_cloud.audit_bucket;
        name = evidence_object test_evidence.digest;
        content = [];
      }
      ∷ [];
  world = start.world;
}

cloud_dispatch_at_most_once_example :
    (dispatches
        (run
          (cloud_service test_crypto test_decoders test_cloud test_held test-IsCreateOnly
            test_catalog test_signer test_environment)
          2
          submissions
          cloud_start).world.dispatched
        first_id
      ≤ bit (
          has_dispatch_object test_crypto test_decoders test_cloud test_held
            (run
              (cloud_service test_crypto test_decoders test_cloud test_held test-IsCreateOnly
                test_catalog test_signer test_environment)
              2
              submissions
              cloud_start).store
            first_id))
    × ((create
          (cloud_service test_crypto test_decoders test_cloud test_held test-IsCreateOnly
            test_catalog test_signer test_environment)
          4
          operator
          role_operator
          test_intent
          cloud_start).0
        ≢ err stuck)
cloud_dispatch_at_most_once_example =
    cloud_dispatch_at_most_once test_crypto test_decoders test_cloud test_held test-IsCreateOnly
      test_catalog test_signer test_environment (λ w. dispatches w.dispatched) 2 submissions
      cloud_start cloud_start operator role_operator test_intent lawful-IsCounter (λ id. refl)
      first_id

-- One object

first_made :
    (create_object one_object_store (bytes "estate-audit") (bytes "a.json") (bytes "{}") none).0
    ≡ ok tt
unfolding everything cloud_storage
first_made = refl

-- The store after the create, a refused create and a read.
abbrev after_create : Option Text
after_create =
    (create_object one_object_store (bytes "estate-audit") (bytes "a.json") (bytes "{}") none).1

abbrev after_refusal : Option Text
after_refusal =
    (create_object one_object_store (bytes "estate-audit") (bytes "a.json") (bytes "[1]")
      after_create).1

abbrev after_calls : Option Text
after_calls = (get_object one_object_store (bytes "estate-audit") (bytes "b.json") after_refusal).1

first_read :
    (get_object one_object_store (bytes "estate-audit") (bytes "a.json") after_calls).0
    ≡ ok (bytes "{}")
unfolding everything cloud_storage
first_read = refl

object_created_once_example :
    ((create_object one_object_store
        (bytes "estate-audit")
        (bytes "a.json")
        (bytes "[]")
        after_calls).0
      ≢ ok tt)
    × (bytes "{}" ≡ bytes "{}")
object_created_once_example =
    object_created_once one_object_store (bytes "estate-audit") (bytes "a.json") (bytes "{}")
      (bytes "[]") (bytes "{}") none after_calls one_object-IsServer first_made
      (gets (bytes "estate-audit") (bytes "b.json")
        (creates (bytes "estate-audit") (bytes "a.json") (bytes "[1]") none_yet))
      first_read

-- Reservations

reserved : (reserve_request test_crypto test_decoders test_cloud first_reservation []).0 ≡ ok tt
unfolding everything cloud_storage
reserved = refl

cloud_reservation_single_use_example :
    (reserve_request test_crypto test_decoders test_cloud second_reservation
      (reserve_request test_crypto test_decoders test_cloud first_reservation []).1).0
    ≢ ok tt
cloud_reservation_single_use_example =
    cloud_reservation_single_use test_crypto test_decoders test_cloud test-IsCreateOnly
      first_reservation second_reservation ([])
      (reserve_request test_crypto test_decoders test_cloud first_reservation []).1 reserved
      (λ n h. h) (inr (inr refl))

abbrev after_first : List Stored
after_first = (reserve_request test_crypto test_decoders test_cloud first_reservation []).1

-- A reservation of the used approval by another request.
conflicting :
    (reserve_request test_crypto test_decoders test_cloud second_reservation after_first).0
    ≡ err conflict
unfolding everything cloud_storage
conflicting = refl

-- The same request with an approval that nobody has used.
abbrev third_reservation : Reservation
third_reservation = record second_reservation {
  approval_id = bytes "bbbbbbbb-bbbb-4bbb-8bbb-bbbbbbbbbbbb";
}

conflict_uses_request_id_example :
    (reserve_request test_crypto test_decoders test_cloud third_reservation
      (reserve_request test_crypto test_decoders test_cloud second_reservation after_first).1).0
    ≢ ok tt
conflict_uses_request_id_example =
    conflict_uses_request_id test_crypto test_decoders test_cloud test-IsCreateOnly
      second_reservation third_reservation after_first
      (reserve_request test_crypto test_decoders test_cloud second_reservation after_first).1
      conflicting (λ n h. h) refl

-- Reads

dispatch_put : (put_dispatch test_crypto test_decoders test_cloud sealed_dispatch []).0 ≡ ok tt
unfolding everything cloud_storage
dispatch_put = refl

abbrev dispatch_content : Text
dispatch_content = or_nil (write_canonical (dispatch_json sealed_dispatch))

dispatch_read :
    (test_objects.get test_cloud.audit_bucket
      (dispatch_object sealed_dispatch.request_id)
      (put_dispatch test_crypto test_decoders test_cloud sealed_dispatch []).1).0
    ≡ ok dispatch_content
unfolding everything cloud_storage
dispatch_read = refl

cloud_dispatch_read_back_example :
    (get_dispatch test_crypto test_decoders test_cloud sealed_dispatch.request_id
      (put_dispatch test_crypto test_decoders test_cloud sealed_dispatch []).1).0
    ≡ ok sealed_dispatch
cloud_dispatch_read_back_example =
    cloud_dispatch_read_back test_crypto test_decoders test_cloud test-IsCreateOnly sealed_dispatch
      ([]) dispatch_content (λ payload h. refl) dispatch_put dispatch_read

abbrev one_receipt : List Stored
one_receipt = (put_receipt test_crypto test_decoders test_cloud sealed_receipt []).1

receipts_listed :
    (list_receipts test_crypto test_decoders test_cloud (pos 10) one_receipt).0
    ≡ ok (sealed_receipt ∷ [])
unfolding everything cloud_storage
receipts_listed = refl

cloud_list_receipts_example :
    (1 ≤ limit_of (pos 10))
    × (limit_of (pos 10) ≤ 100)
    × NewestFirst (sealed_receipt ∷ [])
    × All (Verified test_crypto test_decoders) (sealed_receipt ∷ [])
cloud_list_receipts_example =
    cloud_list_receipts test_crypto test_decoders test_cloud (pos 10) one_receipt
      (sealed_receipt ∷ []) receipts_listed
