-- ===== src/Tests/StoreWitnesses.antt =====
-- The theorems on the store and on the roles, at concrete data.
use mathlib.Core.List.{Permᴰ}
use estate_ci.Contract.Models.{OperationReceipt}
use estate_ci.Storage.Memory.{values, list_receipts}
use estate_ci.Storage.Memory.Receipts.{NewestFirst, list_receipts_newest}
use estate_ci.Prelude.{
  List, ◌≡◌, ◌≢◌, ◌≤◌, ◌⊎◌, inr, refl, [], ◌∷◌, ok, pos, take, length, Some, arith,
}
use estate_ci.Auth.Roles.{role_operator, role_viewer, role_none, new_resolver, role_for, key_of}
use estate_ci.Auth.Roles.Highest.{Grants, role_for_highest, role_for_held}
use estate_ci.Auth.Roles.CacheBound.{role_for_cache_bounded}
use estate_ci.Storage.Memory.{
  MemoryRepository, new_memory_repository, reserve_request, put_request, get_request, put_dispatch,
  get_dispatch, put_dispatch_result, get_dispatch_result, put_receipt, get_receipt, list_snapshots,
  latest_snapshot, seed_snapshot,
}
use estate_ci.Storage.Memory.Steps.{
  Reach, here, next, seeds_snapshot, puts_request, puts_dispatch, puts_result, puts_receipt,
}
use estate_ci.Storage.Memory.SingleUse.{reservation_single_use}
use estate_ci.Storage.Memory.Durable.{
  put_request_durable, put_dispatch_durable, put_result_durable, put_receipt_durable,
}
use estate_ci.Storage.Memory.Seeded.{seeded, first_snapshot, list_snapshots_last_seeded}
use estate_ci.Tests.Everything.{everything}
use estate_ci.Tests.Fixtures.{test_crypto, operator_email}
use estate_ci.Tests.Data.{
  noon_time, sealed_request, sealed_dispatch, sealed_result, sealed_receipt, first_reservation,
  second_reservation, groups, all_members, resolver, draft_snapshot, sealed_snapshot,
}

-- The store, step by step.
abbrev reserved : MemoryRepository
reserved = (reserve_request first_reservation new_memory_repository).1

abbrev stored : MemoryRepository
stored = (put_request test_crypto sealed_request reserved).1

abbrev recorded : MemoryRepository
recorded = (put_dispatch test_crypto sealed_dispatch stored).1

abbrev completed : MemoryRepository
completed = (put_dispatch_result test_crypto sealed_result recorded).1

abbrev audited : MemoryRepository
audited = (put_receipt test_crypto sealed_receipt completed).1

reserved_ok : (reserve_request first_reservation new_memory_repository).0 ≡ ok tt
unfolding everything
reserved_ok = refl

reservation_single_use_example :
    ((reserve_request second_reservation stored).0 ≢ ok tt)
    × ((reserve_request second_reservation stored).1 ≡ stored)
reservation_single_use_example =
    reservation_single_use {c = test_crypto} first_reservation second_reservation
      new_memory_repository stored reserved_ok (next here (puts_request sealed_request reserved))
      (inr (inr refl))

stored_ok : (put_request test_crypto sealed_request reserved).0 ≡ ok tt
unfolding everything
stored_ok = refl

put_request_durable_example : (get_request sealed_request.request_id recorded).0 ≡ ok sealed_request
put_request_durable_example =
    put_request_durable sealed_request reserved recorded stored_ok
      (next here (puts_dispatch sealed_dispatch stored))

recorded_ok : (put_dispatch test_crypto sealed_dispatch stored).0 ≡ ok tt
unfolding everything
recorded_ok = refl

put_dispatch_durable_example :
    (get_dispatch sealed_dispatch.request_id completed).0 ≡ ok sealed_dispatch
put_dispatch_durable_example =
    put_dispatch_durable sealed_dispatch stored completed recorded_ok
      (next here (puts_result sealed_result recorded))

completed_ok : (put_dispatch_result test_crypto sealed_result recorded).0 ≡ ok tt
unfolding everything
completed_ok = refl

put_result_durable_example :
    (get_dispatch_result sealed_result.request_id audited).0 ≡ ok sealed_result
put_result_durable_example =
    put_result_durable sealed_result recorded audited completed_ok
      (next here (puts_receipt sealed_receipt completed))

audited_ok : (put_receipt test_crypto sealed_receipt completed).0 ≡ ok tt
unfolding everything
audited_ok = refl

put_receipt_durable_example :
    (get_receipt sealed_receipt.receipt_id (put_receipt test_crypto sealed_receipt audited).1).0
    ≡ ok sealed_receipt
put_receipt_durable_example =
    put_receipt_durable sealed_receipt completed (put_receipt test_crypto sealed_receipt audited).1
      audited_ok (next here (puts_receipt sealed_receipt audited))

-- A snapshot is seeded, and one that is not sealed is refused.
abbrev first_seeded : MemoryRepository
first_seeded = (seed_snapshot test_crypto sealed_snapshot new_memory_repository).1

abbrev both_seeded : MemoryRepository
both_seeded = (seed_snapshot test_crypto draft_snapshot first_seeded).1

abbrev seeds : Reach test_crypto new_memory_repository both_seeded
seeds =
    next (next here (seeds_snapshot sealed_snapshot new_memory_repository))
      (seeds_snapshot draft_snapshot first_seeded)

list_snapshots_last_seeded_example :
    (list_snapshots (pos 1) both_seeded ≡ (ok (take 1 (seeded seeds)), both_seeded))
    × (latest_snapshot both_seeded ≡ (first_snapshot (seeded seeds), both_seeded))
list_snapshots_last_seeded_example = list_snapshots_last_seeded seeds 1 (omega arith) (omega arith)

seeded_ok : seeded seeds ≡ sealed_snapshot ∷ []
unfolding everything
seeded_ok = refl

list_receipts_newest_example :
    (rs : List OperationReceipt) × NewestFirst rs
    × Permᴰ (values audited.receipts) rs
    × (list_receipts (pos 20) audited ≡ (ok (take 20 rs), audited))
list_receipts_newest_example = list_receipts_newest 20 audited (omega arith) (omega arith)

resolver_made : new_resolver groups ≡ ok resolver
unfolding everything
resolver_made = refl

resolver_small : length resolver.cache ≤ 10000
unfolding everything
resolver_small = omega arith

operator_answered :
    (role_for all_members noon_time noon_time operator_email resolver).0 ≡ ok role_operator
unfolding everything
operator_answered = refl

viewer_granted : Some (Grants all_members (key_of operator_email) role_viewer) groups
unfolding everything
viewer_granted = Some.here (record { parsed = refl; member = refl })

role_for_highest_example : role_viewer ≤ role_operator
role_for_highest_example =
    role_for_highest groups resolver all_members noon_time noon_time operator_email role_operator
      role_viewer resolver_made operator_answered viewer_granted

role_for_held_example :
    (role_operator ≡ role_none)
    ⊎ Some (Grants all_members (key_of operator_email) role_operator) groups
role_for_held_example =
    role_for_held groups resolver all_members noon_time noon_time operator_email role_operator
      resolver_made operator_answered

role_for_cache_bounded_example :
    length (role_for all_members noon_time noon_time operator_email resolver).1.cache ≤ 10000
role_for_cache_bounded_example =
    role_for_cache_bounded all_members noon_time noon_time operator_email resolver resolver_small
