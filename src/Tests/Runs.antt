-- ===== src/Tests/Runs.antt =====
-- Runs of the service on the in-memory store.
use estate_ci.Prelude.{err, bytes, true, Result, is_ok, ◌≡◌, refl, [], ◌∷◌}
use estate_ci.Contract.Models.{OperationIntent, OperationReceipt}
use estate_ci.Auth.Roles.{role_operator, role_viewer}
use estate_ci.Storage.Memory.{MemoryRepository}
use estate_ci.Operations.Exec.{replay, denied, State, Failure}
use estate_ci.Operations.Service.{create}
use estate_ci.Tests.Everything.{everything}
use estate_ci.Tests.Fixtures.{
  World, test_service, operator, test_intent, start, first_id, second_id, intent_with,
  test_evidence,
}

abbrev first : Result Failure OperationReceipt × State MemoryRepository World
first = create test_service 2 operator role_operator test_intent start

abbrev again : Result Failure OperationReceipt × State MemoryRepository World
again = create test_service 2 operator role_operator test_intent first.1

-- The request is accepted, and dispatched.
accepts : is_ok first.0 ≡ true
unfolding everything
accepts = refl

dispatches_once : first.1.world.dispatched ≡ (first_id ∷ [])
unfolding everything
dispatches_once = refl

-- A retry with the same intent gives the same receipt, and does not dispatch again.
retries : again.0 ≡ first.0
unfolding everything
retries = refl

retries_quietly : again.1.world.dispatched ≡ (first_id ∷ [])
unfolding everything
retries_quietly = refl

-- The same submission with an expiry in another spelling: its retry is not recognised.
abbrev offset_intent : OperationIntent
offset_intent = intent_with first_id (bytes "2026-09-02T14:05:00+02:00")

abbrev offset : Result Failure OperationReceipt × State MemoryRepository World
offset = create test_service 2 operator role_operator offset_intent start

offset_accepted : is_ok offset.0 ≡ true
unfolding everything
offset_accepted = refl

offset_retry_refused :
    (create test_service 2 operator role_operator offset_intent offset.1).0 ≡ err replay
unfolding everything
offset_retry_refused = refl

-- A second request ID for the same operation is a replay.
second_refused :
    (create test_service 2 operator role_operator
      (intent_with second_id (bytes "2026-09-02T12:05:00Z"))
      first.1).0
    ≡ err replay
unfolding everything
second_refused = refl

-- A submission that ended after its reservation: the retry is refused, and will be.
abbrev interrupted : State MemoryRepository World
interrupted = record start {
  store = record start.store { approvals = (test_evidence.approval.approval_id, first_id) ∷ [] };
}

interrupted_refused :
    (create test_service 2 operator role_operator test_intent interrupted).0 ≡ err replay
unfolding everything
interrupted_refused = refl

-- A viewer may not submit, and nothing changes.
viewer_denied : create test_service 2 operator role_viewer test_intent start ≡ (err denied, start)
unfolding everything
viewer_denied = refl
