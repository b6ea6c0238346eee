-- ===== src/Operations/Service/Once.antt =====
-- The dispatch calls of internal/operations/service.go, over many calls of `Create`.
use estate_ci.Prelude.{
  ℕ, ◌+◌, ◌≤◌, ◌≡◌, refl, Bool, true, false, List, [], ◌∷◌, Text, Result, ok, err, if◌then◌else◌,
  ◌==◌, text_instance, text_eq_iff, arith,
}
use estate_ci.Auth.Identity.{Identity}
use estate_ci.Auth.Roles.{Role}
use estate_ci.Contract.Models.{
  OperationIntent, OperationRequest, OperationDispatch, OperationReceipt,
}
use estate_ci.Storage.Repository.{StorageError, conflict, Op}
use estate_ci.Operations.Catalog.{RepositoryTarget}
use estate_ci.Operations.Environment.{Service, DispatchOutcome}
use estate_ci.Operations.Exec.{Exec, State, raise, attempt, sense, ◌>>=◌}
use estate_ci.Operations.Exec.Keeps.{Keeps}
use estate_ci.Operations.Service.Laws.{IsOutbox, IsCounter}
use estate_ci.Operations.Service.Preserves.{Respects, Dispatches, complete-Keeps, create-Keeps}
use estate_ci.Operations.Outbox.{dispatch_and_complete, after_put_dispatch}
use estate_ci.Operations.Service.{create}

abbrev pub bit : Bool → ℕ
bit b = if b then 1 else 0

-- No request has been dispatched but those with an outbox record, and those once.
record Once {S W : Type 0} (recorded : S → Text → Bool) (calls : W → Text → ℕ) (s : State S W)
    : Type 0 where
  at_id : (id : Text) → calls s.world id ≤ bit (recorded s.store id)

-- The request `request_id` can be dispatched once more.
record Room {S W : Type 0} (recorded : S → Text → Bool) (calls : W → Text → ℕ) (request_id : Text)
    (s : State S W) : Type 0 where
  at_id : (id : Text) → calls s.world id + bit (request_id == id) ≤ bit (recorded s.store id)

module _ {S W : Type 0} (recorded : S → Text → Bool) (calls : W → Text → ℕ) where
  attempt-Once :
      {A : Type 0} (op : Op S A)
      → ((s : S) (id : Text) → recorded s id ≡ true → recorded (op s).1 id ≡ true)
      → Keeps (Once recorded calls) (attempt op)
  unfolding attempt
  attempt-Once op keeps = record {
    at = λ s h. record { at_id = λ id. ground (arith, h.at_id id, keeps s.store id) };
  }

  sense-Once :
      {A : Type 0} (f : W → A × W)
      → ((w : W) (id : Text) → calls (f w).1 id ≡ calls w id)
      → Keeps (Once recorded calls) (sense f)
  unfolding sense
  sense-Once f keeps = record {
    at = λ s h. record { at_id = λ id. rw (keeps s.world id) (h.at_id id) };
  }

  -- A branch of the code.
  Once-if :
      {A : Type 0} (b : Bool) (m n : Exec S W A) (s : State S W)
      → Once recorded calls (m s).1
      → Once recorded calls (n s).1
      → Once recorded calls ((if b then m else n) s).1
  Once-if true m n s hm hn = hm
  Once-if false m n s hm hn = hn

  Room-Once :
      (request_id : Text) (s : State S W) → Room recorded calls request_id s → Once recorded calls s
  Room-Once request_id s h = record { at_id = λ id. omega (arith, h.at_id id) }

module _ {S W : Type 0} (service : Service S W) (recorded : S → Text → Bool) (calls : W → Text → ℕ)
    (outbox : IsOutbox service.repository recorded)
    (counter : IsCounter service.environment calls) where
  respects : Respects service (Once recorded calls)
  respects = record {
    get_evidence = λ g. attempt-Once recorded calls _ (outbox.get_evidence_keeps g);
    reserve = λ r. attempt-Once recorded calls _ (outbox.reserve_keeps r);
    put_request = λ r. attempt-Once recorded calls _ (outbox.put_request_keeps r);
    get_request = λ k. attempt-Once recorded calls _ (outbox.get_request_keeps k);
    get_dispatch = λ k. attempt-Once recorded calls _ (outbox.get_dispatch_keeps k);
    put_result = λ r. attempt-Once recorded calls _ (outbox.put_result_keeps r);
    get_result = λ k. attempt-Once recorded calls _ (outbox.get_result_keeps k);
    put_receipt = λ r. attempt-Once recorded calls _ (outbox.put_receipt_keeps r);
    get_object = λ k. attempt-Once recorded calls _ (outbox.get_object_keeps k);
    now = sense-Once recorded calls _ counter.now_keeps;
    random = sense-Once recorded calls _ counter.random_keeps;
    role = λ a. sense-Once recorded calls _ (counter.role_keeps a);
    prepare_call = λ t r. sense-Once recorded calls _ (counter.prepare_keeps t r);
    recover = λ t r k. sense-Once recorded calls _ (counter.recover_keeps t r k);
  }

  -- The dispatch takes up the room.
  dispatch_in-Room :
      (t : RepositoryTarget) (r : OperationRequest) (d : OperationDispatch) (o : DispatchOutcome)
      (s : State S W)
      → Room recorded calls r.request_id s
      → Once recorded calls (dispatch_and_complete service t r d o s).1
  unfolding dispatch_and_complete sense ◌>>=◌
  dispatch_in-Room t r d o s room =
      Once-if recorded calls o.final _ _ s
        ((complete-Keeps service (Once recorded calls) respects r d o).at s
          (Room-Once recorded calls r.request_id s room))
        ((complete-Keeps service (Once recorded calls) respects r d _).at _
          (record { at_id = λ id. rw counter.dispatch_counts (room.at_id id) }))

  -- A new outbox record makes room.
  write-Room :
      (d : OperationDispatch) (s : State S W) (h : Once recorded calls s)
      → (service.repository.put_dispatch d s.store).0 ≡ ok tt
      → Room recorded calls d.request_id
          (record s { store = (service.repository.put_dispatch d s.store).1 })
  write-Room d s h e =
      let (before, after) = outbox.put_dispatch_new d s.store e in
      record {
        at_id = λ id. ground (
          arith,
          h.at_id id,
          before,
          after,
          outbox.put_dispatch_keeps d s.store id,
          text_eq_iff d.request_id id,
        );
      }

  written :
      (d : OperationDispatch) (s : State S W)
      → Once recorded calls s
      → Once recorded calls (record s { store = (service.repository.put_dispatch d s.store).1 })
  written d s h = record {
    at_id = λ id. ground (arith, h.at_id id, outbox.put_dispatch_keeps d s.store id);
  }

  write_then :
      (t : RepositoryTarget) (r : OperationRequest) (d : OperationDispatch) (o : DispatchOutcome)
      (again : Exec S W OperationReceipt)
      → d.request_id ≡ r.request_id
      → Keeps (Once recorded calls) again
      → (s : State S W) → Once recorded calls s
      → (q : Result StorageError (Unit {0})) → (service.repository.put_dispatch d s.store).0 ≡ q
      → Once recorded calls
          (after_put_dispatch service t r d o again q
            (record s { store = (service.repository.put_dispatch d s.store).1 })).1
  unfolding after_put_dispatch raise
  write_then t r d o again same k s h (ok u) e =
      dispatch_in-Room t r d o _ (rw (← same) (write-Room d s h e))
  write_then t r d o again same k s h (err conflict) e = k.at _ (written d s h)
  write_then t r d o again same k s h (err x) e = written d s h

  writes : Dispatches service (Once recorded calls)
  unfolding attempt ◌>>=◌
  writes = record {
    write =
        λ t r d o again same k. record { at = λ s h. write_then t r d o again same k s h _ refl };
  }

-- Who calls `Create`, and with what.
pub record Call : Type 0 where
  pub identity : Identity
  pub role : Role
  pub intent : OperationIntent

module _ {S W : Type 0} (service : Service S W) where
  -- Several calls of `Create`, one after the other; their results go back to the callers.
  unfoldable pub run : ℕ → List Call → State S W → State S W
  run fuel [] s = s
  run fuel (c ∷ cs) s = run fuel cs (create service fuel c.identity c.role c.intent s).1

module _ {S W : Type 0} (service : Service S W) (recorded : S → Text → Bool) (calls : W → Text → ℕ)
    (outbox : IsOutbox service.repository recorded)
    (counter : IsCounter service.environment calls) where
  run-Once :
      (fuel : ℕ) (cs : List Call) (s : State S W)
      → Once recorded calls s
      → Once recorded calls (run service fuel cs s)
  unfolding run
  run-Once fuel [] s h = h
  run-Once fuel (c ∷ cs) s h = run-Once fuel cs _ (
      (create-Keeps service (Once recorded calls) (respects service recorded calls outbox counter)
          (writes service recorded calls outbox counter) fuel c.identity c.role c.intent).at
        s h)

  -- From a state in which nothing has been dispatched, any calls of `Create`, by whomever and with
  -- whatever intents, make at most one dispatch call for each request ID, and none for a request ID
  -- that has no outbox record.
  pub dispatch_at_most_once :
      (fuel : ℕ) (cs : List Call) (s : State S W)
      → ((id : Text) → calls s.world id ≡ 0)
      → (id : Text)
      → calls (run service fuel cs s).world id ≤ bit (recorded (run service fuel cs s).store id)
  dispatch_at_most_once fuel cs s none_yet id =
      (run-Once fuel cs s (record { at_id = λ k. omega (arith, none_yet k) })).at_id id
