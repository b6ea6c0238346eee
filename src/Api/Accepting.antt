-- ===== src/Api/Accepting.antt =====
-- The replies of internal/api/server.go with status 202.
use Prim.Native.String.{String}
use estate_ci.Prelude.{
  ◌≡◌, refl, Bool, true, false, List, [], ◌∷◌, Text, bytes, Result, ok, err, nat_eq, if◌then◌else◌,
  text_instance, arith, ℕ, pos,
}
use estate_ci.Contract.Patterns.{is_repository, is_request_id}
use estate_ci.Contract.Snapshot.{RepositoryHealth}
use estate_ci.Storage.Repository.{StorageError, not_found, conflict, failure, Op}
use estate_ci.Operations.Exec.{
  Failure, State, denied, invalid, replay, unready, pending, not_catalogued, disabled,
  unready_receipt, internal, stuck,
}
use estate_ci.Api.Http.{Request, Reply, reply, panics, Payload}
use estate_ci.Api.Responses.{problem, write_json, storage_problem}
use estate_ci.Api.Csrf.{query_limit}
use estate_ci.Api.Server.{
  Server, Principal, reading, stored, find_health, operation_problem, session_reply, session,
  latest_estate, estate_history, repositories, repository_health, evidence, list_operations,
  get_operation,
}

-- The status of the reply is 202.
abbrev pub is_accepted : Reply → Bool
is_accepted (reply r) = nat_eq r.status 202
is_accepted panics = false

-- A reply with status 202 satisfies `P`.
pub record Only {S W : Type 0} (P : Reply → Type 0) (outcome : Reply × State S W) : Type 0 where
  pub accepted_means : is_accepted outcome.0 ≡ true → P outcome.0

module _ {S W : Type 0} {P : Reply → Type 0} where
  pub Only-if :
      (b : Bool) (x y : Reply × State S W)
      → (b ≡ true → Only P x)
      → (b ≡ false → Only P y)
      → Only P (if b then x else y)
  Only-if true x y f g = f refl
  Only-if false x y f g = g refl

  pub Only-other : (q : Reply) (s : State S W) → is_accepted q ≡ false → Only P (q, s)
  Only-other q s h = record { accepted_means = λ k. cc }

  pub Only-problem :
      (status : ℕ) (code : String) (s : State S W)
      → nat_eq status 202 ≡ false
      → Only P (problem status code, s)
  unfolding problem
  Only-problem status code s h = Only-other _ s h

-- The handlers of reads answer with another status.
stored-status :
    {A : Type 0} (show : A → Reply) (q : Result StorageError A)
    → ((a : A) → is_accepted (show a) ≡ false)
    → is_accepted (stored show q) ≡ false
unfolding storage_problem problem
stored-status show (ok a) h = h a
stored-status show (err not_found) h = refl
stored-status show (err conflict) h = refl
stored-status show (err (failure m)) h = refl

find_health-status :
    (name : Text) (hs : List RepositoryHealth) → is_accepted (find_health name hs) ≡ false
unfolding find_health problem write_json
find_health-status name [] = refl
find_health-status name (h ∷ hs) = ground (arith, find_health-status name hs)

pub operation_problem-status : (e : Failure) → is_accepted (operation_problem e) ≡ false
unfolding operation_problem problem write_json
operation_problem-status denied = refl
operation_problem-status invalid = refl
operation_problem-status replay = refl
operation_problem-status unready = refl
operation_problem-status pending = refl
operation_problem-status not_catalogued = refl
operation_problem-status disabled = refl
operation_problem-status (unready_receipt r) = ground arith
operation_problem-status (internal m) = refl
operation_problem-status stuck = refl

pub json-status : (payload : Payload) → is_accepted (write_json 200 payload) ≡ false
unfolding write_json
json-status payload = refl

replied :
    {S W : Type 0} (server : Server S W) (p : Principal) (q : Result String Text)
    → is_accepted (session_reply server p q) ≡ false
unfolding problem
replied server p (ok random) = refl
replied server p (err e) = refl

module _ {S W : Type 0} (server : Server S W) {P : Reply → Type 0} where
  reading-Only :
      {A : Type 0} (op : Op S A) (show : A → Reply) (s : State S W)
      → ((a : A) → is_accepted (show a) ≡ false)
      → Only P (reading server op show s)
  reading-Only op show s h = Only-other _ _ (stored-status show (op s.store).0 h)

  pub session-Only : (p : Principal) (s : State S W) → Only P (session server p s)
  unfolding session
  session-Only p s = Only-other _ _ (replied server p (server.read_random 32 s.world).0)

  pub latest-Only : (s : State S W) → Only P (latest_estate server s)
  unfolding latest_estate
  latest-Only s = reading-Only server.repository.latest_snapshot _ s (λ a. json-status _)

  pub history-Only : (r : Request) (s : State S W) → Only P (estate_history server r s)
  unfolding estate_history
  history-Only r s =
      Only-if (query_limit r 20).1 _ _
        (λ e.
          reading-Only (server.repository.list_snapshots (pos (query_limit r 20).0)) _ s
            (λ a. json-status _))
        (λ e. Only-problem 400 _ s refl)

  pub repositories-Only : (s : State S W) → Only P (repositories server s)
  unfolding repositories
  repositories-Only s = reading-Only server.repository.latest_snapshot _ s (λ a. json-status _)

  pub health-Only : (r : Request) (s : State S W) → Only P (repository_health server r s)
  unfolding repository_health
  health-Only r s =
      Only-if (is_repository _) _ _
        (λ e.
          reading-Only server.repository.latest_snapshot _ s
            (λ a. find_health-status _ a.repositories))
        (λ e. Only-problem 400 _ s refl)

  pub evidence-Only : (r : Request) (s : State S W) → Only P (evidence server r s)
  unfolding evidence
  evidence-Only r s =
      reading-Only (server.repository.get_evidence (r.query (bytes "digest"))) _ s
        (λ a. json-status _)

  pub operations-Only : (r : Request) (s : State S W) → Only P (list_operations server r s)
  unfolding list_operations
  operations-Only r s =
      Only-if (query_limit r 50).1 _ _
        (λ e.
          reading-Only (server.repository.list_receipts (pos (query_limit r 50).0)) _ s
            (λ a. json-status _))
        (λ e. Only-problem 400 _ s refl)

  pub operation-Only : (r : Request) (s : State S W) → Only P (get_operation server r s)
  unfolding get_operation
  operation-Only r s =
      Only-if (is_request_id _) _ _
        (λ e. reading-Only (server.repository.get_receipt _) _ s (λ a. json-status _))
        (λ e. Only-problem 400 _ s refl)
