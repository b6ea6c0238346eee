-- ===== src/Api/ReadOnly.antt =====
-- The requests of internal/api/server.go that read, over the in-memory store.
use estate_ci.Prelude.{
  ◌≡◌, ◌≢◌, refl, Bool, true, false, not, ◌||◌, Option, none, some, Text, bytes, Result, ok, err,
  ltb, pos, if◌then◌else◌, ◌==◌, text_instance, arith, ℕ, starts_with, is_empty, text_eq_iff,
}
use Prim.Native.String.{String}
use estate_ci.Auth.Identity.{Identity}
use estate_ci.Auth.Roles.{Role, role_viewer}
use estate_ci.Contract.Crypto.{Crypto}
use estate_ci.Contract.Patterns.{is_repository, is_request_id}
use estate_ci.Storage.Repository.{Repository}
use estate_ci.Storage.Memory.{
  MemoryRepository, memory_repository, latest_snapshot, list_snapshots, get_evidence, get_receipt,
  list_receipts,
}
use estate_ci.Operations.Exec.{State}
use estate_ci.Api.Http.{Request, Reply}
use estate_ci.Api.Csrf.{query_limit}
use estate_ci.Api.Server.{
  Server, Principal, session, latest_estate, estate_history, repositories, repository_health,
  evidence, list_operations, get_operation, handle, Route, find_route, to_session, to_estate,
  to_history, to_repositories, to_repository, to_evidence, to_options, to_operations, to_operation,
  to_create, to_other_method, to_nothing, with_principal, route, admit, identified, assertion_of,
  authenticate, serve, api_prefix,
}

list_snapshots-keeps : (n : ℕ) (m : MemoryRepository) → (list_snapshots (pos n) m).1 ≡ m
unfolding list_snapshots
list_snapshots-keeps n m = ground arith

list_receipts-keeps : (n : ℕ) (m : MemoryRepository) → (list_receipts (pos n) m).1 ≡ m
unfolding list_receipts
list_receipts-keeps n m = ground arith

-- The reads that the handlers make do not change the store.
pub record ReadsOnly {S : Type 0} (repo : Repository S) : Type 0 where
  pub latest_keeps : (s : S) → (repo.latest_snapshot s).1 ≡ s
  pub snapshots_keep : (n : ℕ) (s : S) → (repo.list_snapshots (pos n) s).1 ≡ s
  pub evidence_keeps : (digest : Text) (s : S) → (repo.get_evidence digest s).1 ≡ s
  pub receipt_keeps : (id : Text) (s : S) → (repo.get_receipt id s).1 ≡ s
  pub receipts_keep : (n : ℕ) (s : S) → (repo.list_receipts (pos n) s).1 ≡ s

pub memory-ReadsOnly : (c : Crypto) → ReadsOnly (memory_repository c)
unfolding latest_snapshot get_evidence get_receipt
memory-ReadsOnly c = record {
  latest_keeps = λ m. refl;
  snapshots_keep = list_snapshots-keeps;
  evidence_keeps = λ g m. refl;
  receipt_keeps = λ id m. refl;
  receipts_keep = list_receipts-keeps;
}

module _ {S W : Type 0} (server : Server S W) (reads : ReadsOnly server.repository) where
  -- The outcome leaves the store at `m`.
  abbrev Same : S → Reply × State S W → Type 0
  Same m outcome = outcome.1.store ≡ m

  Same-if :
      (m : S) (b : Bool) (x y : Reply × State S W)
      → Same m x
      → Same m y
      → Same m (if b then x else y)
  Same-if m true x y h k = h
  Same-if m false x y h k = k

  not_create : (r : Request) → r.method ≢ bytes "POST" → find_route r ≢ to_create
  unfolding find_route
  not_create r other e = other ((text_eq_iff r.method (bytes "POST")).0 (ground arith))

  handle-Same :
      (r : Request) (p : Principal) (s : State S W) (to : Route)
      → to ≢ to_create
      → Same s.store (handle server to r p s)
  unfolding handle session latest_estate estate_history repositories repository_health evidence
      list_operations get_operation
  handle-Same r p s to_session e = refl
  handle-Same r p s to_estate e = reads.latest_keeps s.store
  handle-Same r p s to_history e =
      Same-if s.store (query_limit r 20).1 _ _ (reads.snapshots_keep _ s.store) refl
  handle-Same r p s to_repositories e = reads.latest_keeps s.store
  handle-Same r p s to_repository e =
      Same-if s.store (is_repository _) _ _ (reads.latest_keeps s.store) refl
  handle-Same r p s to_evidence e = reads.evidence_keeps _ s.store
  handle-Same r p s to_options e = refl
  handle-Same r p s to_operations e =
      Same-if s.store (query_limit r 50).1 _ _ (reads.receipts_keep _ s.store) refl
  handle-Same r p s to_operation e =
      Same-if s.store (is_request_id _) _ _ (reads.receipt_keeps _ s.store) refl
  handle-Same r p s to_create e = absurd (e refl)
  handle-Same r p s to_other_method e = refl
  handle-Same r p s to_nothing e = refl

  with_principal-Same :
      (r : Request) (p : Option Principal) (s : State S W)
      → find_route r ≢ to_create
      → Same s.store (with_principal server r p s)
  with_principal-Same r none s e = refl
  with_principal-Same r (some p) s e = handle-Same r p s (find_route r) e

  route-Same :
      (r : Request) (p : Option Principal) (s : State S W)
      → find_route r ≢ to_create
      → Same s.store (route server r p s)
  unfolding route
  route-Same r p s e =
      Same-if s.store (r.path == bytes "/healthz") _ _ refl
        (Same-if s.store (r.path == bytes "/readyz") _ _ refl (with_principal-Same r p s e))

  admit-Same :
      (r : Request) (identity : Identity) (q : Result String Role) (s : State S W)
      → find_route r ≢ to_create
      → Same s.store (admit server r identity q s)
  admit-Same r identity (err x) s e = refl
  admit-Same r identity (ok role) s e =
      Same-if s.store (ltb role role_viewer) _ _ refl (route-Same r _ s e)

  identified-Same :
      (r : Request) (q : Result String Identity) (s : State S W)
      → find_route r ≢ to_create
      → Same s.store (identified server r q s)
  identified-Same r (err x) s e = refl
  identified-Same r (ok identity) s e =
      admit-Same r identity (server.role_for identity.email s.world).0
        (record s { world = (server.role_for identity.email s.world).1 }) e

  -- Where the five reads of the repository do not change it, a request with another method than POST
  -- leaves the store as it was, whoever makes it and whatever it asks for.
  pub reads_change_nothing :
      (r : Request) (s : State S W) → r.method ≢ bytes "POST" → (serve server r s).1.store ≡ s.store
  unfolding serve authenticate
  reads_change_nothing r s other =
      let e = not_create r other in
      Same-if s.store (r.path == bytes "/healthz" || r.path == bytes "/readyz") _ _
        (route-Same r none s e)
        (Same-if s.store (not (starts_with api_prefix r.path)) _ _ refl (
          Same-if s.store (is_empty (assertion_of server r)) _ _ refl (
            identified-Same r (server.validate (assertion_of server r) s.world).0
              (record s { world = (server.validate (assertion_of server r) s.world).1 }) e)))
