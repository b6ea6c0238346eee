-- ===== src/Api/Operator.antt =====
-- `createOperation` of internal/api/server.go, behind authentication and routing.
use Prim.Native.String.{String}
use estate_ci.Prelude.{
  ◌≡◌, refl, Bool, true, false, not, ◌||◌, Option, none, some, Text, bytes, Result, ok, err, ltb,
  if◌then◌else◌, ◌==◌, text_instance, arith, text_eq_iff, starts_with, is_empty,
}
use estate_ci.Auth.Identity.{Identity}
use estate_ci.Auth.Roles.{Role, role_viewer, role_operator}
use estate_ci.Contract.Models.{OperationIntent, OperationReceipt}
use estate_ci.Operations.Exec.{Failure, State}
use estate_ci.Operations.Service.{create}
use estate_ci.Api.Http.{Request, Reply, panics, receipt_body, Payload}
use estate_ci.Api.Responses.{write_json, method_not_allowed}
use estate_ci.Api.Csrf.{valid_csrf}
use estate_ci.Api.Server.{
  Server, Principal, operation_problem, operation_reply, decode_intent, create_decoded, is_json,
  create_operation, handle, Route, find_route, to_session, to_estate, to_history, to_repositories,
  to_repository, to_evidence, to_options, to_operations, to_operation, to_create, to_other_method,
  to_nothing, with_principal, route, admit, identified, assertion_of, authenticate, serve, is_get,
  api_prefix,
}
use estate_ci.Api.Accepting.{
  is_accepted, Only, Only-if, Only-other, Only-problem, operation_problem-status, session-Only,
  latest-Only, history-Only, repositories-Only, health-Only, evidence-Only, operations-Only,
  operation-Only, json-status,
}

module _ {S W : Type 0} (server : Server S W) where
  -- The request was checked, and `Create` returned the receipt.
  pub record IsCreated (r : Request) (p : Principal) (s : State S W) (q : Reply) : Type 0 where
    pub operator : ltb p.role role_operator ≡ false
    pub csrf : valid_csrf server.config.allowed_origin server.config.secure_cookies r ≡ true
    pub json : is_json server (server.media_type (r.header (bytes "Content-Type"))) ≡ true
    pub intent : OperationIntent
    pub decoded : decode_intent server.intent r.body ≡ ok intent
    pub receipt : OperationReceipt
    pub created : (create server.operations 2 p.identity p.role intent s).0 ≡ ok receipt
    -- and it is what the client gets
    pub answer : q ≡ write_json 202 (receipt_body receipt)
    pub method : r.method ≡ bytes "POST"
    pub path : r.path ≡ bytes "/api/v1/operations"

  not_accepted :
      (e : Failure) (s : State S W) {P : Reply → Type 0} → Only P (operation_problem e, s)
  not_accepted e s = Only-other _ s (operation_problem-status e)

  decoded-Only :
      (r : Request) (p : Principal) (s : State S W)
      → ltb p.role role_operator ≡ false
      → valid_csrf server.config.allowed_origin server.config.secure_cookies r ≡ true
      → is_json server (server.media_type (r.header (bytes "Content-Type"))) ≡ true
      → r.method ≡ bytes "POST"
      → r.path ≡ bytes "/api/v1/operations"
      → (q : Result String OperationIntent) → decode_intent server.intent r.body ≡ q
      → Only (IsCreated r p s) (create_decoded server p q s)
  decoded-Only r p s operator csrf json post path (err e) d = Only-problem 400 _ s refl
  decoded-Only r p s operator csrf json post path (ok i) d =
      created (create server.operations 2 p.identity p.role i s).0 _ refl
    where
      created :
          (q : Result Failure OperationReceipt) (t : State S W)
          → (create server.operations 2 p.identity p.role i s).0 ≡ q
          → Only (IsCreated r p s) (operation_reply q, t)
      created (err e) t c = not_accepted e t
      created (ok receipt) t c = record {
        accepted_means = λ k. record {
          operator = operator;
          csrf = csrf;
          json = json;
          intent = i;
          decoded = d;
          receipt = receipt;
          created = c;
          answer = refl;
          method = post;
          path = path;
        };
      }

  create_operation-Only :
      (r : Request) (p : Principal) (s : State S W)
      → r.method ≡ bytes "POST"
      → r.path ≡ bytes "/api/v1/operations"
      → Only (IsCreated r p s) (create_operation server r p s)
  unfolding create_operation
  create_operation-Only r p s post path =
      let json = is_json server (server.media_type (r.header (bytes "Content-Type"))) in
      let csrf = valid_csrf server.config.allowed_origin server.config.secure_cookies r in
      Only-if (ltb p.role role_operator) _ _ (λ e. Only-problem 403 _ s refl)
        λ operator.
          Only-if (not csrf) _ _ (λ e. Only-problem 403 _ s refl)
            λ same_site.
              Only-if (not json) _ _ (λ e. Only-problem 415 _ s refl)
                λ typed.
                  decoded-Only r p s operator (not-false csrf same_site) (not-false json typed) post
                    path _ refl
    where
      not-false : (b : Bool) → not b ≡ false → b ≡ true
      not-false true e = refl
      not-false false e = cc

  refused-status : (allow : Text) → is_accepted (method_not_allowed allow) ≡ false
  unfolding method_not_allowed
  refused-status allow = refl

  -- Only `POST /api/v1/operations` reaches `createOperation`.
  posted :
      (r : Request)
      → find_route r ≡ to_create
      → (r.method ≡ bytes "POST") × (r.path ≡ bytes "/api/v1/operations")
  unfolding find_route
  posted r e =
      ground (
        arith,
        text_eq_iff r.method (bytes "POST"),
        text_eq_iff r.path (bytes "/api/v1/operations"),
      )

  handle-Only :
      (r : Request) (p : Principal) (s : State S W) (to : Route)
      → find_route r ≡ to
      → Only (IsCreated r p s) (handle server to r p s)
  unfolding handle
  handle-Only r p s to_session e = session-Only server p s
  handle-Only r p s to_estate e = latest-Only server s
  handle-Only r p s to_history e = history-Only server r s
  handle-Only r p s to_repositories e = repositories-Only server s
  handle-Only r p s to_repository e = health-Only server r s
  handle-Only r p s to_evidence e = evidence-Only server r s
  handle-Only r p s to_options e = Only-other _ s (json-status _)
  handle-Only r p s to_operations e = operations-Only server r s
  handle-Only r p s to_operation e = operation-Only server r s
  handle-Only r p s to_create e = create_operation-Only r p s (posted r e).0 (posted r e).1
  handle-Only r p s to_other_method e = Only-other _ s (refused-status _)
  handle-Only r p s to_nothing e = Only-problem 404 _ s refl

  -- A principal that the two checks of `authenticate` give, and the state after them.
  pub record IsAuthenticated (r : Request) (s : State S W) (p : Principal) (t : State S W)
      : Type 0 where
    pub validated : (server.validate (assertion_of server r) s.world).0 ≡ ok p.identity
    pub middle : W
    pub resolving : middle ≡ (server.validate (assertion_of server r) s.world).1
    pub resolved : (server.role_for p.identity.email middle).0 ≡ ok p.role
    pub viewer : ltb p.role role_viewer ≡ false
    pub store_kept : t.store ≡ s.store

  -- What a reply with status 202 means.
  pub record IsSubmission (r : Request) (s : State S W) (q : Reply) : Type 0 where
    pub principal : Principal
    pub at : State S W
    pub authenticated : IsAuthenticated r s principal at
    pub done : IsCreated r principal at q

  within :
      (r : Request) (s t : State S W) (p : Principal)
      → IsAuthenticated r s p t
      → (x : Reply × State S W) → Only (IsCreated r p t) x
      → Only (IsSubmission r s) x
  within r s t p a x only = record {
    accepted_means =
        λ k. record { principal = p; at = t; authenticated = a; done = only.accepted_means k };
  }

  health-status :
      (b : Bool) (payload : Payload)
      → is_accepted (if b then write_json 200 payload else method_not_allowed (bytes "GET")) ≡ false
  health-status true payload = json-status payload
  health-status false payload = refused-status _

  route-Only :
      {P : Reply → Type 0} (r : Request) (p : Option Principal) (s : State S W)
      → Only P (with_principal server r p s)
      → Only P (route server r p s)
  unfolding route
  route-Only r p s inner =
      Only-if (r.path == bytes "/healthz") _ _ (λ e. Only-other _ s (health-status (is_get r) _))
        λ _.
          Only-if (r.path == bytes "/readyz") _ _ (λ e. Only-other _ s (health-status (is_get r) _))
            λ _. inner

  admit-Only :
      (r : Request) (s : State S W) (identity : Identity) (middle : W)
      → (server.validate (assertion_of server r) s.world).0 ≡ ok identity
      → middle ≡ (server.validate (assertion_of server r) s.world).1
      → (q : Result String Role) (t : State S W) → (server.role_for identity.email middle).0 ≡ q
      → t.store ≡ s.store
      → Only (IsSubmission r s) (admit server r identity q t)
  admit-Only r s identity middle v m (err e) t h same = Only-problem 503 _ t refl
  admit-Only r s identity middle v m (ok role) t h same =
      Only-if (ltb role role_viewer) _ _ (λ e. Only-problem 403 _ t refl)
        λ viewer.
          let p : Principal = record { identity = identity; role = role } in
          let a : IsAuthenticated r s p t = record {
            validated = v;
            middle = middle;
            resolving = m;
            resolved = h;
            viewer = viewer;
            store_kept = same;
          } in
          route-Only r (some p) t (within r s t p a _ (handle-Only r p t (find_route r) refl))

  identified-Only :
      (r : Request) (s : State S W) (q : Result String Identity)
      → (server.validate (assertion_of server r) s.world).0 ≡ q
      → Only (IsSubmission r s) (
          identified server r q
            (record s { world = (server.validate (assertion_of server r) s.world).1 }))
  identified-Only r s (err e) v = Only-problem 401 _ _ refl
  identified-Only r s (ok identity) v = admit-Only r s identity _ v refl _ _ refl refl

  authenticate-Only :
      (r : Request) (s : State S W) → Only (IsSubmission r s) (authenticate server r s)
  unfolding authenticate
  authenticate-Only r s =
      Only-if (r.path == bytes "/healthz" || r.path == bytes "/readyz") _ _
        (λ e. route-Only r none s (Only-other panics s refl))
        λ _.
          Only-if (not (starts_with api_prefix r.path)) _ _ (λ e. Only-problem 404 _ s refl)
            λ _.
              Only-if (is_empty (assertion_of server r)) _ _ (λ e. Only-problem 401 _ s refl)
                λ _. identified-Only r s _ refl

  -- A reply with status 202 is given only to `POST /api/v1/operations`, with an assertion that the
  -- validator accepts, for an identity whose role is operator or above, on a request that passes the
  -- cross-site check, has JSON content and decodes to an intent; `Create`, called with that identity,
  -- role and intent on the store as it was, returned a receipt without an error, and the reply is this
  -- receipt.
  pub accepted-IsSubmission :
      (r : Request) (s : State S W)
      → is_accepted (serve server r s).0.1 ≡ true
      → IsSubmission r s (serve server r s).0.1
  unfolding serve
  accepted-IsSubmission r s h = (authenticate-Only r s).accepted_means h
