-- ===== src/Operations/Service/Approved.antt =====
-- The checks of `Create` in internal/operations/service.go.
use Prim.Native.String.{String}
use estate_ci.Prelude.{
  ◌+◌, ◌*◌, ◌<◌, ◌≤◌, Option, none, some, require, ltb, ok-inj, sym, ap, ◌∙◌, ℕ, ◌≡◌, refl, true,
  ◌&&◌, Text, Result, ok, err, leb, ◌==◌, text_instance, arith, ◌⊎◌, inl, inr,
}
use estate_ci.Go.Time.{Time, minute, truncate_second, parse_time}
use estate_ci.Auth.Identity.{Identity}
use estate_ci.Auth.Roles.{Role, role_operator, role_admin}
use estate_ci.Contract.Models.{
  OperationIntent, OperationRequest, OperationReceipt, WorkflowEvidence, allowed_operation,
}
use estate_ci.Contract.Patterns.{is_request_id}
use estate_ci.Storage.Repository.{StorageError, not_found}
use estate_ci.Operations.Catalog.{RepositoryTarget, CatalogError, authorize}
use estate_ci.Operations.Environment.{Service}
use estate_ci.Operations.Evidence.{validate_evidence}
use estate_ci.Operations.Evidence.Approval.{IsApproved, validated-IsApproved}
use estate_ci.Operations.Exec.{
  denied, invalid, replay, internal, raise, State, attempt, sense, pure,
}
use estate_ci.Operations.Exec.Keeps.{Keeps, keeps_rules}
use estate_ci.Operations.Exec.Inversion.{bind-ok, check-ok, lift-ok}
use estate_ci.Operations.Documents.{request_matches_intent}
use estate_ci.Operations.Outbox.{trusted_request}
use estate_ci.Operations.Service.{
  create, authorized, create_or_resume, create_new, intent_schema_version, intent_expiry,
}

module _ {S W : Type 0} (service : Service S W) where
  open service use {repository, environment}

  -- The instant of a call on the state `s`, in whole seconds.
  abbrev pub called_at : State S W → Time
  called_at s = truncate_second (environment.now s.world).0

  -- The store of `s` has the request, signed by the service itself and for the same intent and
  -- requester.
  pub record IsKnown (email : Text) (i : OperationIntent) (s : State S W) : Type 0 where
    pub request : OperationRequest
    pub stored : (repository.get_request i.request_id s.store).0 ≡ ok request
    pub trusted : trusted_request service request ≡ true
    pub matches : request_matches_intent request i email ≡ true

  -- The store of `s` reports no such request and, as that read leaves it, has the evidence that the
  -- intent names, which somebody else has approved; the intent expires in the ten minutes from the
  -- call on.
  pub record HasApproval (email : Text) (i : OperationIntent) (s : State S W) : Type 0 where
    pub new : (repository.get_request i.request_id s.store).0 ≡ err not_found
    pub evidence : WorkflowEvidence
    pub stored :
        (repository.get_evidence i.evidence_digest
          (repository.get_request i.request_id s.store).1).0
        ≡ ok evidence
    pub approved : IsApproved service (called_at s) email i evidence
    pub expires : Time
    pub expiry : parse_time i.expires_at ≡ some expires
    pub after : called_at s < expires
    pub until : expires ≤ called_at s + 10 * minute

  pub record IsPermitted (identity : Identity) (role : Role) (i : OperationIntent) (s : State S W)
      : Type 0 where
    pub operator : leb role_operator role ≡ true
    pub admin : leb role role_admin ≡ true
    pub allowed : allowed_operation i.operation ≡ true
    pub target : RepositoryTarget
    pub authorized : authorize service.catalog i ≡ ok target
    pub backed : IsKnown identity.email i s ⊎ HasApproval identity.email i s

  require-ok : (o : Option Time) (e : String) (t : Time) → require o e ≡ ok t → o ≡ some t
  require-ok none e t h = cc
  require-ok (some u) e t h = cc

  -- The expiry that `intent_expiry` lets through.
  expiry-ok :
      (now : Time) (i : OperationIntent) (s : State S W) (t : Time)
      → (intent_expiry service now i s).0 ≡ ok t
      → (parse_time i.expires_at ≡ some t) × (now < t) × (t ≤ now + 10 * minute)
  unfolding intent_expiry pure
  expiry-ok now i s t h =
      let (u, parsed, h1) =
        lift-ok {E = String} invalid (require (parse_time i.expires_at) "expiry is invalid") _ s t
          h in
      let (inside, h2) = check-ok (ltb now u && leb u (now + 10 * minute)) invalid _ s t h1 in
      let same : u ≡ t = ok-inj _ refl h2 in
      (
        require-ok _ _ u parsed ∙ ap some same,
        ground (arith, inside, same),
        ground (arith, inside, same),
      )

  expiry-Keeps :
      {P : State S W → Type 0} (now : Time) (i : OperationIntent)
      → Keeps P (intent_expiry service now i)
  unfolding intent_expiry
  expiry-Keeps now i = search keeps_rules depth 8

  new-HasApproval :
      (fuel : ℕ) (t : RepositoryTarget) (identity : Identity) (i : OperationIntent) (s : State S W)
      (receipt : OperationReceipt)
      → (repository.get_request i.request_id s.store).0 ≡ err not_found
      → (create_new service fuel t identity i
          (record s { store = (repository.get_request i.request_id s.store).1 })).0
        ≡ ok receipt
      → HasApproval identity.email i s
  unfolding create_new sense attempt
  new-HasApproval fuel t identity i s receipt new h =
      let s1 = record s { store = (repository.get_request i.request_id s.store).1 } in
      let (clock, read, h1) = bind-ok (sense environment.now) _ s1 receipt h in
      let s2 = record s1 { world = (environment.now s.world).1 } in
      let (expires, expiring, h2) =
        bind-ok (intent_expiry service (truncate_second clock) i) _ s2 receipt h1 in
      let (parsed, after, until) = expiry-ok (truncate_second clock) i s2 expires expiring in
      let kept : (intent_expiry service (truncate_second clock) i s2).1 ≡ s2 =
        (expiry-Keeps {P = λ u. u ≡ s2} (truncate_second clock) i).at s2 refl in
      let (found, got, h3) =
        bind-ok (attempt (repository.get_evidence i.evidence_digest)) _ _ receipt h2 in
      let (evidence, e, h4) = lift-ok invalid found _ _ receipt h3 in
      let (u, valid, h5) =
        bind-ok (validate_evidence service (truncate_second clock) identity.email i evidence) _ _
          receipt h4 in
      let time : (environment.now s.world).0 ≡ clock = ok-inj _ refl read in
      record {
        new = new;
        evidence = evidence;
        stored =
            ap (λ u. (repository.get_evidence i.evidence_digest u.store).0) (sym kept)
            ∙ ok-inj _ refl got
            ∙ e;
        approved = rw time (
            validated-IsApproved service (truncate_second clock) identity.email i evidence _ valid);
        expires = expires;
        expiry = parsed;
        after = rw time after;
        until = rw time until;
      }

  backed :
      (fuel : ℕ) (t : RepositoryTarget) (identity : Identity) (i : OperationIntent)
      (q : Result StorageError OperationRequest) (s : State S W) (receipt : OperationReceipt)
      → (repository.get_request i.request_id s.store).0 ≡ q
      → (create_or_resume service fuel t identity i q
          (record s { store = (repository.get_request i.request_id s.store).1 })).0
        ≡ ok receipt
      → IsKnown identity.email i s ⊎ HasApproval identity.email i s
  unfolding create_or_resume raise
  backed fuel t identity i (ok r) s receipt stored h =
      let (trusted, h1) =
        check-ok (trusted_request service r) (internal "verify existing operation request") _ _
          receipt h in
      let (matches, h2) =
        check-ok (request_matches_intent r i identity.email) replay _ _ receipt h1 in
      inl (record { request = r; stored = stored; trusted = trusted; matches = matches })
  backed fuel t identity i (err not_found) s receipt new h =
      inr (new-HasApproval fuel t identity i s receipt new h)
  backed fuel t identity i (err e) s receipt new h = cc

  -- The catalog's answer.
  targeted :
      (fuel : ℕ) (identity : Identity) (i : OperationIntent)
      (q : Result CatalogError RepositoryTarget) (s : State S W) (receipt : OperationReceipt)
      → (authorized service fuel identity i q s).0 ≡ ok receipt
      → (t : RepositoryTarget) × (q ≡ ok t)
        × (IsKnown identity.email i s ⊎ HasApproval identity.email i s)
  unfolding raise attempt
  targeted fuel identity i (err e) s receipt h = cc
  targeted fuel identity i (ok t) s receipt h =
      let (found, got, h1) =
        bind-ok (attempt (repository.get_request i.request_id)) _ s receipt h in
      (t, refl, backed fuel t identity i found s receipt (ok-inj _ refl got) h1)

  -- When `Create`, called on the state `s`, returns a receipt without an error, the caller's role is
  -- from operator to administrator, the operation is one of the three, the catalog authorizes it, and
  -- one of two holds. Either the store of `s` has a request with the ID of the intent, signed by the
  -- service's key and equal to the intent. Or it reports none and, as that read leaves it, has the
  -- evidence that the intent names, which was valid at the second that the clock showed in `s` and has
  -- been approved by somebody else than the caller, and the intent expires in the ten minutes from
  -- that second on.
  pub create-IsPermitted :
      (fuel : ℕ) (identity : Identity) (role : Role) (i : OperationIntent) (s : State S W)
      (receipt : OperationReceipt)
      → (create service fuel identity role i s).0 ≡ ok receipt
      → IsPermitted identity role i s
  unfolding create
  create-IsPermitted fuel identity role i s receipt h =
      let (ranked, h1) =
        check-ok (leb role_operator role && leb role role_admin) denied _ s receipt h in
      let formed =
        i.schema_version == intent_schema_version
        && is_request_id i.request_id
        && allowed_operation i.operation in
      let (valid, h2) = check-ok formed invalid _ s receipt h1 in
      let (t, e, proof) = targeted fuel identity i (authorize service.catalog i) s receipt h2 in
      record {
        operator = ground (arith, ranked);
        admin = ground (arith, ranked);
        allowed = ground (arith, valid);
        target = t;
        authorized = e;
        backed = proof;
      }
