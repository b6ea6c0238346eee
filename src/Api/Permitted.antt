-- ===== src/Api/Permitted.antt =====
-- `createOperation` of internal/api/server.go with `Create` of internal/operations/service.go.
use estate_ci.Prelude.{◌≡◌, true}
use estate_ci.Contract.DispatchResult.{accepted}
use estate_ci.Operations.Exec.{State}
use estate_ci.Operations.Service.Accepted.{create_accepted}
use estate_ci.Operations.Service.Approved.{IsPermitted, create-IsPermitted}
use estate_ci.Api.Http.{Request}
use estate_ci.Api.Server.{Server, serve}
use estate_ci.Api.Accepting.{is_accepted}
use estate_ci.Api.Operator.{IsSubmission, accepted-IsSubmission}

module _ {S W : Type 0} (server : Server S W) where
  -- What is submitted over HTTP is permitted.
  pub record IsPermittedSubmission (r : Request) (s : State S W) : Type 0 where
    pub submission : IsSubmission server r s (serve server r s).0.1
    pub permitted :
        IsPermitted server.operations submission.principal.identity submission.principal.role
          submission.done.intent submission.at
    pub status : submission.done.receipt.status ≡ accepted
    pub found : submission.at.store ≡ s.store

  -- A reply with status 202 carries a receipt whose own status is accepted, of an operation in the
  -- catalog of the service, for a caller with a role from operator to admin. The store that the
  -- request found had already a request with the ID of the submitted intent, signed by the service and
  -- equal to the intent; or it reported none, and had the evidence that the intent names, valid at
  -- the second that the clock showed and approved by somebody else than the caller.
  pub accepted-IsPermitted :
      (r : Request) (s : State S W)
      → is_accepted (serve server r s).0.1 ≡ true
      → IsPermittedSubmission r s
  accepted-IsPermitted r s h =
      let sub = accepted-IsSubmission server r s h in
      record {
        submission = sub;
        permitted =
            create-IsPermitted server.operations 2 sub.principal.identity sub.principal.role
              sub.done.intent sub.at sub.done.receipt sub.done.created;
        status =
            create_accepted server.operations 2 sub.principal.identity sub.principal.role
              sub.done.intent sub.at sub.done.receipt sub.done.created;
        found = sub.authenticated.store_kept;
      }
