-- ===== src/Operations/Service/Sealed.antt =====
-- The request IDs of the sealed documents that internal/operations/service.go makes.
use estate_ci.Prelude.{◌≡◌, ok, ap, Text}
use estate_ci.Go.Time.{Time}
use estate_ci.Contract.Models.{OperationRequest, OperationDispatch, OperationDispatchResult}
use estate_ci.Contract.Crypto.{Crypto, Signer}
use estate_ci.Contract.Document.Sealing.{seal-eq-with_seal}
use estate_ci.Contract.Dispatch.{dispatch_document, seal_dispatch}
use estate_ci.Contract.DispatchResult.{result_document, seal_result}
use estate_ci.Operations.Environment.{DispatchOutcome}
use estate_ci.Operations.Documents.{dispatch_of, result_of}

module _ (c : Crypto) (signer : Signer) where
  pub request_id-dispatch :
      (r : OperationRequest) (receipt_id token : Text) (now : Time) (d : OperationDispatch)
      → seal_dispatch c signer (dispatch_of r receipt_id token now) ≡ ok d
      → d.request_id ≡ r.request_id
  unfolding seal_dispatch dispatch_of
  request_id-dispatch r receipt_id token now d h =
      let (g, v, e) =
        seal-eq-with_seal dispatch_document c signer (dispatch_of r receipt_id token now) d h in
      ap (λ (x : OperationDispatch). x.request_id) e

  pub request_id-result :
      (r : OperationRequest) (d : OperationDispatch) (o : DispatchOutcome) (now : Time)
      (q : OperationDispatchResult)
      → seal_result c signer (result_of r d o now) ≡ ok q
      → q.request_id ≡ r.request_id
  unfolding seal_result result_of
  request_id-result r d o now q h =
      let (g, v, e) = seal-eq-with_seal result_document c signer (result_of r d o now) q h in
      ap (λ (x : OperationDispatchResult). x.request_id) e
