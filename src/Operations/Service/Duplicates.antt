-- ===== src/Operations/Service/Duplicates.antt =====
-- `operationBindingDigest` of internal/operations/service.go, and reservations.
use estate_ci.Prelude.{◌≡◌, ◌≢◌, sym, ◌∙◌, ap, inl, inr, Text, ok, ok-inj}
use estate_ci.Go.Time.{Time}
use estate_ci.Go.Strings.{to_lower}
use estate_ci.Contract.Crypto.{Crypto, digest_of}
use estate_ci.Contract.Models.{OperationIntent}
use estate_ci.Storage.Repository.{Reservation}
use estate_ci.Storage.Memory.{MemoryRepository, reserve_request}
use estate_ci.Storage.Memory.Steps.{Reach}
use estate_ci.Storage.Memory.SingleUse.{reservation_single_use}
use estate_ci.Operations.Documents.{binding_json, request_of}

-- The binding of a request does not depend on what identifies the request.
binding-request_of :
    (i : OperationIntent) (id expiry email email' nonce nonce' : Text)
    (now now' until until' : Time)
    → to_lower email ≡ to_lower email'
    → binding_json (request_of i email now until nonce)
      ≡ binding_json
          (request_of (record i { request_id = id; expires_at = expiry }) email' now' until' nonce')
unfolding binding_json request_of
binding-request_of i id expiry email email' nonce nonce' now now' until until' same =
    ap (λ by. binding_json (record (request_of i email now until nonce) { requested_by = by })) same

-- After an operation has been reserved, and whatever the store does afterwards, a reservation for
-- another intent that differs in its request ID and expiry only, of the same requester (up to the
-- case of the address), at any time and with any nonce, is refused and changes nothing.
pub same_operation_refused :
    {c : Crypto} (i : OperationIntent) (id expiry email email' nonce nonce' : Text)
    (now now' until until' : Time) (r r' : Reservation) (m n : MemoryRepository)
    → to_lower email ≡ to_lower email'
    → digest_of c (binding_json (request_of i email now until nonce)) ≡ ok r.binding_digest
    → digest_of c (
        binding_json (
          request_of (record i { request_id = id; expires_at = expiry }) email' now' until' nonce'))
      ≡ ok r'.binding_digest
    → (reserve_request r m).0 ≡ ok tt
    → Reach c (reserve_request r m).1 n
    → ((reserve_request r' n).0 ≢ ok tt) × ((reserve_request r' n).1 ≡ n)
same_operation_refused {c} i id expiry email email' nonce nonce' now now' until until' r r' m n same
      bound bound' reserved reach =
    let one = binding-request_of i id expiry email email' nonce nonce' now now' until until' same in
    reservation_single_use r r' m n reserved reach
      (inr (inl (ok-inj _ (sym bound') (ap (digest_of c) (sym one) ∙ bound))))
