-- ===== src/Github/RoundTrip.antt =====
-- Recovery tokens of internal/githubapp/client.go, from `Prepare` to `Dispatch` and `Recover`.
use estate_ci.Prelude.{
  ◌≤◌, ◌≡◌, refl, true, Text, ok, text_instance, int_instance, arith, All, leb, length, ok-inj,
}
use estate_ci.Go.Base64.{IsByte, encode, decode-encode}
use estate_ci.Contract.Canonical.{write_canonical}
use estate_ci.Contract.Models.{OperationRequest}
use estate_ci.Operations.Catalog.{RepositoryTarget}
use estate_ci.Storage.Cloud.Reads.{Decodes, strict_json-of}
use estate_ci.Github.Recovery.{
  RecoveryState, recovery_json, encode_recovery_state, decode_recovery_state, binds,
}
use estate_ci.Github.Broker.{Broker}

-- A state that binds a request is decoded again from its token, if its canonical JSON has at most
-- 3072 bytes and the JSON decoder reads it back.
recovery_token_read_back :
    {W : Type 0} (broker : Broker W) (s : RecoveryState) (target : RepositoryTarget)
    (r : OperationRequest) (token payload : Text)
    → encode_recovery_state s ≡ ok token
    → write_canonical (recovery_json s) ≡ ok payload
    → All IsByte payload
    → length payload ≤ 3072
    → Decodes broker.state recovery_json s
    → binds s target r ≡ true
    → decode_recovery_state broker.state token target r ≡ ok s
unfolding encode_recovery_state decode_recovery_state
recovery_token_read_back broker s target r token payload encoded written are_bytes short decodes
      bound =
    let same : encode payload ≡ token = ok-inj _ refl (rw written at encoded) in
    let read = strict_json-of broker.state payload s (decodes payload written) in
    let fits : leb (length payload) 3072 ≡ true = ground arith in
    rw (← same) (rw (decode-encode payload are_bytes, fits, read, bound) refl)
