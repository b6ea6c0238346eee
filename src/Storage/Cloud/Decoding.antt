-- ===== src/Storage/Cloud/Decoding.antt =====
-- `strictJSON` of internal/storage/gcs.go.
use Prim.Native.String.{String}
use estate_ci.Prelude.{
  Bool, ◌||◌, Option, Text, Result, ok, err, ◌>>=◌, ◌>>◌, guard, require, all, nat_eq,
}
use estate_ci.Contract.Models.{
  WorkflowEvidence, OperationRequest, OperationDispatch, OperationDispatchResult, OperationReceipt,
}
use estate_ci.Contract.Snapshot.{EstateHealthSnapshot}

-- What `json.Decoder`, with `DisallowUnknownFields`, makes of a text: the first value in it, and
-- the text behind that value.
abbrev pub Decoder : Type 0 → Type 0
Decoder A = Text → Option (A × Text)

pub record Decoders : Type 0 where
  pub snapshot : Decoder EstateHealthSnapshot
  pub evidence : Decoder WorkflowEvidence
  pub request : Decoder OperationRequest
  pub dispatch : Decoder OperationDispatch
  pub result : Decoder OperationDispatchResult
  pub receipt : Decoder OperationReceipt

-- Nothing but white space is left, so that the next `Decode` returns `io.EOF`.
unfoldable pub at_eof : Text → Bool
unfolding all
at_eof rest = all (λ c. nat_eq c 32 || nat_eq c 9 || nat_eq c 10 || nat_eq c 13) rest

unfoldable pub strict_json : {A : Type 0} → Decoder A → Text → Result String A
unfolding at_eof
strict_json decoder raw = do
  decoded ← require (decoder raw) "invalid JSON"
  guard (at_eof decoded.1) "JSON contains trailing data"
  ok decoded.0

-- `if err := strictJSON(…); err != nil || value.VerifyDigest() != nil { return e }`
abbrev pub checked :
    {E A : Type 0} → E → (A → Result String (Unit {0})) → Result String A → Result E A
checked e verify (err d) = err e
checked e verify (ok value) = elim (verify value) [ ok u ↦ ok value | err d ↦ err e ]
