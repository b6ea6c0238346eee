-- ===== src/Contract/Evidence.antt =====
-- `WorkflowEvidence` of internal/contract/models.go: the approval that an operation rests on.
use Prim.Native.String.{String}
use estate_ci.Prelude.{
  ◌+◌, ◌-◌, ◌*◌, Bool, true, false, not, ◌&&◌, ◌||◌, Option, none, some, List, [], ◌∷◌, map, Text,
  bytes, text_lt, Result, ok, ◌>>=◌, ◌>>◌, guard, is_ok, is_empty, ◌==◌, text_instance, ltb, leb,
  nat_eq, is_neg, is_positive, if◌then◌else◌, length, is_some, on_error,
}
use estate_ci.Go.Time.{Time, zero_time, second, day, parse_time}
use estate_ci.Go.Strings.{to_lower}
use estate_ci.Contract.Json.{
  Json, object, array, boolean, field, no_fields, text_field, int_field, texts,
}
use estate_ci.Contract.Models.{WorkflowEvidence, ApprovalEvidence, allowed_operation}
use estate_ci.Contract.Patterns.{
  is_request_id, is_repository, is_sha, is_digest, is_email, validate_reason,
}
use estate_ci.Contract.Crypto.{Crypto, digest_of}

abbrev pub evidence_schema_version : Text
evidence_schema_version = bytes "estate.evidence/v2"

abbrev pub success : Text
success = bytes "success"

abbrev pub approved : Text
approved = bytes "approved"

-- The approval is at most a day before the observation and 30 seconds after it.
abbrev pub approved_near : Option Time → Option Time → Bool
approved_near none observed = false
approved_near (some a) none = false
approved_near (some a) (some o) = leb (o - day) a && leb a (o + 30 * second)

-- `err != nil || !expiresAt.After(observedAt) || …` is false.
abbrev pub unexpired : Time → Option Time → Option Time → Bool
unexpired now none expires = false
unexpired now (some o) none = false
unexpired now (some o) (some e) =
    ltb o e && leb e (o + day) && (nat_eq now zero_time || leb o (now + 30 * second) && ltb now e)

-- The loop over the approvers: valid, unique and sorted.
unfoldable pub sorted_approvers : Text → List Text → Bool
sorted_approvers previous [] = true
sorted_approvers previous (a ∷ rest) = is_email a && text_lt previous a && sorted_approvers a rest

unfoldable pub validate_evidence_fields : Time → WorkflowEvidence → Result String (Unit {0})
validate_evidence_fields now e = do
  guard (e.schema_version == evidence_schema_version && is_repository e.repository)
      "evidence identity is invalid"
  guard (is_positive e.workflow_id && not (is_neg e.workflow_run_id))
      "workflow identifiers are invalid"
  guard (is_sha e.protected_main_sha && is_digest e.plan_digest) "evidence bindings are invalid"
  guard (e.conclusion == success && e.approval.decision == approved)
      "evidence is not approved and successful"
  guard
      (is_request_id e.approval.approval_id
        && allowed_operation e.approval.operation
        && is_email e.approval.requested_by
        && is_ok (validate_reason e.approval.reason))
      "approval does not bind an exact operation, requester, and reason"
  let approved_at = parse_time e.approval.approved_at
  guard (is_some approved_at) "approval approved_at must be RFC3339"
  let observed_at = parse_time e.observed_at
  guard (approved_near approved_at observed_at) "evidence timestamps are invalid"
  guard (unexpired now observed_at (parse_time e.expires_at))
      "evidence is expired or expires_at is invalid"
  guard (leb 1 (length e.approval.approvers) && leb (length e.approval.approvers) 10)
      "evidence requires a bounded approval set"
  guard (is_empty e.digest || is_digest e.digest) "evidence digest is invalid"
  guard (sorted_approvers [] e.approval.approvers) "approvers must be valid, unique, and sorted"

approval_json : ApprovalEvidence → Json
approval_json a = object (
    text_field "approval_id" a.approval_id (
      text_field "operation" a.operation (
        text_field "requested_by" a.requested_by (
          text_field "reason" a.reason (
            field (bytes "approvers") (array (texts a.approvers)) (
              text_field "approved_at" a.approved_at
                (text_field "decision" a.decision no_fields)))))))

unfoldable pub evidence_json : WorkflowEvidence → Json
unfolding approval_json
evidence_json e = object (
    text_field "schema_version" e.schema_version (
      text_field "repository" e.repository (
        int_field "workflow_id" e.workflow_id (
          int_field "workflow_run_id" e.workflow_run_id (
            text_field "protected_main_sha" e.protected_main_sha (
              text_field "plan_digest" e.plan_digest (
                text_field "conclusion" e.conclusion (
                  field (bytes "superseded") (boolean e.superseded) (
                    field (bytes "approval") (approval_json e.approval) (
                      text_field "observed_at" e.observed_at (
                        text_field "expires_at" e.expires_at
                          (text_field "digest" e.digest no_fields))))))))))))

abbrev pub evidence_material : WorkflowEvidence → Json
evidence_material e = evidence_json (record e { digest = [] })

unfoldable pub verify_evidence : Crypto → Time → WorkflowEvidence → Result String (Unit {0})
verify_evidence c now e = do
  guard (is_ok (validate_evidence_fields now e) && not (is_empty e.digest))
      "evidence is invalid or unsealed"
  got ←
      on_error "evidence digest does not bind its canonical content"
        (digest_of c (evidence_material e))
  guard (e.digest == got) "evidence digest does not bind its canonical content"

-- `sort.Strings`.
unfoldable pub insert_text : Text → List Text → List Text
insert_text t [] = t ∷ []
insert_text t (u ∷ us) = if text_lt u t then u ∷ insert_text t us else t ∷ u ∷ us

unfoldable pub sort_texts : List Text → List Text
sort_texts [] = []
sort_texts (t ∷ ts) = insert_text t (sort_texts ts)

abbrev normal_evidence : WorkflowEvidence → WorkflowEvidence
normal_evidence e =
    let a = e.approval in
    record e {
      schema_version =
          if is_empty e.schema_version then evidence_schema_version else e.schema_version;
      approval = record a {
        approvers = sort_texts (map to_lower a.approvers);
        requested_by = to_lower a.requested_by;
      };
    }

unfoldable pub seal_evidence : Crypto → WorkflowEvidence → Result String WorkflowEvidence
seal_evidence c draft = do
  let e = normal_evidence draft
  validate_evidence_fields zero_time e
  digest ← digest_of c (evidence_material e)
  ok (record e { digest = digest })
