-- ===== src/Github/Client.antt =====
-- `Client` of internal/githubapp/client.go: observations and mutations within the estate.
use Prim.Native.String.{String}
use estate_ci.Prelude.{
  ℕ, ◌*◌, Bool, false, ◌||◌, Option, none, some, List, [], ◌∷◌, ◌++◌, Text, bytes, Result, ok, err,
  ℤ, int_text, leb, nat_eq, length, take, if◌then◌else◌, ◌==◌, text_instance, strip_prefix,
}
use estate_ci.Go.Http.{HttpRequest, HttpResponse, Exchange}
use estate_ci.Contract.Json.{object, field, no_fields, text_field}
use estate_ci.Contract.Canonical.{write_canonical}
use estate_ci.Contract.Models.{
  OperationRequest, operation_refresh_health, operation_rerun_failed, operation_cancel_run,
}
use estate_ci.Contract.Patterns.{is_alnum, headed}
use estate_ci.Storage.Cloud.{or_nil}
use estate_ci.Storage.Cloud.Decoding.{Decoder, strict_json}

pub record WorkflowRun : Type 0 where
  pub id : ℤ
  pub workflow_id : ℤ
  pub head_sha : Text
  pub head_branch : Text
  pub status : Text
  pub conclusion : Text
  pub html_url : Text
  pub run_attempt : ℤ

pub record MainBranch : Type 0 where
  pub sha : Text
  pub protected : Bool

pub record Client (W : Type 0) : Type 0 where
  pub exchange : Exchange W
  pub api_base : Text
  -- `tokens.Token`
  pub token : W → Result String Text × W
  -- `http.NewRequestWithContext` takes the URL
  pub valid_url : Text → Bool
  -- `json.Decoder` on the three observations
  pub main_branch : Decoder MainBranch
  pub run : Decoder WorkflowRun
  pub runs : Decoder (List WorkflowRun)

-- A call of the provider.
abbrev pub Call : Type 0 → Type 0 → Type 0
Call W A = W → Result String A × W

-- The text before the first slash, if there is one.
unfoldable pub before_slash : Text → Option Text
before_slash [] = none
before_slash (c ∷ s) =
    if nat_eq c b'/'
    then some []
    else elim (before_slash s) [ none ↦ none | some part ↦ some (c ∷ part) ]

abbrev pub estate_segment : Option Text → Bool
estate_segment none = false
estate_segment (some part) =
    part == bytes ".github"
    || headed is_alnum (λ c. is_alnum c || nat_eq c b'.' || nat_eq c b'_' || nat_eq c b'-') 0 99
        part

abbrev pub estate_rest : Option Text → Bool
estate_rest none = false
estate_rest (some rest) = estate_segment (before_slash rest)

-- `^/repos/mindclade/(\.github|[a-z0-9][a-z0-9._-]{0,99})/`
unfoldable pub inside_estate : Text → Bool
unfolding before_slash headed is_alnum strip_prefix bytes
inside_estate path = estate_rest (strip_prefix (bytes "/repos/mindclade/") path)

abbrev pub content_headers : Option Text → List (Text × Text)
content_headers none = []
content_headers (some body) = (bytes "Content-Type", bytes "application/json") ∷ []

abbrev pub or_no_body : Option Text → Text
or_no_body none = []
or_no_body (some body) = body

unfoldable pub api_request : Text → Text → Text → Text → Option Text → HttpRequest
api_request api_base token method path body = record {
  method = method;
  url = api_base ++ path;
  headers =
      (bytes "Accept", bytes "application/vnd.github+json")
      ∷ (bytes "Authorization", bytes "Bearer " ++ token)
      ∷ (bytes "X-GitHub-Api-Version", bytes "2022-11-28")
      ∷ content_headers body;
  body = or_no_body body;
}

-- The path and the body of a mutation, `none` for an operation that has none.
unfoldable pub mutation : OperationRequest → Option (Text × Text)
mutation r =
    if r.operation == operation_rerun_failed
    then some (
      bytes "/repos/"
          ++ (r.repository
              ++ (bytes "/actions/runs/"
                  ++ (int_text r.workflow_run_id ++ bytes "/rerun-failed-jobs"))),
      bytes "{}",
    )
    else if r.operation == operation_cancel_run
    then some (
      bytes "/repos/"
          ++ (r.repository
              ++ (bytes "/actions/runs/" ++ (int_text r.workflow_run_id ++ bytes "/cancel"))),
      bytes "{}",
    )
    else if r.operation == operation_refresh_health
    then some (
      bytes "/repos/"
          ++ (r.repository
              ++ (bytes "/actions/workflows/" ++ (int_text r.workflow_id ++ bytes "/dispatches"))),
      or_nil (
          write_canonical (
            object (
              text_field "ref" r.protected_main_sha (
                field (bytes "inputs")
                  (object (
                    text_field "evidence_digest" r.evidence_digest
                      (text_field "source_revision" r.protected_main_sha no_fields)))
                  no_fields)))),
    )
    else none

-- The value of an observation: a response with status 200 and at most 256 KiB of JSON.
abbrev pub observed_body : {A : Type 0} → Decoder A → Option Text → Result String A
observed_body decoder none = err "GitHub observation response is invalid"
observed_body decoder (some body) = strict_json decoder (take (256 * 1024) body)

abbrev pub observed : {A : Type 0} → Decoder A → Result String HttpResponse → Result String A
observed decoder (err e) = err e
observed decoder (ok response) =
    if nat_eq response.status 200
    then observed_body decoder response.body
    else err "GitHub observation returned HTTP status"

abbrev pub status_of : Result String HttpResponse → Result String ℕ
status_of (err e) = err e
status_of (ok response) = ok response.status

abbrev pub bounded_runs : Result String (List WorkflowRun) → Result String (List WorkflowRun)
bounded_runs (err e) = err e
bounded_runs (ok runs) =
    if leb (length runs) 100
    then ok runs
    else err "GitHub workflow run observation exceeds its fixed bound"

module _ {W : Type 0} (client : Client W) where
  open client use {exchange, api_base, valid_url}

  abbrev pub with_token : Text → Text → Option Text → Result String Text → Call W HttpResponse
  with_token method path body (err e) w = (err "obtain GitHub App installation token", w)
  with_token method path body (ok token) w =
      if valid_url (api_base ++ path)
      then exchange (api_request api_base token method path body) w
      else (err "invalid URL", w)

  -- `do`: no path outside the estate gets as far as a token.
  unfoldable pub do_request : Text → Text → Option Text → Call W HttpResponse
  do_request method path body w =
      if inside_estate path
      then with_token method path body (client.token w).0 (client.token w).1
      else (err "GitHub API path is outside the estate repository boundary", w)

  unfoldable pub get : {A : Type 0} → Text → Decoder A → Call W A
  get path decoder w =
      let (response, w') = do_request (bytes "GET") path none w in (observed decoder response, w')

  unfoldable pub observe_main : Text → Call W MainBranch
  observe_main repository =
      get (bytes "/repos/" ++ (repository ++ bytes "/branches/main")) client.main_branch

  unfoldable pub observe_run : Text → ℤ → Call W WorkflowRun
  observe_run repository run_id =
      get (bytes "/repos/" ++ (repository ++ (bytes "/actions/runs/" ++ int_text run_id)))
        client.run

  unfoldable pub observe_workflow_runs : Text → ℤ → Text → Call W (List WorkflowRun)
  observe_workflow_runs repository workflow_id head_sha w =
      let path =
        bytes "/repos/"
        ++ (repository
            ++ (bytes "/actions/workflows/"
                ++ (int_text workflow_id
                    ++ (bytes "/runs?branch=main&event=workflow_dispatch&head_sha="
                        ++ (head_sha ++ bytes "&per_page=100"))))) in
      let (runs, w') = get path client.runs w in (bounded_runs runs, w')

  abbrev pub send : Option (Text × Text) → Call W ℕ
  send none w = (err "unsupported GitHub mutation", w)
  send (some (path, body)) w =
      let (response, w') = do_request (bytes "POST") path (some body) w in (status_of response, w')

  unfoldable pub mutate : OperationRequest → Call W ℕ
  mutate r = send (mutation r)
