-- ===== src/Auth/Membership.antt =====
-- `CloudIdentityChecker` of internal/auth/roles.go: membership of a group, asked of Cloud Identity.
use Prim.Native.String.{String}
use estate_ci.Prelude.{
  Bool, Option, none, some, [], ◌++◌, Text, bytes, Result, ok, err, take, nat_eq, if◌then◌else◌,
}
use estate_ci.Go.Http.{HttpRequest, HttpResponse, Exchange}
use estate_ci.Go.Url.{query_escape}
use estate_ci.Contract.Patterns.{is_email}
use estate_ci.Storage.Cloud.Decoding.{Decoder, strict_json}

pub record CloudIdentityChecker (W : Type 0) : Type 0 where
  pub exchange : Exchange W
  pub base_url : Text
  -- `http.NewRequestWithContext` takes the URL
  pub valid_url : Text → Bool
  -- `json.Decoder` on the field `hasMembership`
  pub membership : Decoder Bool

unfoldable pub membership_request : Text → Text → Text → HttpRequest
membership_request base_url group email = record {
  method = bytes "GET";
  url =
      base_url
      ++ (bytes "/v1/"
          ++ (group
              ++ (bytes "/memberships:checkTransitiveMembership?query="
                  ++ query_escape (bytes "member_key_id == '" ++ (email ++ bytes "'")))));
  headers = [];
  body = [];
}

abbrev membership_body : Decoder Bool → Option Text → Result String Bool
membership_body decoder none = err "Cloud Identity response is invalid"
membership_body decoder (some body) = strict_json decoder (take 32768 body)

unfoldable pub read_membership : Decoder Bool → Result String HttpResponse → Result String Bool
read_membership decoder (err e) = err e
read_membership decoder (ok response) =
    if nat_eq response.status 200
    then membership_body decoder response.body
    else err "Cloud Identity returned HTTP status"

module _ {W : Type 0} (checker : CloudIdentityChecker W) where
  unfoldable pub has_transitive_membership : Text → Text → W → Result String Bool × W
  has_transitive_membership group email w =
      let request = membership_request checker.base_url group email in
      if is_email email
      then (if checker.valid_url request.url
          then (
            read_membership checker.membership (checker.exchange request w).0,
            (checker.exchange request w).1,
          )
          else (err "invalid URL", w))
      else (err "Cloud Identity membership email is invalid", w)
