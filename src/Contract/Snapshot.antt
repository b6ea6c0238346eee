-- ===== src/Contract/Snapshot.antt =====
-- `EstateHealthSnapshot` of internal/contract/models.go.
pub mod Counts
use Prim.Native.String.{String}
use estate_ci.Prelude.{
  ℕ, ◌+◌, ◌%◌, ◌^◌, Bool, false, not, ◌&&◌, ◌||◌, Option, none, some, List, [], ◌∷◌, Text, bytes,
  text_lt, Result, ok, err, ◌>>=◌, ◌>>◌, guard, is_ok, is_empty, ◌==◌, text_instance, int_instance,
  ℤ, pos, leb, nat_eq, is_neg, int_lt, if◌then◌else◌, length, is_some, on_error, contains_any,
}
use estate_ci.Go.Time.{parse_time}
use estate_ci.Go.Strings.{trim_space}
use estate_ci.Contract.Json.{
  Json, Items, object, array, field, no_fields, no_items, item, text_field, int_field,
}
use estate_ci.Contract.Patterns.{is_request_id, is_repository, is_sha, is_digest, line_breaks}
use estate_ci.Contract.Crypto.{Crypto, digest_of}

abbrev pub health_schema_version : Text
health_schema_version = bytes "estate.health/v1"

pub record RepositoryHealth : Type 0 where
  pub repository : Text
  pub profile : Text
  pub head_sha : Text
  pub last_green_sha : Text
  pub required_check_status : Text
  pub queue_seconds : ℤ
  pub execution_seconds : ℤ
  pub failure_class : Text
  pub cache_hit_basis_points : ℤ
  pub evidence_digest : Text
  pub observed_at : Text

pub record HealthSummary : Type 0 where
  pub healthy : ℤ
  pub degraded : ℤ
  pub blocked : ℤ
  pub unknown : ℤ

pub record EstateHealthSnapshot : Type 0 where
  pub schema_version : Text
  pub snapshot_id : Text
  pub observed_at : Text
  pub protected_main_sha : Text
  pub summary : HealthSummary
  pub repositories : List RepositoryHealth
  pub digest : Text

-- `actualSummary`: how many repositories have each status.
pub record Tally : Type 0 where
  pub healthy : ℕ
  pub degraded : ℕ
  pub blocked : ℕ
  pub unknown : ℕ

abbrev pub no_tally : Tally
no_tally = record { healthy = 0; degraded = 0; blocked = 0; unknown = 0 }

-- The `switch` over the status.
unfoldable pub count_status : Text → Tally → Option Tally
count_status status t =
    if status == bytes "success"
    then some (record t { healthy = t.healthy + 1 })
    else if status == bytes "failure"
    then some (record t { degraded = t.degraded + 1 })
    else if status == bytes "blocked"
    then some (record t { blocked = t.blocked + 1 })
    else if status == bytes "unknown"
    then some (record t { unknown = t.unknown + 1 })
    else none

-- The profile and the failure class.
unfoldable pub valid_word : Text → Bool
valid_word s =
    trim_space s == s && leb 1 (length s) && leb (length s) 64 && not (contains_any line_breaks s)

abbrev pub counted : Option Tally → Result String Tally
counted none = err "repository required_check_status is invalid"
counted (some t) = ok t

-- One round of the loop over the repositories.
unfoldable pub validate_repository : Text → Tally → RepositoryHealth → Result String Tally
validate_repository previous t r = do
  guard (is_repository r.repository && text_lt previous r.repository)
      "repositories must be unique, valid, and sorted"
  guard (is_sha r.head_sha && is_sha r.last_green_sha)
      "repository health SHAs must be lowercase commit SHAs"
  guard (is_digest r.evidence_digest) "repository evidence_digest is invalid"
  guard (valid_word r.profile) "repository profile is invalid"
  guard (valid_word r.failure_class) "repository failure_class is invalid"
  guard (is_some (parse_time r.observed_at)) "repository observed_at must be RFC3339"
  t' ← counted (count_status r.required_check_status t)
  guard
      (not (is_neg r.queue_seconds)
        && not (is_neg r.execution_seconds)
        && not (is_neg r.cache_hit_basis_points)
        && not (int_lt (pos 10000) r.cache_hit_basis_points))
      "repository metrics are outside their bounds"
  ok t'

unfoldable pub validate_repositories : Text → Tally → List RepositoryHealth → Result String Tally
validate_repositories previous t [] = ok t
validate_repositories previous t (r ∷ rs) = do
  t' ← validate_repository previous t r
  validate_repositories r.repository t' rs

-- The sum of the summary is an int64, which wraps; its parts are not negative here.
abbrev wraps_to : ℤ → ℤ → ℤ → ℤ → ℕ → Bool
wraps_to (pos a) (pos b) (pos c) (pos d) n = nat_eq ((a + b + c + d) % 2 ^ 64) n
wraps_to a b c d n = false

abbrev pub sums_to : HealthSummary → ℕ → Bool
sums_to s n = wraps_to s.healthy s.degraded s.blocked s.unknown n

abbrev pub summary_is : Tally → HealthSummary → Bool
summary_is t s =
    pos t.healthy == s.healthy
    && pos t.degraded == s.degraded
    && pos t.blocked == s.blocked
    && pos t.unknown == s.unknown

unfoldable pub validate_snapshot : EstateHealthSnapshot → Result String (Unit {0})
validate_snapshot s = do
  guard (s.schema_version == health_schema_version) "unsupported health schema_version"
  guard (is_request_id s.snapshot_id) "snapshot_id must be a UUIDv4"
  guard (is_sha s.protected_main_sha) "protected_main_sha must be a lowercase commit SHA"
  guard (is_some (parse_time s.observed_at)) "observed_at must be RFC3339"
  guard (leb 1 (length s.repositories) && leb (length s.repositories) 100)
      "repositories must contain 1 to 100 entries"
  guard (sums_to s.summary (length s.repositories))
      "health summary must account for every repository"
  guard (is_empty s.digest || is_digest s.digest) "snapshot digest is invalid"
  t ← validate_repositories [] no_tally s.repositories
  guard (summary_is t s.summary) "health summary does not match repository statuses"

repository_json : RepositoryHealth → Json
repository_json r = object (
    text_field "repository" r.repository (
      text_field "profile" r.profile (
        text_field "head_sha" r.head_sha (
          text_field "last_green_sha" r.last_green_sha (
            text_field "required_check_status" r.required_check_status (
              int_field "queue_seconds" r.queue_seconds (
                int_field "execution_seconds" r.execution_seconds (
                  text_field "failure_class" r.failure_class (
                    int_field "cache_hit_basis_points" r.cache_hit_basis_points (
                      text_field "evidence_digest" r.evidence_digest
                        (text_field "observed_at" r.observed_at no_fields)))))))))))

repositories_json : List RepositoryHealth → Items
repositories_json [] = no_items
repositories_json (r ∷ rs) = item (repository_json r) (repositories_json rs)

summary_json : HealthSummary → Json
summary_json s = object (
    int_field "healthy" s.healthy (
      int_field "degraded" s.degraded
        (int_field "blocked" s.blocked (int_field "unknown" s.unknown no_fields))))

unfoldable pub snapshot_json : EstateHealthSnapshot → Json
unfolding repository_json repositories_json summary_json
snapshot_json s = object (
    text_field "schema_version" s.schema_version (
      text_field "snapshot_id" s.snapshot_id (
        text_field "observed_at" s.observed_at (
          text_field "protected_main_sha" s.protected_main_sha (
            field (bytes "summary") (summary_json s.summary) (
              field (bytes "repositories") (array (repositories_json s.repositories))
                (text_field "digest" s.digest no_fields)))))))

abbrev pub snapshot_material : EstateHealthSnapshot → Json
snapshot_material s = snapshot_json (record s { digest = [] })

unfoldable pub verify_snapshot : Crypto → EstateHealthSnapshot → Result String (Unit {0})
verify_snapshot c s = do
  guard (is_ok (validate_snapshot s) && not (is_empty s.digest)) "snapshot is invalid or unsealed"
  got ←
      on_error "snapshot digest does not bind its canonical content"
        (digest_of c (snapshot_material s))
  guard (s.digest == got) "snapshot digest does not bind its canonical content"

-- `sort.Slice` by the repository's name.
unfoldable pub insert_repository : RepositoryHealth → List RepositoryHealth → List RepositoryHealth
insert_repository r [] = r ∷ []
insert_repository r (q ∷ qs) =
    if text_lt q.repository r.repository then q ∷ insert_repository r qs else r ∷ q ∷ qs

unfoldable pub sort_repositories : List RepositoryHealth → List RepositoryHealth
sort_repositories [] = []
sort_repositories (r ∷ rs) = insert_repository r (sort_repositories rs)

unfoldable pub seal_snapshot : Crypto → EstateHealthSnapshot → Result String EstateHealthSnapshot
seal_snapshot c draft = do
  let s = record draft {
    schema_version =
        if is_empty draft.schema_version then health_schema_version else draft.schema_version;
    repositories = sort_repositories draft.repositories;
  }
  validate_snapshot s
  digest ← digest_of c (snapshot_material s)
  ok (record s { digest = digest })
