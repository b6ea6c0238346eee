-- ===== src/Contract/Snapshot/Counts.antt =====
-- The summary and the order of a snapshot: `Validate` in internal/contract/models.go.
use estate_ci.Prelude.{
  ℕ, ◌+◌, ◌≡◌, refl, sym, ap, ◌∙◌, Bool, true, false, not, ◌&&◌, ◌||◌, Option, none, some, List, [],
  ◌∷◌, Text, bytes, text_eq, text_eq_iff, text_lt, ok, guard, guard-ok, ok-inj, >>=-eq-ok, >>-eq-ok,
  ◌==◌, text_instance, int_instance, int_eq_iff, pos, leb, length, is_some, is_empty, is_neg,
  int_lt, if◌then◌else◌, arith, Bool-cases, inl, inr,
}
use estate_ci.Go.Time.{parse_time}
use estate_ci.Contract.Patterns.{is_request_id, is_repository, is_sha, is_digest}
use estate_ci.Contract.Snapshot.{
  RepositoryHealth, HealthSummary, EstateHealthSnapshot, Tally, no_tally, counted, count_status,
  valid_word, validate_repository, validate_repositories, sums_to, summary_is, validate_snapshot,
  health_schema_version,
}

abbrev one : Bool → ℕ
one b = if b then 1 else 0

-- How many repositories have the status.
unfoldable pub count : Text → List RepositoryHealth → ℕ
count status [] = 0
count status (r ∷ rs) = one (r.required_check_status == status) + count status rs

-- The names rise, from `previous` on.
unfoldable pub Rises : Text → List RepositoryHealth → Type 0
Rises previous [] = Unit
Rises previous (r ∷ rs) = (text_lt previous r.repository ≡ true) × Rises r.repository rs

-- `t` with that many more of each status.
abbrev plus : Tally → ℕ → ℕ → ℕ → ℕ → Tally
plus t a b c d = record {
  healthy = t.healthy + a;
  degraded = t.degraded + b;
  blocked = t.blocked + c;
  unknown = t.unknown + d;
}

abbrev the_tally : ℕ → ℕ → ℕ → ℕ → Tally
the_tally a b c d = record { healthy = a; degraded = b; blocked = c; unknown = d }

tally-eq :
    {a a' b b' c c' d d' : ℕ}
    → a ≡ a'
    → b ≡ b'
    → c ≡ c'
    → d ≡ d'
    → the_tally a b c d ≡ the_tally a' b' c' d'
tally-eq e f g h = cc

some-inj : {a b : Tally} → some a ≡ some b → a ≡ b
some-inj h = cc

exclusive : (s a b : Text) → text_eq a b ≡ false → ((s == a) && (s == b)) ≡ false
exclusive s a b h = elim (Bool-cases (s == a)) [
  | inl e ↦ rw ((text_eq_iff s a).0 e) (ground (arith, h))
  | inr e ↦ ground (arith, e)
]

counted_bits :
    (a b c d : Bool) (t t' : Tally)
    → (a && b) ≡ false
    → (a && c) ≡ false
    → (a && d) ≡ false
    → (b && c) ≡ false
    → (b && d) ≡ false
    → (c && d) ≡ false
    → (if a
        then some (record t { healthy = t.healthy + 1 })
        else if b
        then some (record t { degraded = t.degraded + 1 })
        else if c
        then some (record t { blocked = t.blocked + 1 })
        else if d
        then some (record t { unknown = t.unknown + 1 })
        else none)
      ≡ some t'
    → t' ≡ plus t (one a) (one b) (one c) (one d)
counted_bits true false false false t t' ab ac ad bc bd cd h =
    sym (some-inj h) ∙ tally-eq (omega arith) (omega arith) (omega arith) (omega arith)
counted_bits false true false false t t' ab ac ad bc bd cd h =
    sym (some-inj h) ∙ tally-eq (omega arith) (omega arith) (omega arith) (omega arith)
counted_bits false false true false t t' ab ac ad bc bd cd h =
    sym (some-inj h) ∙ tally-eq (omega arith) (omega arith) (omega arith) (omega arith)
counted_bits false false false true t t' ab ac ad bc bd cd h =
    sym (some-inj h) ∙ tally-eq (omega arith) (omega arith) (omega arith) (omega arith)
counted_bits false false false false t t' ab ac ad bc bd cd h = cc
counted_bits true true c d t t' ab ac ad bc bd cd h = cc
counted_bits true false true d t t' ab ac ad bc bd cd h = cc
counted_bits true false false true t t' ab ac ad bc bd cd h = cc
counted_bits false true true d t t' ab ac ad bc bd cd h = cc
counted_bits false true false true t t' ab ac ad bc bd cd h = cc
counted_bits false false true true t t' ab ac ad bc bd cd h = cc

apart_1 : text_eq (bytes "success") (bytes "failure") ≡ false
unfolding text_eq bytes
apart_1 = refl

apart_2 : text_eq (bytes "success") (bytes "blocked") ≡ false
unfolding text_eq bytes
apart_2 = refl

apart_3 : text_eq (bytes "success") (bytes "unknown") ≡ false
unfolding text_eq bytes
apart_3 = refl

apart_4 : text_eq (bytes "failure") (bytes "blocked") ≡ false
unfolding text_eq bytes
apart_4 = refl

apart_5 : text_eq (bytes "failure") (bytes "unknown") ≡ false
unfolding text_eq bytes
apart_5 = refl

apart_6 : text_eq (bytes "blocked") (bytes "unknown") ≡ false
unfolding text_eq bytes
apart_6 = refl

count_status-plus :
    (status : Text) (t t' : Tally)
    → count_status status t ≡ some t'
    → t'
      ≡ plus t
          (one (status == bytes "success"))
          (one (status == bytes "failure"))
          (one (status == bytes "blocked"))
          (one (status == bytes "unknown"))
unfolding count_status
count_status-plus s t t' h =
    counted_bits _ _ _ _ t t' (exclusive s _ _ apart_1) (exclusive s _ _ apart_2)
      (exclusive s _ _ apart_3) (exclusive s _ _ apart_4) (exclusive s _ _ apart_5)
      (exclusive s _ _ apart_6) h

counted-some : (q : Option Tally) (t : Tally) → counted q ≡ ok t → q ≡ some t
counted-some none t h = cc
counted-some (some u) t h = cc

-- One round of the loop.
validate_turn :
    (previous : Text) (t t' : Tally) (r : RepositoryHealth)
    → validate_repository previous t r ≡ ok t'
    → (text_lt previous r.repository ≡ true) × (count_status r.required_check_status t ≡ some t')
unfolding validate_repository
validate_turn previous t t' r h =
    let named = is_repository r.repository && text_lt previous r.repository in
    let (g, h1) = >>-eq-ok (guard named "repositories must be unique, valid, and sorted") _ h in
    let (_, h2) =
      >>-eq-ok
        (guard (is_sha r.head_sha && is_sha r.last_green_sha)
          "repository health SHAs must be lowercase commit SHAs")
        _ h1 in
    let (_, h3) =
      >>-eq-ok (guard (is_digest r.evidence_digest) "repository evidence_digest is invalid") _ h2 in
    let (_, h4) = >>-eq-ok (guard (valid_word r.profile) "repository profile is invalid") _ h3 in
    let (_, h5) =
      >>-eq-ok (guard (valid_word r.failure_class) "repository failure_class is invalid") _ h4 in
    let (_, h6) =
      >>-eq-ok (guard (is_some (parse_time r.observed_at)) "repository observed_at must be RFC3339")
        _ h5 in
    let (u, e, h7) = >>=-eq-ok (counted (count_status r.required_check_status t)) _ h6 in
    let metrics =
      not (is_neg r.queue_seconds)
      && not (is_neg r.execution_seconds)
      && not (is_neg r.cache_hit_basis_points)
      && not (int_lt (pos 10000) r.cache_hit_basis_points) in
    let (_, h8) = >>-eq-ok (guard metrics "repository metrics are outside their bounds") _ h7 in
    let sound : named ≡ true = guard-ok named _ g in
    (ground (arith, sound), counted-some _ t' (e ∙ h8))

validate_loop :
    (previous : Text) (t t' : Tally) (rs : List RepositoryHealth)
    → validate_repositories previous t rs ≡ ok t'
    → Rises previous rs
      × (t'
          ≡ plus t
              (count (bytes "success") rs)
              (count (bytes "failure") rs)
              (count (bytes "blocked") rs)
              (count (bytes "unknown") rs))
unfolding validate_repositories Rises count
validate_loop previous t t' [] h =
    (tt, sym (ok-inj _ refl h) ∙ tally-eq (omega arith) (omega arith) (omega arith) (omega arith))
validate_loop previous t t' (r ∷ rs) h =
    let (u, turn, rest) = >>=-eq-ok (validate_repository previous t r) _ h in
    let (less, counts) = validate_turn previous t u r turn in
    let (rises, more) = validate_loop r.repository u t' rs rest in
    let one_more = count_status-plus r.required_check_status t u counts in
    (
      (less, rises),
      rw one_more at more ∙ tally-eq (omega arith) (omega arith) (omega arith) (omega arith),
    )

summary_parts :
    (t : Tally) (s : HealthSummary)
    → summary_is t s ≡ true
    → (s.healthy ≡ pos t.healthy)
      × (s.degraded ≡ pos t.degraded)
      × (s.blocked ≡ pos t.blocked)
      × (s.unknown ≡ pos t.unknown)
summary_parts t s h = (
  sym ((int_eq_iff (pos t.healthy) s.healthy).0 (ground (arith, h))),
  sym ((int_eq_iff (pos t.degraded) s.degraded).0 (ground (arith, h))),
  sym ((int_eq_iff (pos t.blocked) s.blocked).0 (ground (arith, h))),
  sym ((int_eq_iff (pos t.unknown) s.unknown).0 (ground (arith, h))),
)

-- In a valid snapshot the repositories stand in the strictly rising order of their names, so that
-- none stands twice, and the summary counts the repositories with each status.
pub validate_snapshot_counts :
    (s : EstateHealthSnapshot)
    → validate_snapshot s ≡ ok tt
    → Rises [] s.repositories
      × (s.summary.healthy ≡ pos (count (bytes "success") s.repositories))
      × (s.summary.degraded ≡ pos (count (bytes "failure") s.repositories))
      × (s.summary.blocked ≡ pos (count (bytes "blocked") s.repositories))
      × (s.summary.unknown ≡ pos (count (bytes "unknown") s.repositories))
unfolding validate_snapshot
validate_snapshot_counts s h =
    let (_, h1) =
      >>-eq-ok
        (guard (s.schema_version == health_schema_version) "unsupported health schema_version") _
        h in
    let (_, h2) =
      >>-eq-ok (guard (is_request_id s.snapshot_id) "snapshot_id must be a UUIDv4") _ h1 in
    let (_, h3) =
      >>-eq-ok
        (guard (is_sha s.protected_main_sha) "protected_main_sha must be a lowercase commit SHA") _
        h2 in
    let (_, h4) =
      >>-eq-ok (guard (is_some (parse_time s.observed_at)) "observed_at must be RFC3339") _ h3 in
    let (_, h5) =
      >>-eq-ok
        (guard (leb 1 (length s.repositories) && leb (length s.repositories) 100)
          "repositories must contain 1 to 100 entries")
        _ h4 in
    let (_, h6) =
      >>-eq-ok
        (guard (sums_to s.summary (length s.repositories))
          "health summary must account for every repository")
        _ h5 in
    let (_, h7) =
      >>-eq-ok (guard (is_empty s.digest || is_digest s.digest) "snapshot digest is invalid") _
        h6 in
    let (t, loop, h8) = >>=-eq-ok (validate_repositories [] no_tally s.repositories) _ h7 in
    let (rises, counts) = validate_loop [] no_tally t s.repositories loop in
    let (healthy, degraded, blocked, unknown) =
      summary_parts t s.summary (guard-ok (summary_is t s.summary) _ h8) in
    (
      rises,
      healthy ∙ ap (λ (x : Tally). pos x.healthy) counts ∙ ap pos (omega arith),
      degraded ∙ ap (λ (x : Tally). pos x.degraded) counts ∙ ap pos (omega arith),
      blocked ∙ ap (λ (x : Tally). pos x.blocked) counts ∙ ap pos (omega arith),
      unknown ∙ ap (λ (x : Tally). pos x.unknown) counts ∙ ap pos (omega arith),
    )
