-- ===== src/Api/Limits.antt =====
-- `queryLimit` of internal/api/server.go, as the handlers of lists use it.
use estate_ci.Prelude.{
  ℕ, ◌≡◌, true, pos, arith, bytes, is_empty, Bool-cases, inl, inr, Option-cases,
}
use estate_ci.Storage.Memory.{in_limit}
use estate_ci.Api.Http.{Request}
use estate_ci.Api.Csrf.{query_limit, parse_limit}

-- A limit that `queryLimit` takes for valid is one that the lists of the stores take, whatever the
-- query says, if the limit that stands for a missing one is.
query_limit-in_limit :
    (r : Request) (fallback : ℕ)
    → in_limit (pos fallback) ≡ true
    → (query_limit r fallback).1 ≡ true
    → in_limit (pos (query_limit r fallback).0) ≡ true
unfolding query_limit
query_limit-in_limit r fallback h valid = elim (Bool-cases (is_empty (r.query (bytes "limit")))) [
  | inl none_given ↦ ground arith
  | inr given ↦ elim (Option-cases (parse_limit (r.query (bytes "limit")))) [
    | inl bad ↦ ground arith
    | inr (n, good) ↦ ground arith
  ]
]
