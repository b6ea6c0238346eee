-- ===== src/Api/Authenticated.antt =====
-- `authenticate` of internal/api/server.go.
use Prim.Native.String.{String}
use estate_ci.Prelude.{
  ◌≡◌, refl, Bool, true, false, not, ◌||◌, none, bytes, Result, ok, err, ltb, ◌⊎◌, inl, inr,
  if◌then◌else◌, ◌==◌, text_instance, ℕ, starts_with, is_empty,
}
use estate_ci.Auth.Identity.{Identity}
use estate_ci.Auth.Roles.{Role, role_viewer}
use estate_ci.Operations.Exec.{State}
use estate_ci.Api.Http.{Request, Reply, reply, panics, Payload, problem_body, healthy, ready}
use estate_ci.Api.Responses.{problem, write_json, method_not_allowed}
use estate_ci.Api.Server.{
  Server, Principal, route, admit, identified, assertion_of, authenticate, serve, api_prefix,
  is_get,
}

-- A reply that shows nothing of the estate: a problem, or the state of the process.
abbrev pub is_public_payload : Payload → Bool
is_public_payload (problem_body p) = true
is_public_payload healthy = true
is_public_payload (ready b) = true
is_public_payload _ = false

abbrev pub is_public : Reply → Bool
is_public (reply x) = is_public_payload x.payload
is_public panics = false

module _ {S W : Type 0} (server : Server S W) where
  -- The caller of `r` is known, and has a role.
  pub record IsAdmitted (r : Request) (s : State S W) : Type 0 where
    pub principal : Principal
    pub validated : (server.validate (assertion_of server r) s.world).0 ≡ ok principal.identity
    pub resolved :
        (server.role_for principal.identity.email
          (server.validate (assertion_of server r) s.world).1).0
        ≡ ok principal.role
    pub viewer : ltb principal.role role_viewer ≡ false

  -- The caller is admitted, or the store is left at `m` and the reply shows nothing.
  abbrev Guarded : Request → State S W → Reply × State S W → Type 0
  Guarded r s outcome =
      IsAdmitted r s ⊎ ((outcome.1.store ≡ s.store) × (is_public outcome.0 ≡ true))

  Guarded-if :
      (r : Request) (s : State S W) (b : Bool) (x y : Reply × State S W)
      → (b ≡ true → Guarded r s x)
      → (b ≡ false → Guarded r s y)
      → Guarded r s (if b then x else y)
  Guarded-if r s true x y h k = h refl
  Guarded-if r s false x y h k = k refl

  problem-is_public : (status : ℕ) (code : String) → is_public (problem status code) ≡ true
  unfolding problem
  problem-is_public status code = refl

  health_is_public :
      (b : Bool) (payload : Payload)
      → is_public_payload payload ≡ true
      → is_public (if b then write_json 200 payload else method_not_allowed (bytes "GET")) ≡ true
  unfolding write_json method_not_allowed
  health_is_public true payload h = h
  health_is_public false payload h = refl

  admit-Guarded :
      (r : Request) (s : State S W) (identity : Identity)
      → (server.validate (assertion_of server r) s.world).0 ≡ ok identity
      → (q : Result String Role) (t : State S W)
      → (server.role_for identity.email (server.validate (assertion_of server r) s.world).1).0 ≡ q
      → t.store ≡ s.store
      → Guarded r s (admit server r identity q t)
  admit-Guarded r s identity v (err e) t h same = inr (same, problem-is_public _ _)
  admit-Guarded r s identity v (ok role) t h same =
      Guarded-if r s (ltb role role_viewer) _ _ (λ e. inr (same, problem-is_public _ _))
        λ viewer. inl (record {
          principal = record { identity = identity; role = role };
          validated = v;
          resolved = h;
          viewer = viewer;
        })

  identified-Guarded :
      (r : Request) (s : State S W) (q : Result String Identity)
      → (server.validate (assertion_of server r) s.world).0 ≡ q
      → Guarded r s (
          identified server r q
            (record s { world = (server.validate (assertion_of server r) s.world).1 }))
  identified-Guarded r s (err e) v = inr (refl, problem-is_public _ _)
  identified-Guarded r s (ok identity) v = admit-Guarded r s identity v _ _ refl refl

  open_route-Guarded :
      (r : Request) (s : State S W)
      → (r.path == bytes "/healthz" || r.path == bytes "/readyz") ≡ true
      → Guarded r s (route server r none s)
  unfolding route
  open_route-Guarded r s open_path =
      Guarded-if r s (r.path == bytes "/healthz") _ _
        (λ e. inr (refl, health_is_public (is_get r) healthy refl))
        λ other.
          Guarded-if r s (r.path == bytes "/readyz") _ _
            (λ e. inr (refl, health_is_public (is_get r) _ refl)) λ neither. absurd (cc)

  -- Every request is one of a caller whose assertion the validator accepts and whose role is viewer or
  -- above, or it leaves the store as it was and is answered, without a panic, by a problem or by the
  -- state of the process, which show nothing of the store.
  pub known_or_public :
      (r : Request) (s : State S W)
      → IsAdmitted r s
        ⊎ (((serve server r s).1.store ≡ s.store) × (is_public (serve server r s).0.1 ≡ true))
  unfolding serve authenticate
  known_or_public r s =
      Guarded-if r s (r.path == bytes "/healthz" || r.path == bytes "/readyz") _ _
        (open_route-Guarded r s)
        λ e.
          Guarded-if r s (not (starts_with api_prefix r.path)) _ _
            (λ e'. inr (refl, problem-is_public _ _))
            λ e'.
              Guarded-if r s (is_empty (assertion_of server r)) _ _
                (λ e''. inr (refl, problem-is_public _ _)) λ e''. identified-Guarded r s _ refl
