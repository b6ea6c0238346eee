-- ===== src/Adc/Granted.antt =====
-- `Token` and `RoundTrip` of internal/adc/metadata.go.
use Prim.Native.String.{String}
use estate_ci.Prelude.{
  ap, ◌++◌, text_eq_refl, text_eq_iff, ◌∙◌, ℕ, ℤ, pos, negsuc, ◌+◌, ◌*◌, ◌<◌, ◌≤◌, ◌≡◌, refl, true,
  false, Bool, ◌&&◌, ◌⊎◌, inl, inr, Option, none, some, Text, bytes, Result, ok, err, ltb, leb,
  nat_eq, is_empty, Bool-cases, ok-inj, sym, ltb→lt, and-left, ◌==◌, text_instance, arith,
  if◌then◌else◌,
}
use estate_ci.Go.Http.{HttpRequest, HttpResponse, Exchange}
use estate_ci.Go.Time.{Time, minute, hour}
use estate_ci.Storage.Table.{lookup}
use estate_ci.Storage.Cloud.Decoding.{Decoder}
use estate_ci.Github.Tokens.{TokenCache, valid_token}
use estate_ci.Adc.{
  MetadataTokenSource, AccessPayload, lifetime, granted, grant, grant_body, accept_access,
  keep_access, fetch_access, access_token, authorized_request, with_access, round_trip,
  metadata_request,
}

-- What a response grants: a token, and from a minute to two hours.
record IsGrant (out : Text × ℕ) : Type 0 where
  valid : valid_token out.0 ≡ true
  low : 60 ≤ out.1
  high : out.1 ≤ 7200

abbrev InWindow : Option ℕ → Type 0
InWindow none = Unit {0}
InWindow (some n) = (60 ≤ n) × (n ≤ 7200)

InWindow-if : (b : Bool) (o : Option ℕ) → (b ≡ true → InWindow o) → InWindow (if b then o else none)
InWindow-if true o h = h refl
InWindow-if false o h = tt

lifetime-InWindow : (z : ℤ) → InWindow (lifetime z)
lifetime-InWindow (negsuc n) = tt
lifetime-InWindow (pos n) =
    InWindow-if (leb 60 n && leb n 7200) (some n) λ inside. (ground arith, ground arith)

granted-IsGrant :
    (t : Text) (b : Bool) (o : Option ℕ) (out : Text × ℕ)
    → (b ≡ true → valid_token t ≡ true)
    → InWindow o
    → granted t b o ≡ ok out
    → IsGrant out
granted-IsGrant t true none out good inside h = cc
granted-IsGrant t false o out good inside h = cc
granted-IsGrant t true (some n) out good (low, high) h =
    rw (← ok-inj _ refl h) (record { valid = good refl; low = low; high = high })

grant-IsGrant : (q : Result String AccessPayload) (out : Text × ℕ) → grant q ≡ ok out → IsGrant out
grant-IsGrant (err e) out h = cc
grant-IsGrant (ok p) out h =
    granted-IsGrant p.access_token (valid_token p.access_token && p.token_type == bytes "Bearer")
      (lifetime p.expires_in) out (λ both. and-left _ _ both) (lifetime-InWindow p.expires_in) h

body-IsGrant :
    (decoder : Decoder AccessPayload) (body : Option Text) (out : Text × ℕ)
    → grant_body decoder body ≡ ok out
    → IsGrant out
body-IsGrant decoder none out h = cc
body-IsGrant decoder (some body) out h = grant-IsGrant _ out h

accept-IsGrant :
    (decoder : Decoder AccessPayload) (q : Result String HttpResponse) (out : Text × ℕ)
    → accept_access decoder q ≡ ok out
    → IsGrant out
unfolding accept_access
accept-IsGrant decoder (err e) out h = cc
accept-IsGrant decoder (ok response) out h =
    elim (Bool-cases
      (nat_eq response.status 200 && response.header (bytes "Metadata-Flavor") == bytes "Google")) [
        | inl good ↦ body-IsGrant decoder response.body out (rw good at h)
        | inr bad ↦ absurd (cc (rw bad at h))
      ]

module _ {W : Type 0} (source : MetadataTokenSource W) where
  -- What the clock shows once the metadata server has answered, from `w0` on.
  abbrev pub answered_at : W → Time
  answered_at w0 =
      (source.now (source.exchange (metadata_request source.endpoint source.scopes) w0).1).0

  -- The cache has no token, or one that `Token` would take from a response.
  abbrev pub IsSound : TokenCache → Type 0
  IsSound cache = (is_empty cache.token ≡ true) ⊎ (valid_token cache.token ≡ true)

  -- How `Token` got the token that it returns, and the cache that it leaves.
  pub data Provided (cache : TokenCache) (w : W) (out : Text) (cache' : TokenCache) : Type 0 where
    cached :
        cache' ≡ cache
        → out ≡ cache.token
        → valid_token out ≡ true
        → (source.now w).0 + minute < cache.expires
        → Provided cache w out cache'
    fetched :
        (w0 : W)
        → (w0 ≡ w) ⊎ (w0 ≡ (source.now w).1)
        → out ≡ cache'.token
        → valid_token out ≡ true
        → answered_at w0 + minute ≤ cache'.expires
        → cache'.expires ≤ answered_at w0 + 2 * hour
        → Provided cache w out cache'

  module _ (cache : TokenCache) (w w0 : W) (at : (w0 ≡ w) ⊎ (w0 ≡ (source.now w).1)) where
    keep-Provided :
        (out : Text) (q : Result String (Text × ℕ))
        → ((g : Text × ℕ) → q ≡ ok g → IsGrant g)
        → (keep_access source q cache
            (source.exchange (metadata_request source.endpoint source.scopes) w0).1).0
          ≡ ok out
        → Provided cache w out
            (keep_access source q cache
              (source.exchange (metadata_request source.endpoint source.scopes) w0).1).1
    keep-Provided out (err e) grants h = cc
    keep-Provided out (ok (t, n)) grants h =
        let g = grants (t, n) refl in
        let low = g.low in
        let high = g.high in
        let same : t ≡ out = ok-inj _ refl h in
        fetched w0 at (sym same) (ap valid_token (sym same) ∙ g.valid) (omega arith) (omega arith)

    fetch-Provided :
        (out : Text)
        → (fetch_access source cache w0).0 ≡ ok out
        → Provided cache w out (fetch_access source cache w0).1
    unfolding fetch_access
    fetch-Provided out h = keep-Provided out _ (accept-IsGrant source.payload _) h

    keep-IsSound :
        (q : Result String (Text × ℕ)) (w1 : W)
        → ((g : Text × ℕ) → q ≡ ok g → IsGrant g)
        → IsSound cache
        → IsSound (keep_access source q cache w1).1
    keep-IsSound (err e) w1 grants sound = sound
    keep-IsSound (ok (t, n)) w1 grants sound = let g = grants (t, n) refl in inr g.valid

    fetch-IsSound : IsSound cache → IsSound (fetch_access source cache w0).1
    unfolding fetch_access
    fetch-IsSound sound = keep-IsSound _ _ (accept-IsGrant source.payload _) sound

  access-Provided :
      (cache : TokenCache) (w : W) (out : Text)
      → IsSound cache
      → (access_token source (cache, w)).0 ≡ ok out
      → Provided cache w out (access_token source (cache, w)).1
  unfolding access_token
  access-Provided cache w out sound h = elim (Bool-cases (is_empty cache.token)) [
    | inl empty ↦ rw empty (fetch-Provided cache w w (inl refl) out (rw empty at h))
    | inr there ↦ elim (Bool-cases (ltb ((source.now w).0 + minute) cache.expires)) [
      | inl left ↦
          let same : cache.token ≡ out = ok-inj _ refl (rw (there, left) at h) in
          let valid : valid_token cache.token ≡ true = elim sound [
            | inl none_there ↦ absurd (cc)
            | inr good ↦ good
          ] in
          rw (there, left)
            (cached refl (sym same) (ap valid_token (sym same) ∙ valid) (ltb→lt _ _ left))
      | inr over ↦
          rw (there, over)
            (fetch-Provided cache w (source.now w).1 (inr refl) out (rw (there, over) at h))
    ]
  ]

  access-IsSound :
      (cache : TokenCache) (w : W) → IsSound cache → IsSound (access_token source (cache, w)).1
  unfolding access_token
  access-IsSound cache w sound = elim (Bool-cases (is_empty cache.token)) [
    | inl empty ↦ rw empty (fetch-IsSound cache w w (inl refl) sound)
    | inr there ↦ elim (Bool-cases (ltb ((source.now w).0 + minute) cache.expires)) [
      | inl left ↦ rw (there, left) sound
      | inr over ↦ rw (there, over) (fetch-IsSound cache w (source.now w).1 (inr refl) sound)
    ]
  ]

  -- `sent` is `request` with the token as its `Authorization`.
  pub record IsAuthorized (request sent : HttpRequest) (token : Text) : Type 0 where
    pub method : sent.method ≡ request.method
    pub url : sent.url ≡ request.url
    pub body : sent.body ≡ request.body
    pub authorization :
        lookup (bytes "Authorization") sent.headers ≡ some (bytes "Bearer " ++ token)
    pub other_headers :
        (name : Text)
        → (name ≡ bytes "Authorization") ⊎ (lookup name sent.headers ≡ lookup name request.headers)

  -- What `RoundTrip` did with a request.
  pub data Carried (base : Exchange W) (request : HttpRequest) (cache : TokenCache) (w : W)
      (outcome : Result String HttpResponse × TokenCache × W) : Type 0 where
    -- nothing was sent
    withheld :
        (reason : String)
        → outcome
          ≡ (err reason, (access_token source (cache, w)).1, (access_token source (cache, w)).2)
        → Carried base request cache w outcome
    sent :
        (token : Text)
        → Provided cache w token outcome.1
        → (authorized : HttpRequest) → IsAuthorized request authorized token
        → outcome.0 ≡ (base authorized (access_token source (cache, w)).2).0
        → outcome.2 ≡ (base authorized (access_token source (cache, w)).2).1
        → Carried base request cache w outcome

  with_token-IsAuthorized :
      (request : HttpRequest) (token : Text)
      → IsAuthorized request (authorized_request source request token) token
  unfolding lookup
  with_token-IsAuthorized request token = record {
    method = refl;
    url = refl;
    body = refl;
    authorization = rw (text_eq_refl (bytes "Authorization")) refl;
    other_headers = λ name. elim (Bool-cases (bytes "Authorization" == name)) [
      | inl same ↦ inl (ground (arith, same, text_eq_iff (bytes "Authorization") name))
      | inr other ↦ inr (rw other refl)
    ];
  }

  carry :
      (base : Exchange W) (request : HttpRequest) (cache : TokenCache) (w : W)
      (q : Result String Text)
      → IsSound cache
      → (access_token source (cache, w)).0 ≡ q
      → Carried base request cache w (
          with_access source base request q
            (access_token source (cache, w)).1
            (access_token source (cache, w)).2)
        × IsSound
            (with_access source base request q
              (access_token source (cache, w)).1
              (access_token source (cache, w)).2).1
  carry base request cache w (err e) sound same = (withheld e refl, access-IsSound cache w sound)
  carry base request cache w (ok t) sound same = (
    sent t (access-Provided cache w t sound same) (authorized_request source request t)
        (with_token-IsAuthorized request t) refl refl,
    access-IsSound cache w sound,
  )

  -- If the cached token, where there is one, is a single trimmed line of at most 4096 bytes, then so is
  -- the one that `RoundTrip` leaves in the cache, and `RoundTrip` either sends nothing, or sends the
  -- request, otherwise as it is, with a token as its `Authorization: Bearer` header, and gives the
  -- outcome of that. The token is such a line, and is the cached one, with more than a minute left at
  -- the clock's first reading; or it is a new one, which becomes the cached one and expires between a
  -- minute and two hours from the clock's reading behind the answer of the metadata server.
  pub round_trip-Carried :
      (base : Exchange W) (request : HttpRequest) (cache : TokenCache) (w : W)
      → IsSound cache
      → Carried base request cache w (round_trip source base request (cache, w))
        × IsSound (round_trip source base request (cache, w)).1
  unfolding round_trip
  round_trip-Carried base request cache w sound = carry base request cache w _ sound refl
