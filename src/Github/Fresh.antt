-- ===== src/Github/Fresh.antt =====
-- `Token` of `InstallationTokenSource`, internal/githubapp/client.go.
use Prim.Native.String.{String}
use estate_ci.Prelude.{
  ◌+◌, ◌*◌, ◌<◌, ◌≤◌, ◌≡◌, refl, true, ◌&&◌, ◌⊎◌, inl, inr, Option, none, some, Text, Result, ok,
  err, ltb, leb, nat_eq, is_empty, Bool-cases, ok-inj, sym, ltb→lt, leb→le, and-left, and-right,
}
use estate_ci.Go.Http.{HttpResponse}
use estate_ci.Go.Time.{Time, minute, hour, parse_time}
use estate_ci.Storage.Cloud.Decoding.{Decoder}
use estate_ci.Github.Tokens.{
  TokenSource, TokenCache, TokenPayload, valid_token, accept_expiry, accept_payload, read_payload,
  accept_token, keep_token, exchange_token, sign_and_exchange, fetch_token, token,
}

-- A token that an exchange at the instant `now` has given.
pub record IsFresh (now : Time) (cache : TokenCache) : Type 0 where
  pub valid : valid_token cache.token ≡ true
  pub after : now + minute < cache.expires
  pub until : cache.expires ≤ now + 2 * hour

expiry-IsFresh :
    (token : Text) (now : Time) (q : Option Time) (cache : TokenCache)
    → valid_token token ≡ true
    → accept_expiry token now q ≡ ok cache
    → IsFresh now cache
expiry-IsFresh token now none cache v h = cc
expiry-IsFresh token now (some expires) cache v h =
    elim (Bool-cases (ltb (now + minute) expires && leb expires (now + 2 * hour))) [
      | inl inside ↦
          let made : record { token = token; expires = expires } ≡ cache =
            ok-inj _ refl (rw inside at h) in
          rw (← made) (record {
            valid = v;
            after = ltb→lt _ _ (and-left _ _ inside);
            until = leb→le _ _ (and-right _ _ inside);
          })
      | inr outside ↦ absurd (cc (rw outside at h))
    ]

payload-IsFresh :
    (now : Time) (q : Result String TokenPayload) (cache : TokenCache)
    → accept_payload now q ≡ ok cache
    → IsFresh now cache
payload-IsFresh now (err e) cache h = cc
payload-IsFresh now (ok p) cache h = elim (Bool-cases (valid_token p.token)) [
  | inl good ↦ expiry-IsFresh p.token now (parse_time p.expires_at) cache good (rw good at h)
  | inr bad ↦ absurd (cc (rw bad at h))
]

body-IsFresh :
    (decoder : Decoder TokenPayload) (now : Time) (body : Option Text) (cache : TokenCache)
    → read_payload decoder now body ≡ ok cache
    → IsFresh now cache
body-IsFresh decoder now none cache h = cc
body-IsFresh decoder now (some body) cache h = payload-IsFresh now _ cache h

accept-IsFresh :
    (decoder : Decoder TokenPayload) (now : Time) (q : Result String HttpResponse)
    (cache : TokenCache)
    → accept_token decoder now q ≡ ok cache
    → IsFresh now cache
unfolding accept_token
accept-IsFresh decoder now (err e) cache h = cc
accept-IsFresh decoder now (ok response) cache h = elim (Bool-cases (nat_eq response.status 201)) [
  | inl good ↦ body-IsFresh decoder now response.body cache (rw good at h)
  | inr bad ↦ absurd (cc (rw bad at h))
]

module _ {W : Type 0} (source : TokenSource W) where
  -- What the clock shows once the private key has been read from `w0` on.
  abbrev pub key_read : W → Time
  key_read w0 = (source.now (source.read_key source.config.private_key_file w0).1).0

  -- How a call of `Token` that returns `out` and leaves `cache'` got it.
  pub data Obtained (cache : TokenCache) (w : W) (out : Text) (cache' : TokenCache) : Type 0 where
    cached :
        cache' ≡ cache
        → out ≡ cache.token
        → (source.now w).0 + minute < cache.expires
        → Obtained cache w out cache'
    exchanged :
        (w0 : W)
        → (w0 ≡ w) ⊎ (w0 ≡ (source.now w).1)
        → IsFresh (key_read w0) cache'
        → out ≡ cache'.token
        → Obtained cache w out cache'

  module _ (cache : TokenCache) (w w0 : W) (at : (w0 ≡ w) ⊎ (w0 ≡ (source.now w).1))
      (out : Text) where
    kept-Obtained :
        (w2 : W) (q : Result String TokenCache)
        → ((fresh : TokenCache) → q ≡ ok fresh → IsFresh (key_read w0) fresh)
        → (keep_token q cache w2).0 ≡ ok out
        → Obtained cache w out (keep_token q cache w2).1
    kept-Obtained w2 (err e) fresh h = cc
    kept-Obtained w2 (ok c) fresh h = exchanged w0 at (fresh c refl) (sym (ok-inj _ refl h))

    exchange-Obtained :
        (w2 : W) (q : Result String Text)
        → (exchange_token source (key_read w0) q cache w2).0 ≡ ok out
        → Obtained cache w out (exchange_token source (key_read w0) q cache w2).1
    exchange-Obtained w2 (err e) h = cc
    exchange-Obtained w2 (ok jwt) h =
        kept-Obtained _ (accept_token source.payload (key_read w0) _)
          (accept-IsFresh source.payload (key_read w0) _) h

    sign-Obtained :
        (q : Result String Text)
        → (sign_and_exchange source q cache (source.read_key source.config.private_key_file w0).1).0
          ≡ ok out
        → Obtained cache w out
            (sign_and_exchange source q cache
              (source.read_key source.config.private_key_file w0).1).1
    sign-Obtained (err e) h = cc
    sign-Obtained (ok key) h = exchange-Obtained _ _ h

    fetch-Obtained :
        (fetch_token source cache w0).0 ≡ ok out
        → Obtained cache w out (fetch_token source cache w0).1
    unfolding fetch_token
    fetch-Obtained h = sign-Obtained _ h

  -- A token that `Token` returns is the cached one, with more than a minute left at the clock's first
  -- reading, and the cache stays as it is; or it is a new one, which becomes the cached one: a single
  -- trimmed line of at most 4096 bytes whose expiry lies in the two hours from the clock's reading
  -- behind the private key on, and not in their first minute.
  pub token-Obtained :
      (cache : TokenCache) (w : W) (out : Text)
      → (token source (cache, w)).0 ≡ ok out
      → Obtained cache w out (token source (cache, w)).1
  unfolding token
  token-Obtained cache w out h = elim (Bool-cases (is_empty cache.token)) [
    | inl empty ↦ rw empty (fetch-Obtained cache w w (inl refl) out (rw empty at h))
    | inr there ↦ elim (Bool-cases (ltb ((source.now w).0 + minute) cache.expires)) [
      | inl left ↦
          rw (there, left)
            (cached refl (sym (ok-inj _ refl (rw (there, left) at h))) (ltb→lt _ _ left))
      | inr over ↦
          rw (there, over)
            (fetch-Obtained cache w (source.now w).1 (inr refl) out (rw (there, over) at h))
    ]
  ]
