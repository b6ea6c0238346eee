-- ===== src/Auth/Iap/CachedKeys.antt =====
-- `key` and `cacheLifetime` of internal/auth/iap.go: the key set in the cache.
use Prim.Native.String.{String}
use estate_ci.Prelude.{
  ℕ, ◌+◌, ◌*◌, ◌≤◌, ◌≡◌, refl, ap, sym, ◌∙◌, subst, Bool, true, false, not, ◌&&◌, Option, none,
  some, List, [], ◌∷◌, Text, bytes, Result, ok, err, guard, require, ℤ, pos, negsuc, leb, length,
  is_empty, nat_eq, if◌then◌else◌, ◌==◌, text_instance, All, arith, >>=-eq-ok, >>-eq-ok, guard-ok,
  ok-inj, ◌⊎◌, inl, inr,
}
use estate_ci.Go.Base64.{decode}
use estate_ci.Go.Strconv.{parse_int}
use estate_ci.Go.Strings.{equal_fold}
use estate_ci.Go.Http.{HttpResponse}
use estate_ci.Go.Time.{Time, second, minute, hour}
use estate_ci.Contract.Patterns.{split}
use estate_ci.Storage.Cloud.Decoding.{Decoder}
use estate_ci.Storage.Table.{Table, has, add}
use estate_ci.Auth.Iap.Keys.{
  EcdsaKey, Ecdsa, EncodedKey, KeyCache, KeySource, seconds_within, directive_value, max_age,
  first_lifetime, cache_lifetime, decode_key, decode_keys, fetched_keys, keep_keys, key_or_fetch,
  key_for, bounded_keys, read_body, jwks_request,
}

-- From a minute to 24 hours.
abbrev IsLifetime : Time → Type 0
IsLifetime t = (minute ≤ t) × (t ≤ 24 * hour)

-- Seconds that make a lifetime, where there are any.
abbrev WithinDay : Option ℕ → Type 0
WithinDay none = Unit {0}
WithinDay (some n) = (60 ≤ n) × (n ≤ 86400)

WithinDay-if :
    (b : Bool) (o : Option ℕ) → (b ≡ true → WithinDay o) → WithinDay (if b then o else none)
WithinDay-if true o h = h refl
WithinDay-if false o h = tt

seconds-WithinDay : (o : Option ℤ) → WithinDay (seconds_within o)
seconds-WithinDay none = tt
seconds-WithinDay (some (negsuc n)) = tt
seconds-WithinDay (some (pos n)) =
    WithinDay-if (leb 60 n && leb n 86400) (some n) λ inside. (ground arith, ground arith)

directive-WithinDay : (o : Option (Text × Text)) → WithinDay (directive_value o)
directive-WithinDay none = tt
directive-WithinDay (some (name, value)) =
    WithinDay-if (equal_fold name (bytes "max-age")) _ λ h. seconds-WithinDay (parse_int value)

max_age-WithinDay : (d : Text) → WithinDay (max_age d)
unfolding max_age
max_age-WithinDay d = directive-WithinDay _

seconds-IsLifetime :
    (o : Option ℕ) (rest : Time)
    → WithinDay o
    → IsLifetime rest
    → IsLifetime (elim o [ some n ↦ n * second | none ↦ rest ])
seconds-IsLifetime none rest h other = other
seconds-IsLifetime (some n) rest (low, high) other = (omega arith, omega arith)

first-IsLifetime : (ds : List Text) → IsLifetime (first_lifetime ds)
unfolding first_lifetime
first-IsLifetime [] = (omega arith, omega arith)
first-IsLifetime (d ∷ ds) =
    seconds-IsLifetime (max_age d) (first_lifetime ds) (max_age-WithinDay d) (first-IsLifetime ds)

module _ (ecdsa : Ecdsa) where
  -- A point of the curve, with both coordinates in 32 bytes.
  pub record IsPoint (key : EcdsaKey) : Type 0 where
    pub on_curve : ecdsa.on_curve key ≡ true
    pub long_x : length key.x ≡ 32
    pub long_y : length key.y ≡ 32

  abbrev pub ArePoints : Table EcdsaKey → Type 0
  ArePoints keys = All (λ e. IsPoint e.1) keys

  decode_key-IsPoint : (e : EncodedKey) (key : EcdsaKey) → decode_key ecdsa e ≡ ok key → IsPoint key
  unfolding decode_key
  decode_key-IsPoint e key h =
      let (kind, m1) =
        >>-eq-ok
          (guard
            (e.algorithm == bytes "ES256"
              && e.curve == bytes "P-256"
              && e.key_type == bytes "EC"
              && e.usage == bytes "sig"
              && not (is_empty e.key_id))
            "IAP verification key has an invalid contract")
          _ h in
      let (x, read_x, m2) =
        >>=-eq-ok (require (decode e.x) "IAP verification key coordinates are invalid") _ m1 in
      let (y, read_y, m3) =
        >>=-eq-ok (require (decode e.y) "IAP verification key coordinates are invalid") _ m2 in
      let (long, m4) =
        >>-eq-ok
          (guard (nat_eq (length x) 32 && nat_eq (length y) 32)
            "IAP verification key coordinates are invalid")
          _ m3 in
      let (curve, last) =
        >>-eq-ok
          (guard (ecdsa.on_curve (record { x = x; y = y })) "IAP verification key is not on P-256")
          _ m4 in
      let both = guard-ok _ _ long in
      let is = sym (ok-inj _ refl last) in
      record {
        on_curve = ap ecdsa.on_curve is ∙ guard-ok _ _ curve;
        long_x = ap (λ k. length k.x) is ∙ ground (arith, both);
        long_y = ap (λ k. length k.y) is ∙ ground (arith, both);
      }

  decode_keys-ArePoints :
      (keys : Table EcdsaKey) (es : List EncodedKey) (out : Table EcdsaKey)
      → ArePoints keys
      → decode_keys ecdsa keys es ≡ ok out
      → ArePoints out
  unfolding decode_keys add
  decode_keys-ArePoints keys [] out there h = subst ArePoints (ok-inj _ refl h) there
  decode_keys-ArePoints keys (e ∷ es) out there h =
      let (key, read, more) = >>=-eq-ok (decode_key ecdsa e) _ h in
      let (new, rest) =
        >>-eq-ok (guard (not (has e.key_id keys)) "IAP verification key ID is duplicated") _ more in
      decode_keys-ArePoints (add e.key_id key keys) es out (decode_key-IsPoint e key read, there)
        rest

  fetched-ArePoints :
      (decoder : Decoder (List EncodedKey)) (response : Result String HttpResponse)
      (keys : Table EcdsaKey) (control : Text)
      → fetched_keys ecdsa decoder response ≡ ok (keys, control)
      → ArePoints keys
  unfolding fetched_keys
  fetched-ArePoints decoder (err e) keys control h = cc
  fetched-ArePoints decoder (ok response) keys control h =
      let (good, m1) =
        >>-eq-ok (guard (nat_eq response.status 200) "fetch IAP verification keys: HTTP status") _
          h in
      let (es, read, m2) = >>=-eq-ok (bounded_keys (read_body decoder response.body)) _ m1 in
      let (out, decoded, last) = >>=-eq-ok (decode_keys ecdsa ([]) es) _ m2 in
      subst ArePoints (ap (λ p. p.0) (ok-inj _ refl last))
        (decode_keys-ArePoints ([]) es out tt decoded)

  module _ {W : Type 0} (source : KeySource W) where
    -- What `key` leaves in the cache: what was there, or a set that lasts from `now` on.
    abbrev pub Keeps : Time → KeyCache → KeyCache → Type 0
    Keeps now cache cache' =
        ArePoints cache'.keys
        × ((cache' ≡ cache)
            ⊎ ((now + minute ≤ cache'.expires) × (cache'.expires ≤ now + 24 * hour)))

    keep-Keeps :
        (now : Time) (id : Text) (keys : Result String (Table EcdsaKey × Text)) (cache : KeyCache)
        (w : W)
        → ((k : Table EcdsaKey) (c : Text) → keys ≡ ok (k, c) → ArePoints k)
        → ArePoints cache.keys
        → Keeps now cache (keep_keys source ecdsa now id keys cache w).1
    unfolding cache_lifetime
    keep-Keeps now id (err e) cache w points there = (there, inl refl)
    keep-Keeps now id (ok (k, c)) cache w points there =
        let (low, high) = first-IsLifetime (split b',' c) in
        (points k c refl, inr (omega arith, omega arith))

    fetch-Keeps :
        (now : Time) (id : Text) (found : Option EcdsaKey) (cache : KeyCache) (w : W)
        → ArePoints cache.keys
        → Keeps now cache (key_or_fetch source ecdsa now id found cache w).1
    fetch-Keeps now id (some key) cache w there = (there, inl refl)
    fetch-Keeps now id none cache w there =
        keep-Keeps now id _ cache (source.exchange (jwks_request source.jwks_url) w).1
          (fetched-ArePoints source.document _) there

    -- If the keys in the cache are points of the curve with coordinates of 32 bytes, then so are those
    -- that `key` leaves there, whatever the server answers; and the cache is as it was, or it expires
    -- between a minute and 24 hours from the clock's reading.
    pub key_for-ArePoints :
        (clock : W → Time × W) (id : Text) (cache : KeyCache) (w : W)
        → ArePoints cache.keys
        → Keeps (clock w).0 cache (key_for source ecdsa clock id (cache, w)).1
    unfolding key_for
    key_for-ArePoints clock id cache w there = fetch-Keeps (clock w).0 id _ cache (clock w).1 there
