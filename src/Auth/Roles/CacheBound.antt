-- ===== src/Auth/Roles/CacheBound.antt =====
-- The cache of `RoleFor` in internal/auth/roles.go.
use Prim.Native.String.{String}
use estate_ci.Prelude.{
  suc, ◌≤◌, Bool, true, false, Option, none, some, [], ◌∷◌, Text, Result, ok, err, length, leb,
  ◌&&◌, arith, if◌then◌else◌, text_instance,
}
use estate_ci.Go.Time.{Time}
use estate_ci.Storage.Table.{Table, put, lookup}
use estate_ci.Contract.Patterns.{is_email}
use estate_ci.Auth.Roles.{
  Role, CachedRole, Resolver, Checker, capped, fresh, first_role, role_for, key_of, resolve_email,
  store_role,
}

length-put : {V : Type 0} (k : Text) (v : V) (t : Table V) → length (put k v t) ≤ suc (length t)
unfolding put
length-put k v [] = omega arith
length-put k v ((j, w) ∷ t) = ground (arith, length-put k v t)

length-capped : (t : Table CachedRole) → length t ≤ 10000 → suc (length (capped t)) ≤ 10000
length-capped t h = ground arith

store-bounded :
    (email : Text) (now : Time) (r : Resolver) (q : Result String Role)
    → length r.cache ≤ 10000
    → length (store_role email now r q).1.cache ≤ 10000
store-bounded email now r (err e) h = h
store-bounded email now r (ok role) h = omega (
  arith,
  length-put email (record { role = role; expires = _ }) (capped r.cache),
  length-capped r.cache h,
)

resolve-bounded :
    (checker : Checker) (now later : Time) (email : Text) (r : Resolver) (q : Option Role)
    → length r.cache ≤ 10000
    → length (resolve_email checker now later email r q).1.cache ≤ 10000
resolve-bounded checker now later email r (some role) h = h
resolve-bounded checker now later email r none h =
    store-bounded email later r (first_role checker email r.bindings) h

-- No call of `RoleFor` makes the cache larger than 10,000 entries.
pub role_for_cache_bounded :
    (checker : Checker) (now later : Time) (email : Text) (r : Resolver)
    → length r.cache ≤ 10000
    → length (role_for checker now later email r).1.cache ≤ 10000
unfolding role_for
role_for_cache_bounded checker now later email r h =
    valid (leb (length (key_of email)) 320 && is_email (key_of email))
  where
    valid :
        (b : Bool)
        → length
            (if b
              then resolve_email checker now later
                  (key_of email)
                  r
                  (fresh (lookup (key_of email) r.cache) now)
              else (err "membership identity is invalid", r)).1.cache
          ≤ 10000
    valid true = resolve-bounded checker now later (key_of email) r _ h
    valid false = h
