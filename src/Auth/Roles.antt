-- ===== src/Auth/Roles.antt =====
-- internal/auth/roles.go: the roles, and their resolution from Workspace groups with a cache.
pub mod Sorted
pub mod Highest
pub mod CacheBound
use Prim.Native.String.{String}
use estate_ci.Prelude.{
  ℕ, ◌+◌, ◌*◌, Bool, false, not, ◌&&◌, ◌||◌, Option, none, some, List, [], ◌∷◌, Text, bytes, Result,
  ok, err, ◌>>=◌, ◌>>◌, guard, ltb, leb, if◌then◌else◌, ◌==◌, text_instance, length, nat_eq,
  strip_prefix, all,
}
use estate_ci.Go.Time.{Time, minute}
use estate_ci.Go.Strings.{to_lower, trim_space}
use estate_ci.Contract.Patterns.{is_email, is_alnum}
use estate_ci.Storage.Table.{Table, lookup, has, add, put}

-- Go's `type Role int`, counted by iota.
abbrev pub Role : Type 0
Role = ℕ

abbrev pub role_none : Role
role_none = 0

abbrev pub role_viewer : Role
role_viewer = 1

abbrev pub role_operator : Role
role_operator = 2

abbrev pub role_approver : Role
role_approver = 3

abbrev pub role_admin : Role
role_admin = 4

unfoldable pub role_text : Role → Text
role_text role =
    if nat_eq role role_viewer
    then bytes "viewer"
    else if nat_eq role role_operator
    then bytes "operator"
    else if nat_eq role role_approver
    then bytes "approver"
    else if nat_eq role role_admin
    then bytes "admin"
    else bytes "none"

unfoldable pub parse_role : Text → Result String Role
parse_role value =
    if value == bytes "viewer"
    then ok role_viewer
    else if value == bytes "operator"
    then ok role_operator
    else if value == bytes "approver"
    then ok role_approver
    else if value == bytes "admin"
    then ok role_admin
    else err "unknown role"

pub record GroupBinding : Type 0 where
  pub resource : Text
  pub role : Text

pub record ResolvedBinding : Type 0 where
  pub resource : Text
  pub role : Role

pub record CachedRole : Type 0 where
  pub role : Role
  pub expires : Time

-- The state of a `WorkspaceRoleResolver`.
pub record Resolver : Type 0 where
  pub bindings : List ResolvedBinding
  pub cache : Table CachedRole

-- `^groups/[A-Za-z0-9_-]{1,128}$`
abbrev resource_name : Option Text → Bool
resource_name none = false
resource_name (some s) =
    leb 1 (length s)
    && leb (length s) 128
    && all (λ c. is_alnum c || leb b'A' c && leb c b'Z' || nat_eq c b'_' || nat_eq c b'-') s

unfoldable pub is_resource : Text → Bool
is_resource s = resource_name (strip_prefix (bytes "groups/") s)

-- `sort.Slice` by role, the highest first.
unfoldable pub insert_binding : ResolvedBinding → List ResolvedBinding → List ResolvedBinding
insert_binding b [] = b ∷ []
insert_binding b (d ∷ ds) = if ltb b.role d.role then d ∷ insert_binding b ds else b ∷ d ∷ ds

unfoldable pub sort_bindings : List ResolvedBinding → List ResolvedBinding
sort_bindings [] = []
sort_bindings (b ∷ bs) = insert_binding b (sort_bindings bs)

-- The loop over the bindings; `seen` are the resources met before.
unfoldable pub resolve_bindings :
    Table (Unit {0}) → List GroupBinding → Result String (List ResolvedBinding)
resolve_bindings seen [] = ok []
resolve_bindings seen (b ∷ bs) = do
  role ← parse_role b.role
  guard (is_resource b.resource && not (has b.resource seen))
      "Workspace group role binding is invalid"
  rest ← resolve_bindings (add b.resource tt seen) bs
  ok (record { resource = b.resource; role = role } ∷ rest)

unfoldable pub new_resolver : List GroupBinding → Result String Resolver
new_resolver bindings = do
  guard (leb 1 (length bindings) && leb (length bindings) 20)
      "Workspace group role configuration is required"
  resolved ← resolve_bindings [] bindings
  ok (record { bindings = sort_bindings resolved; cache = [] })

-- The membership service, which may fail: an interface of the resolver.
abbrev pub Checker : Type 0
Checker = Text → Text → Result String Bool

-- The loop over the bindings, which ends at the first membership or error.
unfoldable pub first_role : Checker → Text → List ResolvedBinding → Result String Role
first_role checker email [] = ok role_none
first_role checker email (b ∷ bs) =
    let rest = first_role checker email bs in
    do member ← checker b.resource email; if member then ok b.role else rest

abbrev pub ttl : Time
ttl = 2 * minute

-- The role of a cached entry that has not expired.
abbrev pub fresh : Option CachedRole → Time → Option Role
fresh none now = none
fresh (some c) now = if ltb now c.expires then some c.role else none

abbrev pub capped : Table CachedRole → Table CachedRole
capped cache = if leb 10000 (length cache) then [] else cache

abbrev pub store_role : Text → Time → Resolver → Result String Role → Result String Role × Resolver
store_role email now r (err e) = (err "resolve Workspace role", r)
store_role email now r (ok role) = (
  ok role,
  record r { cache = put email (record { role = role; expires = now + ttl }) (capped r.cache) },
)

abbrev pub resolve_email :
    Checker → Time → Time → Text → Resolver → Option Role → Result String Role × Resolver
resolve_email checker now later email r (some role) = (ok role, r)
resolve_email checker now later email r none =
    store_role email later r (first_role checker email r.bindings)

abbrev pub key_of : Text → Text
key_of email = to_lower (trim_space email)

-- `RoleFor`; the clock is read before the groups are asked (`now`) and after that (`later`).
unfoldable pub role_for : Checker → Time → Time → Text → Resolver → Result String Role × Resolver
role_for checker now later email r =
    if leb (length (key_of email)) 320 && is_email (key_of email)
    then resolve_email checker now later (key_of email) r
        (fresh (lookup (key_of email) r.cache) now)
    else (err "membership identity is invalid", r)
