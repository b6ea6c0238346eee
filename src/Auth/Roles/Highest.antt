-- ===== src/Auth/Roles/Highest.antt =====
-- The answers of `RoleFor` in internal/auth/roles.go, and the groups of the configuration.
use Prim.Native.String.{String}
use estate_ci.Prelude.{
  ◌≡◌, ◌≤◌, refl, sym, ap, ◌∙◌, Bool, true, false, none, List, [], ◌∷◌, Text, Result, ok, err,
  >>=-eq-ok, >>-eq-ok, ok-inj, ◌⊎◌, inl, inr, All, Some, here, there, arith, guard, length, not,
  ◌&&◌, leb, if◌then◌else◌,
}
use estate_ci.Go.Time.{Time}
use estate_ci.Storage.Table.{Table, has, add, lookup}
use estate_ci.Contract.Patterns.{is_email}
use estate_ci.Auth.Roles.Sorted.{Falls, sort-Falls, sort-Some, sort-back}
use estate_ci.Auth.Roles.{
  Role, role_none, GroupBinding, ResolvedBinding, Resolver, Checker, parse_role, is_resource,
  sort_bindings, resolve_bindings, new_resolver, first_role, role_for, key_of, resolve_email,
  store_role,
}

-- A group of the configuration with the role `x`, that the caller is a member of.
pub record Grants (checker : Checker) (email : Text) (x : Role) (b : GroupBinding) : Type 0 where
  pub parsed : parse_role b.role ≡ ok x
  pub member : checker b.resource email ≡ ok true

pub record Holds (checker : Checker) (email : Text) (x : Role) (b : ResolvedBinding) : Type 0 where
  pub same : b.role ≡ x
  pub member : checker b.resource email ≡ ok true

-- One turn of the loop over the configuration.
resolve_turn :
    (seen : Table (Unit {0})) (b : GroupBinding) (bs : List GroupBinding)
    (rs : List ResolvedBinding)
    → resolve_bindings seen (b ∷ bs) ≡ ok rs
    → (role : Role) × (rest : List ResolvedBinding) × (parse_role b.role ≡ ok role)
      × (resolve_bindings (add b.resource tt seen) bs ≡ ok rest)
      × (rs ≡ record { resource = b.resource; role = role } ∷ rest)
unfolding resolve_bindings
resolve_turn seen b bs rs h =
    let (role, parsed, h1) = >>=-eq-ok (parse_role b.role) _ h in
    let (valid, h2) =
      >>-eq-ok
        (guard (is_resource b.resource && not (has b.resource seen))
          "Workspace group role binding is invalid")
        _ h1 in
    let (rest, resolved, h3) = >>=-eq-ok (resolve_bindings (add b.resource tt seen) bs) _ h2 in
    (role, rest, parsed, resolved, cc)

module _ (checker : Checker) (email : Text) where
  resolve-Some :
      (x : Role) (seen : Table (Unit {0})) (bs : List GroupBinding) (rs : List ResolvedBinding)
      → resolve_bindings seen bs ≡ ok rs
      → Some (Grants checker email x) bs
      → Some (Holds checker email x) rs
  resolve-Some x seen [] rs h p = elim p [ ]
  resolve-Some x seen (b ∷ bs) rs h (here g) =
      let (role, rest, parsed, resolved, e) = resolve_turn seen b bs rs h in
      rw e (here (record { same = ok-inj _ (sym parsed) g.parsed; member = g.member }))
  resolve-Some x seen (b ∷ bs) rs h (there q) =
      let (role, rest, parsed, resolved, e) = resolve_turn seen b bs rs h in
      rw e (there (resolve-Some x (add b.resource tt seen) bs rest resolved q))

  -- What a resolved binding holds, a group of the configuration grants.
  resolve-back :
      (x : Role) (seen : Table (Unit {0})) (bs : List GroupBinding) (rs : List ResolvedBinding)
      → resolve_bindings seen bs ≡ ok rs
      → Some (Holds checker email x) rs
      → Some (Grants checker email x) bs
  unfolding resolve_bindings
  resolve-back x seen [] rs h p = elim (rw (← ok-inj _ refl h) at p) [ ]
  resolve-back x seen (b ∷ bs) rs h p =
      let (role, rest, parsed, resolved, e) = resolve_turn seen b bs rs h in
      turn role rest parsed (resolve-back x (add b.resource tt seen) bs rest resolved) (rw e at p)
    where
      turn :
          (role : Role) (rest : List ResolvedBinding)
          → parse_role b.role ≡ ok role
          → (Some (Holds checker email x) rest → Some (Grants checker email x) bs)
          → Some (Holds checker email x) (record { resource = b.resource; role = role } ∷ rest)
          → Some (Grants checker email x) (b ∷ bs)
      turn role rest parsed back (here q) =
          here (record { parsed = parsed ∙ ap ok q.same; member = q.member })
      turn role rest parsed back (there q) = there (back q)

  below :
      (x : Role) (n : Role) (bs : List ResolvedBinding)
      → All (λ d. d.role ≤ n) bs
      → Some (Holds checker email x) bs
      → x ≤ n
  below x n [] a p = elim p [ ]
  below x n (b ∷ bs) (h, a) (here p) = omega (arith, p.same)
  below x n (b ∷ bs) (h, a) (there p) = below x n bs a p

  -- One turn of the loop for a group further on.
  turn_below :
      (x n role : Role) (member : Bool) (rest : Result String Role)
      → x ≤ n
      → (rest ≡ ok role → x ≤ role)
      → (if member then ok n else rest) ≡ ok role
      → x ≤ role
  turn_below x n role true rest first later h = let e : n ≡ role = cc in omega (arith, e, first)
  turn_below x n role false rest first later h = later h

  first_role_below :
      (x role : Role) (bs : List ResolvedBinding)
      → Falls bs
      → first_role checker email bs ≡ ok role
      → Some (Holds checker email x) bs
      → x ≤ role
  unfolding first_role Falls
  first_role_below x role [] f h p = elim p [ ]
  first_role_below x role (b ∷ bs) (fb, fs) h (here p) =
      let e : b.role ≡ role = ok-inj _ refl (rw p.member at h) in omega (arith, e, p.same)
  first_role_below x role (b ∷ bs) (fb, fs) h (there p) =
      let (member, checked, h1) = >>=-eq-ok (checker b.resource email) _ h in
      turn_below x b.role role member (first_role checker email bs) (below x b.role bs fb p)
        (λ k. first_role_below x role bs fs k p) h1

  turn_held :
      (role : Role) (b : ResolvedBinding) (bs : List ResolvedBinding) (member : Bool)
      (rest : Result String Role)
      → checker b.resource email ≡ ok member
      → (rest ≡ ok role → (role ≡ role_none) ⊎ Some (Holds checker email role) bs)
      → (if member then ok b.role else rest) ≡ ok role
      → (role ≡ role_none) ⊎ Some (Holds checker email role) (b ∷ bs)
  turn_held role b bs true rest checked later h =
      inr (here (record { same = ok-inj _ refl h; member = checked }))
  turn_held role b bs false rest checked later h = elim (later h) [
    | inl nothing ↦ inl nothing
    | inr held ↦ inr (there held)
  ]

  -- The answer is no role, or the role of a group that the caller is a member of.
  first_role_held :
      (role : Role) (bs : List ResolvedBinding)
      → first_role checker email bs ≡ ok role
      → (role ≡ role_none) ⊎ Some (Holds checker email role) bs
  unfolding first_role
  first_role_held role [] h = inl (sym (ok-inj _ refl h))
  first_role_held role (b ∷ bs) h =
      let (member, checked, h1) = >>=-eq-ok (checker b.resource email) _ h in
      turn_held role b bs member (first_role checker email bs) checked (first_role_held role bs) h1

-- A cached answer that is still fresh aside, an answer of `RoleFor` is the answer of the loop.
resolved-first :
    (checker : Checker) (now later : Time) (email : Text) (r : Resolver) (role : Role)
    → (resolve_email checker now later email r none).0 ≡ ok role
    → first_role checker email r.bindings ≡ ok role
resolved-first checker now later email r role h = stored (first_role checker email r.bindings) h
  where
    stored : (q : Result String Role) → (store_role email later r q).0 ≡ ok role → q ≡ ok role
    stored (ok x) h = h
    stored (err e) h = cc

abbrev unasked : List ResolvedBinding → Resolver
unasked bs = record { bindings = bs; cache = [] }

role_for-first :
    (checker : Checker) (now later : Time) (email : Text) (bs : List ResolvedBinding) (role : Role)
    → (role_for checker now later email (unasked bs)).0 ≡ ok role
    → first_role checker (key_of email) bs ≡ ok role
unfolding role_for lookup
role_for-first checker now later email bs role h =
    valid (leb (length (key_of email)) 320 && is_email (key_of email)) h
  where
    valid :
        (b : Bool)
        → (if b
            then resolve_email checker now later (key_of email) (unasked bs) none
            else (err "membership identity is invalid", unasked bs)).0
          ≡ ok role
        → first_role checker (key_of email) bs ≡ ok role
    valid true k = resolved-first checker now later (key_of email) (unasked bs) role k
    valid false k = cc

new-cache :
    (bindings : List GroupBinding) (r : Resolver)
    → new_resolver bindings ≡ ok r
    → (rs : List ResolvedBinding) × (resolve_bindings [] bindings ≡ ok rs)
      × (r ≡ unasked (sort_bindings rs))
unfolding new_resolver
new-cache bindings r h =
    let (valid, h1) =
      >>-eq-ok
        (guard (leb 1 (length bindings) && leb (length bindings) 20)
          "Workspace group role configuration is required")
        _ h in
    let (rs, resolved, h2) = >>=-eq-ok (resolve_bindings [] bindings) _ h1 in (rs, resolved, cc)

-- The first answer of a resolver for a caller is no less than the role of any group of its
-- configuration that the caller (by the trimmed address in lower case) is a member of.
pub role_for_highest :
    (bindings : List GroupBinding) (r : Resolver) (checker : Checker) (now later : Time)
    (email : Text) (role x : Role)
    → new_resolver bindings ≡ ok r
    → (role_for checker now later email r).0 ≡ ok role
    → Some (Grants checker (key_of email) x) bindings
    → x ≤ role
role_for_highest bindings r checker now later email role x made answered granted =
    let (rs, resolved, e) = new-cache bindings r made in
    first_role_below checker (key_of email) x role (sort_bindings rs) (sort-Falls rs)
      (role_for-first checker now later email (sort_bindings rs) role (rw e at answered))
      (sort-Some rs (resolve-Some checker (key_of email) x [] bindings rs resolved granted))

-- The first answer of a resolver for a caller is no role, or the role of a group of its configuration
-- that the caller (by the trimmed address in lower case) is a member of.
pub role_for_held :
    (bindings : List GroupBinding) (r : Resolver) (checker : Checker) (now later : Time)
    (email : Text) (role : Role)
    → new_resolver bindings ≡ ok r
    → (role_for checker now later email r).0 ≡ ok role
    → (role ≡ role_none) ⊎ Some (Grants checker (key_of email) role) bindings
role_for_held bindings r checker now later email role made answered =
    let (rs, resolved, e) = new-cache bindings r made in
    elim (first_role_held checker (key_of email) role (sort_bindings rs)
      (role_for-first checker now later email (sort_bindings rs) role (rw e at answered))) [
        | inl nothing ↦ inl nothing
        | inr held ↦
            inr
              (resolve-back checker (key_of email) role [] bindings rs resolved (sort-back rs held))
      ]
