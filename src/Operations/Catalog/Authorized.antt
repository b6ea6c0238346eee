-- ===== src/Operations/Catalog/Authorized.antt =====
-- `NewCatalog` and `Authorize` of internal/operations/catalog.go together.
use estate_ci.Prelude.{
  ◌≡◌, refl, sym, ap, ◌∙◌, Bool, true, false, not, ◌&&◌, ◌||◌, Option, none, some, List, [], ◌∷◌,
  Text, bytes, ok, err, guard, ◌==◌, text_instance, text_eq_iff, int_instance, int_eq_iff, length,
  leb, if◌then◌else◌, >>=-eq-ok, >>-eq-ok, guard-ok, ok-inj, Yields, Yields-ok, Yields-bind,
  Yields-then, arith, ℤ,
}
use estate_ci.Contract.Models.{OperationIntent}
use estate_ci.Contract.Patterns.{is_repository}
use estate_ci.Storage.Table.{Table, lookup, has, add, lookup-add}
use estate_ci.Operations.Catalog.{
  OperationTarget, RepositoryTarget, CatalogDocument, Catalog, disabled, other, catalog_v1,
  catalog_v2, entries, read_v1, read_v2, read_targets, new_catalog, authorize, authorize_capability,
  authorize_target,
}

-- Every target of the table stands under its own valid name, on the main branch.
pub record IsBound (k : Text) (t : RepositoryTarget) : Type 0 where
  pub name : t.repository ≡ k
  pub valid : is_repository k ≡ true
  pub main : t.main_branch ≡ bytes "main"

record Bound (targets : Table RepositoryTarget) : Type 0 where
  at : (k : Text) (t : RepositoryTarget) → lookup k targets ≡ some t → IsBound k t

-- The repository and the branch of a target.
record Keeps (t u : RepositoryTarget) : Type 0 where
  repository : u.repository ≡ t.repository
  branch : u.main_branch ≡ t.main_branch

kept :
    (t : RepositoryTarget) (o : Option (Table OperationTarget)) (w : Option (Table ℤ))
    → Keeps t (record t { operations = o; workflow_ids = w })
kept t o w = record { repository = refl; branch = refl }

read_v1-Keeps : (connected : Bool) (t : RepositoryTarget) → Yields (Keeps t) (read_v1 connected t)
unfolding read_v1
read_v1-Keeps connected t = search (Yields-ok, Yields-bind, Yields-then, kept) depth 8

read_v2-Keeps : (connected : Bool) (t : RepositoryTarget) → Yields (Keeps t) (read_v2 connected t)
unfolding read_v2
read_v2-Keeps connected t =
    Yields-then _ _ (Yields-then _ _ (Yields-ok t (record { repository = refl; branch = refl })))

read-Keeps :
    (v1 connected : Bool) (t u : RepositoryTarget)
    → (if v1 then read_v1 connected t else read_v2 connected t) ≡ ok u
    → Keeps t u
read-Keeps true connected t u h = (read_v1-Keeps connected t).at u h
read-Keeps false connected t u h = (read_v2-Keeps connected t).at u h

add-Bound :
    (k : Text) (t : RepositoryTarget) (targets : Table RepositoryTarget)
    → Bound targets
    → IsBound k t
    → Bound (add k t targets)
add-Bound k t targets bound h = record {
  at = λ j u e. found j u (k == j) refl (rw lookup-add at e);
}
  where
    moved : {j : Text} {u : RepositoryTarget} → k ≡ j → some t ≡ some u → IsBound k t → IsBound j u
    moved {u = u} e f b =
        let it : t ≡ u = cc in record { name = cc; valid = rw (← e) b.valid; main = cc }

    found :
        (j : Text) (u : RepositoryTarget) (b : Bool)
        → (k == j) ≡ b
        → (if b then some t else lookup j targets) ≡ some u
        → IsBound j u
    found j u true e f = moved ((text_eq_iff k j).0 e) f h
    found j u false e f = bound.at j u f

read_targets-Bound :
    (v1 connected : Bool) (targets : Table RepositoryTarget) (ts : List RepositoryTarget)
    (result : Table RepositoryTarget)
    → Bound targets
    → read_targets v1 connected targets ts ≡ ok result
    → Bound result
unfolding read_targets
read_targets-Bound v1 connected targets [] result bound h = rw (← ok-inj _ refl h) bound
read_targets-Bound v1 connected targets (t ∷ ts) result bound h =
    let valid =
      is_repository t.repository
      && t.main_branch == bytes "main"
      && not (has t.repository targets) in
    let (g, h1) = >>-eq-ok (guard valid "operation catalog repository binding is invalid") _ h in
    let (u, read, h2) = >>=-eq-ok (if v1 then read_v1 connected t else read_v2 connected t) _ h1 in
    let kept = read-Keeps v1 connected t u read in
    let sound : valid ≡ true = guard-ok valid _ g in
    let named : is_repository t.repository ≡ true = ground (arith, sound) in
    let branch : (t.main_branch == bytes "main") ≡ true = ground (arith, sound) in
    read_targets-Bound v1 connected (add t.repository u targets) ts result
      (add-Bound t.repository u targets bound (record {
        name = kept.repository;
        valid = named;
        main = kept.branch ∙ (text_eq_iff t.main_branch (bytes "main")).0 branch;
      }))
      h2

-- The operation that an intent asks for, as the catalog has it.
pub record IsAuthorized (d : CatalogDocument) (i : OperationIntent) (t : RepositoryTarget)
    : Type 0 where
  pub connected : d.connected ≡ true
  pub bound : IsBound i.repository t
  pub capability : OperationTarget
  pub declared : lookup i.operation (entries t.operations) ≡ some capability
  pub enabled : capability.enabled ≡ true
  pub workflow : i.workflow_id ≡ capability.workflow_id

capability-ok :
    (t u : RepositoryTarget) (w : ℤ) (q : Option OperationTarget)
    → authorize_capability t w q ≡ ok u
    → (capability : OperationTarget) × (q ≡ some capability)
      × (t ≡ u)
      × (capability.enabled ≡ true)
      × (w ≡ capability.workflow_id)
capability-ok t u w none h = cc
capability-ok t u w (some p) h = tested p.enabled (w == p.workflow_id) refl refl h
  where
    tested :
        (b c : Bool)
        → p.enabled ≡ b
        → (w == p.workflow_id) ≡ c
        → (if b
            then (if c
                then ok t
                else err (other "workflow ID does not match the exact operation catalog"))
            else err disabled)
          ≡ ok u
        → (capability : OperationTarget) × (some p ≡ some capability)
          × (t ≡ u)
          × (capability.enabled ≡ true)
          × (w ≡ capability.workflow_id)
    tested true true e f k = (p, refl, cc, e, (int_eq_iff w p.workflow_id).0 f)
    tested true false e f k = cc
    tested false c e f k = cc

target-ok :
    (connected : Bool) (i : OperationIntent) (u : RepositoryTarget) (q : Option RepositoryTarget)
    → authorize_target connected i q ≡ ok u
    → (t : RepositoryTarget) × (q ≡ some t)
      × (connected ≡ true)
      × (authorize_capability t i.workflow_id (lookup i.operation (entries t.operations)) ≡ ok u)
target-ok connected i u none h = cc
target-ok true i u (some t) h = (t, refl, refl, h)
target-ok false i u (some t) h = cc

nothing-Bound : Bound []
unfolding lookup
nothing-Bound = record { at = λ k t e. cc }

new_catalog-Bound :
    (d : CatalogDocument) (catalog : Catalog)
    → new_catalog d ≡ ok catalog
    → (catalog.connected ≡ d.connected) × Bound catalog.targets
unfolding new_catalog
new_catalog-Bound d catalog h =
    let valid =
      (d.schema_version == catalog_v1 || d.schema_version == catalog_v2)
      && leb 1 (length d.repositories)
      && leb (length d.repositories) 100 in
    let (g, h1) =
      >>-eq-ok (guard valid "operation catalog identity or repository count is invalid") _ h in
    let (targets, read, h2) =
      >>=-eq-ok (read_targets (d.schema_version == catalog_v1) d.connected [] d.repositories) _
        h1 in
    let sound =
      read_targets-Bound (d.schema_version == catalog_v1) d.connected [] d.repositories targets
        nothing-Bound read in
    let e : record { connected = d.connected; targets = targets } ≡ catalog = cc in
    (ap (λ (c : Catalog). c.connected) (sym e), rw (← e) sound)

-- When a catalog that `NewCatalog` made authorizes an intent, its document is connected, the target
-- is the one of the intent's repository, on the branch main, and it declares the operation, enabled
-- and with the intent's workflow.
pub authorize-IsAuthorized :
    (d : CatalogDocument) (catalog : Catalog) (i : OperationIntent) (t : RepositoryTarget)
    → new_catalog d ≡ ok catalog
    → authorize catalog i ≡ ok t
    → IsAuthorized d i t
unfolding authorize
authorize-IsAuthorized d catalog i t made allowed =
    let (same, sound) = new_catalog-Bound d catalog made in
    let (u, there, connected, h) =
      target-ok catalog.connected i t (lookup i.repository catalog.targets) allowed in
    let (capability, declared, e, enabled, workflow) =
      capability-ok u t i.workflow_id (lookup i.operation (entries u.operations)) h in
    record {
      connected = sym same ∙ connected;
      bound = sound.at i.repository t (there ∙ ap some e);
      capability = capability;
      declared =
          ap (λ (x : RepositoryTarget). lookup i.operation (entries x.operations)) (sym e)
          ∙ declared;
      enabled = enabled;
      workflow = workflow;
    }
