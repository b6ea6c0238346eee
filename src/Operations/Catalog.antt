-- ===== src/Operations/Catalog.antt =====
-- internal/operations/catalog.go: the fixed catalog of repositories and operations.
pub mod Authorized
use Prim.Native.String.{String}
use estate_ci.Prelude.{
  Bool, true, not, ◌&&◌, ◌||◌, Option, none, some, List, [], ◌∷◌, Text, bytes, Result, ok, err,
  ◌>>=◌, ◌>>◌, guard, leb, if◌then◌else◌, ◌==◌, text_instance, int_instance, length, nat_eq,
  is_some, ℤ, is_neg, is_positive, zero_int, text_lt, map,
}
use estate_ci.Contract.Models.{
  OperationIntent, allowed_operation, operation_refresh_health, operation_rerun_failed,
  operation_cancel_run,
}
use estate_ci.Contract.Patterns.{is_repository}
use estate_ci.Storage.Table.{Table, lookup, has, add}

pub record OperationTarget : Type 0 where
  pub workflow_id : ℤ
  pub enabled : Bool

-- A nil map is `none`.
pub record RepositoryTarget : Type 0 where
  pub repository : Text
  pub main_branch : Text
  pub operations : Option (Table OperationTarget)
  pub workflow_ids : Option (Table ℤ)

pub record CatalogDocument : Type 0 where
  pub schema_version : Text
  pub connected : Bool
  pub repositories : List RepositoryTarget

pub record Catalog : Type 0 where
  pub connected : Bool
  pub targets : Table RepositoryTarget

pub data CatalogError : Type 0 where
  not_catalogued : CatalogError
  disabled : CatalogError
  other : String → CatalogError

abbrev pub catalog_v1 : Text
catalog_v1 = bytes "estate.operation-catalog/v1"

abbrev pub catalog_v2 : Text
catalog_v2 = bytes "estate.operation-catalog/v2"

-- A read of a nil map finds nothing.
abbrev pub entries : {V : Type 0} → Option (Table V) → Table V
entries none = []
entries (some t) = t

abbrev checked_id : Bool → Option ℤ → Result String ℤ
checked_id connected none = err "operation catalog workflow ID is unresolved"
checked_id connected (some id) =
    if is_neg id || connected && id == zero_int
    then err "operation catalog workflow ID is unresolved"
    else ok id

abbrev target_of : Bool → ℤ → OperationTarget
target_of connected id = record { workflow_id = id; enabled = connected }

-- The v1 form names a workflow for each of the three operations.
unfoldable pub read_v1 : Bool → RepositoryTarget → Result String RepositoryTarget
read_v1 connected target = do
  let ids = entries target.workflow_ids
  guard (nat_eq (length ids) 3 && not (is_some target.operations))
      "v1 operation catalog must declare every exact workflow ID"
  refresh ← checked_id connected (lookup operation_refresh_health ids)
  rerun ← checked_id connected (lookup operation_rerun_failed ids)
  cancel ← checked_id connected (lookup operation_cancel_run ids)
  ok (record target {
    operations = some (
        (operation_refresh_health, target_of connected refresh)
        ∷ (operation_rerun_failed, target_of connected rerun)
        ∷ (operation_cancel_run, target_of connected cancel)
        ∷ []);
    workflow_ids = none;
  })

-- The loop over the capabilities of the v2 form.
unfoldable pub valid_capabilities : Bool → Table OperationTarget → Bool
valid_capabilities connected [] = true
valid_capabilities connected ((operation, capability) ∷ rest) =
    allowed_operation operation
    && is_positive capability.workflow_id
    && not (capability.enabled && not connected)
    && valid_capabilities connected rest

unfoldable pub read_v2 : Bool → RepositoryTarget → Result String RepositoryTarget
read_v2 connected target = do
  guard (not (is_some target.workflow_ids) && leb (length (entries target.operations)) 3)
      "v2 operation catalog must use capability declarations"
  guard (valid_capabilities connected (entries target.operations))
      "operation catalog capability is invalid or unresolved"
  ok target

unfoldable pub read_targets :
    Bool
    → Bool
    → Table RepositoryTarget
    → List RepositoryTarget
    → Result String (Table RepositoryTarget)
read_targets v1 connected targets [] = ok targets
read_targets v1 connected targets (t ∷ ts) = do
  guard
      (is_repository t.repository
        && t.main_branch == bytes "main"
        && not (has t.repository targets))
      "operation catalog repository binding is invalid"
  t' ← if v1 then read_v1 connected t else read_v2 connected t
  read_targets v1 connected (add t.repository t' targets) ts

unfoldable pub new_catalog : CatalogDocument → Result String Catalog
new_catalog d = do
  guard
      ((d.schema_version == catalog_v1 || d.schema_version == catalog_v2)
        && leb 1 (length d.repositories)
        && leb (length d.repositories) 100)
      "operation catalog identity or repository count is invalid"
  targets ← read_targets (d.schema_version == catalog_v1) d.connected [] d.repositories
  ok (record { connected = d.connected; targets = targets })

abbrev pub authorize_capability :
    RepositoryTarget → ℤ → Option OperationTarget → Result CatalogError RepositoryTarget
authorize_capability target workflow_id none = err not_catalogued
authorize_capability target workflow_id (some capability) =
    if capability.enabled
    then (if workflow_id == capability.workflow_id
        then ok target
        else err (other "workflow ID does not match the exact operation catalog"))
    else err disabled

abbrev pub authorize_target :
    Bool → OperationIntent → Option RepositoryTarget → Result CatalogError RepositoryTarget
authorize_target connected intent none = err (other "repository operation catalog is not connected")
authorize_target connected intent (some target) =
    if connected
    then authorize_capability target intent.workflow_id
        (lookup intent.operation (entries target.operations))
    else err (other "repository operation catalog is not connected")

unfoldable pub authorize : Catalog → OperationIntent → Result CatalogError RepositoryTarget
authorize catalog intent =
    authorize_target catalog.connected intent (lookup intent.repository catalog.targets)

-- `Repositories`: the targets, sorted by name.
unfoldable pub insert_target : RepositoryTarget → List RepositoryTarget → List RepositoryTarget
insert_target t [] = t ∷ []
insert_target t (u ∷ us) =
    if text_lt u.repository t.repository then u ∷ insert_target t us else t ∷ u ∷ us

unfoldable pub sort_targets : List RepositoryTarget → List RepositoryTarget
sort_targets [] = []
sort_targets (t ∷ ts) = insert_target t (sort_targets ts)

unfoldable pub repositories : Catalog → List RepositoryTarget
repositories catalog = sort_targets (map (λ e. e.1) catalog.targets)
