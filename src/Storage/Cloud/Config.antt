-- ===== src/Storage/Cloud/Config.antt =====
-- `GCSRepository` of internal/storage/gcs.go and its construction.
use estate_ci.Prelude.{◌&&◌, Text, bytes, Result, ok, ◌>>◌, guard, ℤ, pos, int_eq, text_instance}
use estate_ci.Storage.Repository.{StorageError, failure}
use estate_ci.Storage.Objects.{ObjectStore, validate_object_address}

pub record GcsRepository (S : Type 0) : Type 0 where
  pub objects : ObjectStore S
  pub health_bucket : Text
  pub audit_bucket : Text

abbrev pub health_retention_days : ℤ
health_retention_days = pos 90

abbrev pub audit_retention_days : ℤ
audit_retention_days = pos 400

-- `NewGCSRepository`, of a store that is not nil.
unfoldable pub new_gcs_repository :
    {S : Type 0} → ObjectStore S → Text → Text → ℤ → ℤ → Result StorageError (GcsRepository S)
new_gcs_repository objects health_bucket audit_bucket health_days audit_days = do
  guard (int_eq health_days health_retention_days && int_eq audit_days audit_retention_days)
      (failure "GCS repository retention contract must be exactly 90/400 days")
  validate_object_address health_bucket (bytes "health/sentinel")
  validate_object_address audit_bucket (bytes "audit/sentinel")
  ok (record { objects = objects; health_bucket = health_bucket; audit_bucket = audit_bucket })
