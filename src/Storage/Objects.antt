-- ===== src/Storage/Objects.antt =====
-- `ObjectStore` and `validateObjectAddress` of internal/storage/gcs.go: named objects in buckets.
pub mod Laws
pub mod Gcs
use Prim.Native.String.{String}
use estate_ci.Prelude.{
  ℤ, Bool, true, false, not, ◌&&◌, ◌||◌, List, [], ◌∷◌, ◌++◌, reverse, Text, bytes, Result, ◌>>◌,
  guard, leb, nat_eq, all, length, is_empty, if◌then◌else◌, starts_with, contains_any,
}
use estate_ci.Contract.Patterns.{is_alnum, headed, line_breaks}
use estate_ci.Storage.Repository.{StorageError, failure, Op}

pub record Object : Type 0 where
  pub name : Text
  pub content : Text

pub record ObjectStore (S : Type 0) : Type 0 where
  -- bucket, name, content
  pub create : Text → Text → Text → Op S (Unit {0})
  -- bucket, name
  pub get : Text → Text → Op S Text
  -- bucket, prefix, limit
  pub list : Text → Text → ℤ → Op S (List Object)

last_is_alnum : Text → Bool
unfolding is_alnum
last_is_alnum [] = false
last_is_alnum (c ∷ s) = is_alnum c

-- `^[a-z0-9][a-z0-9._-]{4,61}[a-z0-9]$`
unfoldable pub is_bucket : Text → Bool
unfolding headed is_alnum last_is_alnum
is_bucket s =
    headed is_alnum (λ c. is_alnum c || nat_eq c b'.' || nat_eq c b'_' || nat_eq c b'-') 5 62 s
    && last_is_alnum (reverse s)

-- `strings.Contains(s, part)`
unfoldable pub contains : Text → Text → Bool
unfolding starts_with
contains part [] = starts_with part []
contains part (c ∷ s) = starts_with part (c ∷ s) || contains part s

unfoldable pub validate_object_address : Text → Text → Result StorageError (Unit {0})
unfolding is_bucket contains starts_with bytes contains_any
validate_object_address bucket name = do
  guard (is_bucket bucket) (failure "GCS bucket name is invalid")
  guard
      (not (
        is_empty name
        || not (leb (length name) 512)
        || starts_with (bytes "/") name
        || contains (bytes "..") name
        || contains_any line_breaks name))
      (failure "GCS object name is invalid")
