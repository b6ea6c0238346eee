-- ===== src/Storage/Objects/Laws.antt =====
-- What the Cloud Storage repository of internal/storage/gcs.go relies on in its object store.
use estate_ci.Prelude.{ℤ, ◌≡◌, ◌≢◌, Option, none, some, Text, ok, err}
use estate_ci.Storage.Repository.{conflict, not_found}
use estate_ci.Storage.Objects.{ObjectStore}

-- A store of objects that are created once and never changed, `ifGenerationMatch=0`. `held` is
-- what a bucket holds under a name.
pub record IsCreateOnly {S : Type 0} (store : ObjectStore S) (held : S → Text → Text → Option Text)
    : Type 0 where
  pub create_keeps :
      (b n v b' n' w : Text) (s : S)
      → held s b' n' ≡ some w
      → held (store.create b n v s).1 b' n' ≡ some w
  pub get_keeps :
      (b n b' n' w : Text) (s : S) → held s b' n' ≡ some w → held (store.get b n s).1 b' n' ≡ some w
  pub list_keeps :
      (b p : Text) (limit : ℤ) (b' n' w : Text) (s : S)
      → held s b' n' ≡ some w
      → held (store.list b p limit s).1 b' n' ≡ some w
  -- A create that succeeds has made a new object.
  pub create_new :
      (b n v : Text) (s : S)
      → (store.create b n v s).0 ≡ ok tt
      → (held s b n ≡ none) × (held (store.create b n v s).1 b n ≡ some v)
  -- A conflict means that the object is there.
  pub create_conflict :
      (b n v : Text) (s : S)
      → (store.create b n v s).0 ≡ err conflict
      → (w : Text) × (held (store.create b n v s).1 b n ≡ some w)
  -- What is read is what is held; an object that is there is not reported as missing.
  pub get_held : (b n v : Text) (s : S) → (store.get b n s).0 ≡ ok v → held s b n ≡ some v
  pub get_found : (b n v : Text) (s : S) → held s b n ≡ some v → (store.get b n s).0 ≢ err not_found
