-- ===== src/Storage/Objects/Gcs/Once.antt =====
-- `Create`, `Get` and `List` of `GCSObjectStore`, internal/storage/gcs.go, over time.
use estate_ci.Prelude.{◌≡◌, ◌≢◌, Option, some, Text, ok, ℤ}
use estate_ci.Storage.Objects.Gcs.{
  GcsObjectStore, create_object, get_object, list_objects, gcs_object_store,
}
use estate_ci.Storage.Objects.Laws.{IsCreateOnly}
use estate_ci.Storage.Objects.Gcs.Protocol.{IsServer}
use estate_ci.Storage.Objects.Gcs.Server.{gcs-IsCreateOnly}

module _ {W : Type 0} (store : GcsObjectStore W) where
  -- Any calls of the store, of any names, however they end.
  pub data Calls (w : W) : W → Type 0 where
    none_yet : Calls w w
    creates : {x : W} (b n v : Text) → Calls w x → Calls w (create_object store b n v x).1
    gets : {x : W} (b n : Text) → Calls w x → Calls w (get_object store b n x).1
    lists :
        {x : W} (b prefix : Text) (limit : ℤ)
        → Calls w x
        → Calls w (list_objects store b prefix limit x).1

  still_held :
      {held : W → Text → Text → Option Text} (b n v : Text) {w x : W}
      → IsCreateOnly (gcs_object_store store) held
      → Calls w x
      → held w b n ≡ some v
      → held x b n ≡ some v
  still_held b n v laws none_yet h = h
  still_held b n v laws (creates b' n' v' calls) h =
      laws.create_keeps b' n' v' b n v _ (still_held b n v laws calls h)
  still_held b n v laws (gets b' n' calls) h =
      laws.get_keeps b' n' b n v _ (still_held b n v laws calls h)
  still_held b n v laws (lists b' prefix limit calls) h =
      laws.list_keeps b' prefix limit b n v _ (still_held b n v laws calls h)

  -- Over a server that behaves as the API is documented: after a create has succeeded and any calls
  -- of the store, another create of the same name does not succeed, and what is read under that name
  -- is what was written.
  pub object_created_once :
      {held : W → Text → Text → Option Text} (b n v v' u : Text) (w x : W)
      → IsServer store held
      → (create_object store b n v w).0 ≡ ok tt
      → Calls (create_object store b n v w).1 x
      → (get_object store b n x).0 ≡ ok u
      → ((create_object store b n v' x).0 ≢ ok tt) × (u ≡ v)
  object_created_once {held} b n v v' u w x server made calls read =
      let laws = gcs-IsCreateOnly store held server in
      let (_, there) = laws.create_new b n v w made in
      let later = still_held b n v laws calls there in
      let same = laws.get_held b n u x read in
      (λ again. let (absent, _) = laws.create_new b n v' x again in cc, cc)
