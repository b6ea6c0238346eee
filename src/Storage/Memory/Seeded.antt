-- ===== src/Storage/Memory/Seeded.antt =====
-- What `ListSnapshots` and `LatestSnapshot` of internal/storage/repository.go show after any history
-- of operations.
use Prim.Native.String.{String}
use mathlib.Core.List.{reverse-append}
use estate_ci.Prelude.{
  ℕ, ◌≤◌, ◌≡◌, refl, ◌∙◌, ap, Bool, true, false, List, [], ◌∷◌, ◌++◌, reverse, Result, ok, err, pos,
  is_ok, take, if◌then◌else◌,
}
use estate_ci.Contract.Crypto.{Crypto}
use estate_ci.Contract.Snapshot.{EstateHealthSnapshot, verify_snapshot}
use estate_ci.Storage.Repository.{StorageError, not_found, Reservation, validate_reservation}
use estate_ci.Storage.Table.{has}
use estate_ci.Storage.Memory.{
  MemoryRepository, new_memory_repository, create_entry, reserve_checked, list_snapshots,
  latest_snapshot, seed_snapshot, seed_evidence, reserve_request, put_request, put_dispatch,
  put_dispatch_result, put_receipt,
}
use estate_ci.Storage.Memory.Steps.{
  Step, seeds_snapshot, seeds_evidence, reserves, puts_request, puts_dispatch, puts_result,
  puts_receipt, Reach, here, next,
}
use estate_ci.Storage.Memory.Listing.{list_snapshots_reversed}

-- The snapshot that a step has seeded: one that verifies. No other operation seeds one.
abbrev seeded_by : {c : Crypto} {m n : MemoryRepository} → Step c m n → List EstateHealthSnapshot
seeded_by {c} (seeds_snapshot s m) = if is_ok (verify_snapshot c s) then s ∷ [] else []
seeded_by (seeds_evidence e m) = []
seeded_by (reserves r m) = []
seeded_by (puts_request r m) = []
seeded_by (puts_dispatch d m) = []
seeded_by (puts_result r m) = []
seeded_by (puts_receipt r m) = []

-- The snapshots that a history has seeded, the last one first.
abbrev pub seeded : {c : Crypto} {m n : MemoryRepository} → Reach c m n → List EstateHealthSnapshot
seeded here = []
seeded (next r s) = seeded_by s ++ seeded r

-- The first snapshot, if there is one.
abbrev pub first_snapshot : List EstateHealthSnapshot → Result StorageError EstateHealthSnapshot
first_snapshot [] = err not_found
first_snapshot (s ∷ ss) = ok s

create_entry_snapshots :
    (q : Result String (Unit {0})) (message : String) (exists : Bool) (m m' : MemoryRepository)
    → m'.snapshots ≡ m.snapshots
    → (create_entry q message exists m m').1.snapshots ≡ m.snapshots
create_entry_snapshots (err e) message exists m m' h = refl
create_entry_snapshots (ok u) message true m m' h = refl
create_entry_snapshots (ok u) message false m m' h = h

snapshots-if :
    {A : Type 0} (ss : List EstateHealthSnapshot) (b : Bool) (x y : A × MemoryRepository)
    → x.1.snapshots ≡ ss
    → y.1.snapshots ≡ ss
    → (if b then x else y).1.snapshots ≡ ss
snapshots-if ss true x y hx hy = hx
snapshots-if ss false x y hx hy = hy

reserve_snapshots :
    (q : Result StorageError (Unit {0})) (r : Reservation) (m : MemoryRepository)
    → (reserve_checked q r m).1.snapshots ≡ m.snapshots
reserve_snapshots (err e) r m = refl
reserve_snapshots (ok u) r m = snapshots-if _ (has r.request_id m.reservations) _ _ refl (
    snapshots-if _ (has r.binding_digest m.bindings) _ _ refl
      (snapshots-if _ (has r.approval_id m.approvals) _ _ refl refl))

seed_snapshots :
    (q : Result String (Unit {0})) (message : String) (s : EstateHealthSnapshot)
    (m : MemoryRepository)
    → reverse
        (create_entry q message false m
          (record m { snapshots = m.snapshots ++ (s ∷ []) })).1.snapshots
      ≡ (if is_ok q then s ∷ [] else []) ++ reverse m.snapshots
seed_snapshots (err e) message s m = refl
seed_snapshots (ok u) message s m = reverse-append m.snapshots (s ∷ [])

snapshots_grow :
    {c : Crypto} {m n : MemoryRepository} (s : Step c m n)
    → reverse n.snapshots ≡ seeded_by s ++ reverse m.snapshots
unfolding seed_snapshot seed_evidence reserve_request put_request put_dispatch put_dispatch_result
    put_receipt
snapshots_grow {c} (seeds_snapshot s m) = seed_snapshots (verify_snapshot c s) _ s m
snapshots_grow (seeds_evidence e m) = ap reverse (create_entry_snapshots _ _ _ m _ refl)
snapshots_grow (reserves r m) = ap reverse (reserve_snapshots (validate_reservation r) r m)
snapshots_grow (puts_request r m) = ap reverse (create_entry_snapshots _ _ _ m _ refl)
snapshots_grow (puts_dispatch d m) = ap reverse (create_entry_snapshots _ _ _ m _ refl)
snapshots_grow (puts_result r m) = ap reverse (create_entry_snapshots _ _ _ m _ refl)
snapshots_grow (puts_receipt r m) = ap reverse (create_entry_snapshots _ _ _ m _ refl)

all_snapshots :
    {c : Crypto} {m : MemoryRepository} (h : Reach c new_memory_repository m)
    → reverse m.snapshots ≡ seeded h
all_snapshots here = refl
all_snapshots (next r s) = snapshots_grow s ∙ ap (λ ss. seeded_by s ++ ss) (all_snapshots r)

latest_snapshot_lem :
    (m : MemoryRepository) → latest_snapshot m ≡ (first_snapshot (reverse m.snapshots), m)
unfolding latest_snapshot
latest_snapshot_lem m = refl

-- After any history of a new store and for a limit from 1 to 100, `ListSnapshots` returns the
-- snapshots that the history has seeded, the last seeded first and up to the limit, where a snapshot
-- is seeded if it verifies, `LatestSnapshot` returns the last seeded one, if there is one, and
-- neither changes the store.
pub list_snapshots_last_seeded :
    {c : Crypto} {m : MemoryRepository} (h : Reach c new_memory_repository m) (n : ℕ)
    → 1 ≤ n
    → n ≤ 100
    → (list_snapshots (pos n) m ≡ (ok (take n (seeded h)), m))
      × (latest_snapshot m ≡ (first_snapshot (seeded h), m))
list_snapshots_last_seeded {c} {m} h n low high = (
  list_snapshots_reversed n m low high ∙ ap (λ ss. (ok (take n ss), m)) (all_snapshots h),
  latest_snapshot_lem m ∙ ap (λ ss. (first_snapshot ss, m)) (all_snapshots h),
)
