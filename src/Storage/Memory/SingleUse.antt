-- ===== src/Storage/Memory/SingleUse.antt =====
-- `ReserveRequest` of internal/storage/repository.go over time.
use estate_ci.Prelude.{
  ◌≡◌, ◌≢◌, refl, Option-cases, ◌⊎◌, inl, inr, true, Text, Result, ok, err, arith, ◌∷◌, ◌++◌,
}
use mathlib.Core.Bool.{false≢true}
use estate_ci.Contract.Crypto.{Crypto}
use estate_ci.Storage.Repository.{StorageError, Reservation, validate_reservation}
use estate_ci.Storage.Table.{Table, lookup, has, lookup-add_self}
use estate_ci.Storage.Memory.{MemoryRepository, reserve_checked, reserve_request}
use estate_ci.Storage.Memory.Steps.{Extends, Grows, Reach, Reach-Grows}

-- A key that a reservation has used.
abbrev pub Shares : Reservation → Reservation → Type 0
Shares r r' =
    (r'.request_id ≡ r.request_id)
    ⊎ (r'.binding_digest ≡ r.binding_digest)
    ⊎ (r'.approval_id ≡ r.approval_id)

-- The three keys of `r` are taken.
record Taken (r : Reservation) (m : MemoryRepository) : Type 0 where
  request : has r.request_id m.reservations ≡ true
  binding : has r.binding_digest m.bindings ≡ true
  approval : has r.approval_id m.approvals ≡ true

Extends-has :
    {V : Type 0} {t u : Table V} (k : Text) → Extends t u → has k t ≡ true → has k u ≡ true
Extends-has {t} k e h = elim (Option-cases (lookup k t)) [
  | inl none_there ↦ absurd (false≢true (rw none_there at h))
  | inr (v, there) ↦ rw (e.keeps k v there) refl
]

Grows-Taken : {m n : MemoryRepository} (r : Reservation) → Grows m n → Taken r m → Taken r n
Grows-Taken r g t = record {
  request = Extends-has r.request_id g.reservations t.request;
  binding = Extends-has r.binding_digest g.bindings t.binding;
  approval = Extends-has r.approval_id g.approvals t.approval;
}

reserve_checked-Taken :
    (q : Result StorageError (Unit {0})) (r : Reservation) (m : MemoryRepository)
    → (reserve_checked q r m).0 ≡ ok tt
    → Taken r (reserve_checked q r m).1
reserve_checked-Taken (err e) r m h = cc
reserve_checked-Taken (ok u) r m h = record {
  request =
      ground
        (arith, lookup-add_self r.request_id (r.nonce ++ (b':' ∷ r.expires_at)) m.reservations);
  binding = ground (arith, lookup-add_self r.binding_digest r.request_id m.bindings);
  approval = ground (arith, lookup-add_self r.approval_id r.request_id m.approvals);
}

reserve-Taken :
    (r : Reservation) (m : MemoryRepository)
    → (reserve_request r m).0 ≡ ok tt
    → Taken r (reserve_request r m).1
unfolding reserve_request
reserve-Taken r m h = reserve_checked-Taken (validate_reservation r) r m h

refused :
    (q : Result StorageError (Unit {0})) (r : Reservation) (n : MemoryRepository)
    → (has r.request_id n.reservations ≡ true)
      ⊎ (has r.binding_digest n.bindings ≡ true)
      ⊎ (has r.approval_id n.approvals ≡ true)
    → ((reserve_checked q r n).0 ≢ ok tt) × ((reserve_checked q r n).1 ≡ n)
refused (err e) r n h = (λ p. cc, refl)
refused (ok u) r n h = (ground arith, ground arith)

-- A reservation whose request ID, binding digest or approval is taken is refused, and changes
-- nothing.
Taken-refused :
    (r r' : Reservation) (n : MemoryRepository)
    → Taken r n
    → Shares r r'
    → ((reserve_request r' n).0 ≢ ok tt) × ((reserve_request r' n).1 ≡ n)
unfolding reserve_request
Taken-refused r r' n t (inl e) = refused (validate_reservation r') r' n (inl (rw e t.request))
Taken-refused r r' n t (inr (inl e)) =
    refused (validate_reservation r') r' n (inr (inl (rw e t.binding)))
Taken-refused r r' n t (inr (inr e)) =
    refused (validate_reservation r') r' n (inr (inr (rw e t.approval)))

-- Once a reservation has succeeded, then whatever operations are made afterwards, every
-- reservation with the same request ID, the same binding digest or the same approval is refused,
-- and changes nothing.
pub reservation_single_use :
    {c : Crypto} (r r' : Reservation) (m n : MemoryRepository)
    → (reserve_request r m).0 ≡ ok tt
    → Reach c (reserve_request r m).1 n
    → Shares r r'
    → ((reserve_request r' n).0 ≢ ok tt) × ((reserve_request r' n).1 ≡ n)
reservation_single_use r r' m n h reach shares =
    Taken-refused r r' n (Grows-Taken r (Reach-Grows reach) (reserve-Taken r m h)) shares
