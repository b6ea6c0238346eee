-- ===== src/Storage/Cloud/Reservations.antt =====
-- `ReserveRequest` of internal/storage/gcs.go: three objects, one after the other.
use Prim.Native.String.{String}
use estate_ci.Prelude.{
  ◌≡◌, ◌≢◌, refl, Option, Text, Result, ok, err, ◌⊎◌, inl, inr, ap, sym, ◌∙◌, is_some,
}
use estate_ci.Contract.Canonical.{write_canonical}
use estate_ci.Contract.Crypto.{Crypto}
use estate_ci.Storage.Repository.{
  StorageError, Op, Reservation, conflict, failure, validate_reservation, guards-cases,
}
use estate_ci.Storage.Actions.{return, proceed, ◌>>=◌, >>=-ok, Preserves, Preserves-bind}
use estate_ci.Storage.Objects.{ObjectStore}
use estate_ci.Storage.Objects.Laws.{IsCreateOnly}
use estate_ci.Storage.Memory.SingleUse.{Shares}
use estate_ci.Storage.Cloud.Config.{GcsRepository}
use estate_ci.Storage.Cloud.Outbox.{Holds, create-Preserves}
use estate_ci.Storage.Cloud.Decoding.{Decoders}
use estate_ci.Storage.Cloud.Names.{
  replay_request_object, replay_binding_object, replay_approval_object,
}
use estate_ci.Storage.Cloud.{reserve_request, reservation_json, or_nil}

validate_reservation-cases :
    (r : Reservation)
    → (validate_reservation r ≡ ok tt) ⊎ ((m : String) × (validate_reservation r ≡ err (failure m)))
unfolding validate_reservation
validate_reservation-cases r = guards-cases _ _ _ _

module _ {S : Type 0} {store : ObjectStore S} {held : S → Text → Text → Option Text}
    (laws : IsCreateOnly store held) (b v : Text) where
  -- An object that is there cannot be created.
  taken : (n : Text) (s : S) → Holds laws b n s → (store.create b n v s).0 ≢ ok tt
  taken n s there h = let (absent, _) = laws.create_new b n v s h in cc (ap is_some absent)

  made :
      (n : Text) (s : S)
      → (store.create b n v s).0 ≡ ok tt
      → Holds laws b n (store.create b n v s).1
  made n s h = let (_, there) = laws.create_new b n v s h in rw there refl

  kept : (m n : Text) (s : S) → Holds laws b m s → Holds laws b m (store.create b n v s).1
  kept m n s h = (create-Preserves laws b m b n v).from s h

  -- Two and three creates in a row, as long as they succeed.
  abbrev two : Text → Text → Op S (Unit {0})
  two y z = store.create b y v >>= λ _. store.create b z v

  abbrev three : Text → Text → Text → Op S (Unit {0})
  three x y z = store.create b x v >>= λ _. two y z

  two-Holds :
      (y z : Text) (s : S)
      → (two y z s).0 ≡ ok tt
      → Holds laws b y (two y z s).1 × Holds laws b z (two y z s).1
  two-Holds y z s h =
      let (_, first, e) = >>=-ok (store.create b y v) (λ _. store.create b z v) s h in
      let second : (store.create b z v (store.create b y v s).1).0 ≡ ok tt =
        ap (λ p. p.0) (sym e) ∙ h in
      rw e (kept y z _ (made y s first), made z _ second)

  two-Preserves : (x y z : Text) → Preserves (Holds laws b x) (two y z)
  two-Preserves x y z =
      Preserves-bind _ _ (create-Preserves laws b x b y v) (λ _. create-Preserves laws b x b z v)

  three-Holds :
      (x y z : Text) (s : S)
      → (three x y z s).0 ≡ ok tt
      → Holds laws b x (three x y z s).1
        × Holds laws b y (three x y z s).1
        × Holds laws b z (three x y z s).1
  three-Holds x y z s h =
      let (_, first, e) = >>=-ok (store.create b x v) (λ _. two y z) s h in
      let rest : (two y z (store.create b x v s).1).0 ≡ ok tt = ap (λ p. p.0) (sym e) ∙ h in
      let (there_y, there_z) = two-Holds y z _ rest in
      rw e ((two-Preserves x y z).from _ (made x s first), there_y, there_z)

  -- None of the three can be there before.
  three-refused :
      (x y z : Text) (s : S)
      → Holds laws b x s ⊎ Holds laws b y s ⊎ Holds laws b z s
      → (three x y z s).0 ≢ ok tt
  three-refused x y z s there h =
      let (_, first, e) = >>=-ok (store.create b x v) (λ _. two y z) s h in
      let s1 = (store.create b x v s).1 in
      let rest : (two y z s1).0 ≡ ok tt = ap (λ p. p.0) (sym e) ∙ h in
      let (_, second, e') = >>=-ok (store.create b y v) (λ _. store.create b z v) s1 rest in
      let third : (store.create b z v (store.create b y v s1).1).0 ≡ ok tt =
        ap (λ p. p.0) (sym e') ∙ rest in
      elim there [
        | inl held_x ↦ taken x s held_x first
        | inr (inl held_y) ↦ taken y s1 (kept y x s held_y) second
        | inr (inr held_z) ↦ taken z _ (kept z y s1 (kept z x s held_z)) third
      ]

  -- Whatever the two later creates do, a first create that succeeds or meets a conflict leaves its
  -- object there.
  conflict_then :
      (x : Text) (o : Result StorageError (Unit {0})) (s : S) (rest : Op S (Unit {0}))
      → Preserves (Holds laws b x) rest
      → (o ≡ ok tt → Holds laws b x s)
      → (o ≡ err conflict → Holds laws b x s)
      → (proceed (o, s) (λ _. rest)).0 ≡ err conflict
      → Holds laws b x (proceed (o, s) (λ _. rest)).1
  conflict_then x (ok u) s rest keep new old h = keep.from s (new refl)
  conflict_then x (err e) s rest keep new old h = old h

  conflicted :
      (n : Text) (s : S)
      → (store.create b n v s).0 ≡ err conflict
      → Holds laws b n (store.create b n v s).1
  conflicted n s h = let (w, there) = laws.create_conflict b n v s h in rw there refl

  first-Holds :
      (x y z : Text) (s : S) → (three x y z s).0 ≡ err conflict → Holds laws b x (three x y z s).1
  unfolding ◌>>=◌
  first-Holds x y z s h =
      conflict_then x (store.create b x v s).0 (store.create b x v s).1 (two y z)
        (two-Preserves x y z) (made x s) (conflicted x s) h

module _ {S : Type 0} (c : Crypto) (json : Decoders) (repository : GcsRepository S)
    {held : S → Text → Text → Option Text} (laws : IsCreateOnly repository.objects held) where
  abbrev payload : Reservation → Text
  payload r = or_nil (write_canonical (reservation_json r))

  abbrev creates : Reservation → Op S (Unit {0})
  creates r =
      three laws repository.audit_bucket (payload r) (replay_request_object r.request_id)
        (replay_binding_object r.binding_digest) (replay_approval_object r.approval_id)

  -- A reservation with a valid identity is the three creates, any other fails and changes nothing.
  reserve-creates :
      (r : Reservation) (s : S)
      → (reserve_request c json repository r s ≡ creates r s)
        ⊎ ((m : String) × (reserve_request c json repository r s ≡ (err (failure m), s)))
  unfolding reserve_request return ◌>>=◌
  reserve-creates r s = elim (validate_reservation-cases r) [
    | inl e ↦ inl (rw e refl)
    | inr (m, e) ↦ inr (m, rw e refl)
  ]

  -- The object of a key that `r` and `r'` share is there.
  Shares-Holds :
      (r r' : Reservation) (t : S)
      → Shares r r'
      → Holds laws repository.audit_bucket (replay_request_object r.request_id) t
        × Holds laws repository.audit_bucket (replay_binding_object r.binding_digest) t
        × Holds laws repository.audit_bucket (replay_approval_object r.approval_id) t
      → Holds laws repository.audit_bucket (replay_request_object r'.request_id) t
        ⊎ Holds laws repository.audit_bucket (replay_binding_object r'.binding_digest) t
        ⊎ Holds laws repository.audit_bucket (replay_approval_object r'.approval_id) t
  Shares-Holds r r' t (inl e) (x, y, z) = inl (rw e x)
  Shares-Holds r r' t (inr (inl e)) (x, y, z) = inr (inl (rw e y))
  Shares-Holds r r' t (inr (inr e)) (x, y, z) = inr (inr (rw e z))

  refused :
      (r' : Reservation) (t : S)
      → Holds laws repository.audit_bucket (replay_request_object r'.request_id) t
        ⊎ Holds laws repository.audit_bucket (replay_binding_object r'.binding_digest) t
        ⊎ Holds laws repository.audit_bucket (replay_approval_object r'.approval_id) t
      → (reserve_request c json repository r' t).0 ≢ ok tt
  refused r' t there h = elim (reserve-creates r' t) [
    | inl e ↦ three-refused laws _ _ _ _ _ t there (ap (λ p. p.0) (sym e) ∙ h)
    | inr (m, e) ↦ cc (ap (λ p. p.0) (sym e) ∙ h)
  ]

  -- In the Cloud Storage repository, after a reservation has succeeded, and in every later state in
  -- which the objects of the audit bucket are still there, a reservation that shares its request ID,
  -- its binding digest or its approval does not succeed.
  pub cloud_reservation_single_use :
      (r r' : Reservation) (s t : S)
      → (reserve_request c json repository r s).0 ≡ ok tt
      → ((n : Text)
          → Holds laws repository.audit_bucket n (reserve_request c json repository r s).1
          → Holds laws repository.audit_bucket n t)
      → Shares r r'
      → (reserve_request c json repository r' t).0 ≢ ok tt
  cloud_reservation_single_use r r' s t h later shared = elim (reserve-creates r s) [
    | inl e ↦
        let (x, y, z) = three-Holds laws _ _ _ _ _ s (ap (λ p. p.0) (sym e) ∙ h) in
        refused r' t
          (Shares-Holds r r' t shared (later _ (rw e x), later _ (rw e y), later _ (rw e z)))
    | inr (m, e) ↦ absurd (cc (ap (λ p. p.0) (sym e) ∙ h))
  ]

  -- In the Cloud Storage repository a refused reservation is not undone: one that ends in a conflict
  -- leaves its request ID used, so that in every later state in which the objects of the audit
  -- bucket are still there no reservation for this request ID succeeds.
  pub conflict_uses_request_id :
      (r r' : Reservation) (s t : S)
      → (reserve_request c json repository r s).0 ≡ err conflict
      → ((n : Text)
          → Holds laws repository.audit_bucket n (reserve_request c json repository r s).1
          → Holds laws repository.audit_bucket n t)
      → r'.request_id ≡ r.request_id
      → (reserve_request c json repository r' t).0 ≢ ok tt
  conflict_uses_request_id r r' s t h later same = elim (reserve-creates r s) [
    | inl e ↦
        let there = first-Holds laws _ _ _ _ _ s (ap (λ p. p.0) (sym e) ∙ h) in
        refused r' t (inl (rw same (later _ (rw e there))))
    | inr (m, e) ↦ absurd (cc (ap (λ p. p.0) (sym e) ∙ h))
  ]
