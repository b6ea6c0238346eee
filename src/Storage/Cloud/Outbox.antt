-- ===== src/Storage/Cloud/Outbox.antt =====
-- The Cloud Storage repository of internal/storage/gcs.go as the store of the service.
use Prim.Native.String.{String}
use estate_ci.Prelude.{
  ◌≡◌, ◌≢◌, refl, inl, inr, Bool, true, false, Option, some, Text, Result, ok, err, is_some,
  Option-cases, guard, guard-ok, >>-eq-ok, ◌==◌, text_instance, leb, length, is_ok, and-left, ◌&&◌,
  on_error, [], arith,
}
use estate_ci.Go.Time.{zero_time}
use estate_ci.Contract.Crypto.{Crypto}
use estate_ci.Contract.Models.{
  OperationRequest, OperationDispatch, OperationDispatchResult, OperationReceipt,
}
use estate_ci.Contract.Dispatch.{verify_dispatch_digest, validate_dispatch, dispatch_schema_version}
use estate_ci.Contract.Document
use estate_ci.Contract.Patterns.{is_request_id, is_digest, is_recovery}
use estate_ci.Storage.Repository.{StorageError, Op, Reservation, conflict, not_found, failure}
use estate_ci.Storage.Actions.{return, proceed, ◌>>=◌, Preserves, preserves_rules}
use estate_ci.Storage.Objects.{ObjectStore}
use estate_ci.Storage.Objects.Laws.{IsCreateOnly}
use estate_ci.Storage.Cloud.Config.{GcsRepository}
use estate_ci.Storage.Cloud.Decoding.{Decoders, checked, strict_json}
use estate_ci.Storage.Cloud.Names.{dispatch_object}
use estate_ci.Storage.Cloud.{
  cloud_repository, put_request, get_request, put_dispatch, get_dispatch, put_dispatch_result,
  get_dispatch_result, reserve_request, get_evidence, put_receipt, get_receipt_by_object,
}
use estate_ci.Operations.Service.Laws.{IsOutbox, HasOutbox}

module _ {S : Type 0} {store : ObjectStore S} {held : S → Text → Text → Option Text}
    (laws : IsCreateOnly store held) (b n : Text) where
  -- The bucket `b` has an object `n`.
  abbrev pub Holds : S → Type 0
  Holds s = is_some (held s b n) ≡ true

  still_held :
      (s t : S) → ((w : Text) → held s b n ≡ some w → held t b n ≡ some w) → Holds s → Holds t
  still_held s t keep there = elim (Option-cases (held s b n)) [
    | inl e ↦ absurd (cc)
    | inr (w, e) ↦ rw (keep w e) refl
  ]

  pub create-Preserves : (b' n' v : Text) → Preserves Holds (store.create b' n' v)
  create-Preserves b' n' v = record {
    from = λ s h.
        still_held s (store.create b' n' v s).1 (λ w e. laws.create_keeps b' n' v b n w s e) h;
  }

  get-Preserves : (b' n' : Text) → Preserves Holds (store.get b' n')
  get-Preserves b' n' = record {
    from = λ s h. still_held s (store.get b' n' s).1 (λ w e. laws.get_keeps b' n' b n w s e) h;
  }

module _ {S : Type 0} {store : ObjectStore S} {held : S → Text → Text → Option Text}
    (laws : IsCreateOnly store held) where
  -- What the puts of the repository have in common.
  abbrev put_object :
      Result StorageError (Unit {0}) → Result StorageError Text → Text → Text → Op S (Unit {0})
  put_object q payload b n = return q >>= λ _. return payload >>= λ v. store.create b n v

  put_new :
      (q : Result StorageError (Unit {0})) (payload : Result StorageError Text) (b n : Text) (s : S)
      → (put_object q payload b n s).0 ≡ ok tt
      → (is_some (held s b n) ≡ false) × (is_some (held (put_object q payload b n s).1 b n) ≡ true)
  unfolding return ◌>>=◌
  put_new (err e) payload b n s h = (cc, cc)
  put_new (ok u) (err e) b n s h = (cc, cc)
  put_new (ok u) (ok v) b n s h =
      let (absent, there) = laws.create_new b n v s h in (rw absent refl, rw there refl)

  put_conflict :
      {E : Type 0} (message : String) (q : Result E (Unit {0})) (payload : Result String Text)
      (b n : Text) (s : S)
      → (put_object
          (on_error (failure message) q)
          (on_error (failure "canonical JSON") payload)
          b
          n
          s).0
        ≡ err conflict
      → (q ≡ ok tt)
        × (w : Text) × (held
              (put_object
                (on_error (failure message) q)
                (on_error (failure "canonical JSON") payload)
                b
                n
                s).1
              b
              n
            ≡ some w)
  unfolding return ◌>>=◌
  put_conflict message (err e) payload b n s h = (cc, [], cc)
  put_conflict message (ok u) (err e) b n s h = (cc, [], cc)
  put_conflict message (ok u) (ok v) b n s h =
      let (w, there) = laws.create_conflict b n v s h in (refl, w, there)

  -- What the reads of the repository have in common.
  abbrev read_object :
      {A : Type 0}
      → Bool
      → Text
      → Text
      → String
      → (A → Result String (Unit {0}))
      → (Text → Result String A)
      → Op S A
  read_object valid b n message verify decode = return (guard valid not_found) >>= λ _.
      store.get b n >>= λ raw. return (checked (failure message) verify (decode raw))

  checked_found :
      {A : Type 0} (message : String) (verify : A → Result String (Unit {0})) (q : Result String A)
      → checked (failure message) verify q ≢ err not_found
  checked_found message verify (err d) h = cc
  checked_found message verify (ok a) h = ground arith

  read_found :
      {A : Type 0} (valid : Bool) (b n : Text) (message : String)
      (verify : A → Result String (Unit {0})) (decode : Text → Result String A) (s : S)
      → valid ≡ true
      → ((w : Text) × (held s b n ≡ some w))
      → (read_object valid b n message verify decode s).0 ≢ err not_found
  unfolding return ◌>>=◌
  read_found false b n message verify decode s v w = λ h. cc
  read_found true b n message verify decode s v (w, there) =
      read_then (store.get b n s).0 (store.get b n s).1 (laws.get_found b n w s there)
    where
      read_then :
          (q : Result StorageError Text) (t : S)
          → q ≢ err not_found
          → (proceed (q, t) (λ raw. return (checked (failure message) verify (decode raw)))).0
            ≢ err not_found
      read_then (ok raw) t ne = checked_found message verify (decode raw)
      read_then (err e) t ne = λ h. ne (cc)

-- A dispatch record whose digest verifies has a valid request ID.
is_ok-eq-ok : {E : Type 0} (q : Result E (Unit {0})) → is_ok q ≡ true → q ≡ ok tt
is_ok-eq-ok (ok u) h = refl
is_ok-eq-ok (err e) h = cc

valid_id : (d : OperationDispatch) → validate_dispatch d ≡ ok tt → is_request_id d.request_id ≡ true
unfolding validate_dispatch
valid_id d h =
    let same : Bool =
      d.schema_version == dispatch_schema_version
      && is_request_id d.request_id
      && is_request_id d.receipt_id
      && is_digest d.request_digest
      && leb (length d.recovery_token) 4096
      && is_recovery d.recovery_token in
    let (ids, _) =
      >>-eq-ok (guard same "operation dispatch identity or recovery token is invalid") _ h in
    let all_of : same ≡ true = guard-ok same _ ids in ground arith

pub verified_id :
    (c : Crypto) (d : OperationDispatch)
    → verify_dispatch_digest c zero_time d ≡ ok tt
    → is_request_id d.request_id ≡ true
unfolding verify_dispatch_digest Document.verify_digest
verified_id c d h =
    let sealed : Bool = is_ok (validate_dispatch d) && is_digest d.digest in
    let (valid, _) = >>-eq-ok (guard sealed "operation dispatch is invalid or unsealed") _ h in
    valid_id d (is_ok-eq-ok (validate_dispatch d) (and-left _ _ (guard-ok sealed _ valid)))

module _ {S : Type 0} (c : Crypto) (json : Decoders) (repository : GcsRepository S)
    (held : S → Text → Text → Option Text) where
  -- The request has a dispatch object in the audit bucket.
  abbrev pub has_dispatch_object : S → Text → Bool
  has_dispatch_object s id = is_some (held s repository.audit_bucket (dispatch_object id))

  module _ (laws : IsCreateOnly repository.objects held) where
    -- The operations that the service calls keep every object.
    put_request-Preserves :
        (b n : Text) (x : OperationRequest)
        → Preserves (Holds laws b n) (put_request c json repository x)
    unfolding put_request
    put_request-Preserves b n x = search (preserves_rules, create-Preserves laws b n) depth 12

    get_request-Preserves :
        (b n : Text) (x : Text) → Preserves (Holds laws b n) (get_request c json repository x)
    unfolding get_request
    get_request-Preserves b n x = search (preserves_rules, get-Preserves laws b n) depth 12

    put_dispatch-Preserves :
        (b n : Text) (x : OperationDispatch)
        → Preserves (Holds laws b n) (put_dispatch c json repository x)
    unfolding put_dispatch
    put_dispatch-Preserves b n x = search (preserves_rules, create-Preserves laws b n) depth 12

    get_dispatch-Preserves :
        (b n : Text) (x : Text) → Preserves (Holds laws b n) (get_dispatch c json repository x)
    unfolding get_dispatch
    get_dispatch-Preserves b n x = search (preserves_rules, get-Preserves laws b n) depth 12

    put_dispatch_result-Preserves :
        (b n : Text) (x : OperationDispatchResult)
        → Preserves (Holds laws b n) (put_dispatch_result c json repository x)
    unfolding put_dispatch_result
    put_dispatch_result-Preserves b n x =
        search (preserves_rules, create-Preserves laws b n) depth 12

    get_dispatch_result-Preserves :
        (b n : Text) (x : Text)
        → Preserves (Holds laws b n) (get_dispatch_result c json repository x)
    unfolding get_dispatch_result
    get_dispatch_result-Preserves b n x = search (preserves_rules, get-Preserves laws b n) depth 12

    reserve_request-Preserves :
        (b n : Text) (x : Reservation)
        → Preserves (Holds laws b n) (reserve_request c json repository x)
    unfolding reserve_request
    reserve_request-Preserves b n x = search (preserves_rules, create-Preserves laws b n) depth 12

    get_evidence-Preserves :
        (b n : Text) (x : Text) → Preserves (Holds laws b n) (get_evidence c json repository x)
    unfolding get_evidence
    get_evidence-Preserves b n x = search (preserves_rules, get-Preserves laws b n) depth 12

    put_receipt-Preserves :
        (b n : Text) (x : OperationReceipt)
        → Preserves (Holds laws b n) (put_receipt c json repository x)
    unfolding put_receipt
    put_receipt-Preserves b n x = search (preserves_rules, create-Preserves laws b n) depth 12

    get_receipt_by_object-Preserves :
        (b n : Text) (x : Text)
        → Preserves (Holds laws b n) (get_receipt_by_object c json repository x)
    unfolding get_receipt_by_object
    get_receipt_by_object-Preserves b n x =
        search (preserves_rules, get-Preserves laws b n) depth 12

    pub cloud-IsOutbox : IsOutbox (cloud_repository c json repository) has_dispatch_object
    unfolding put_dispatch
    cloud-IsOutbox = record {
      get_evidence_keeps = λ x s id h.
          (get_evidence-Preserves repository.audit_bucket (dispatch_object id) x).from s h;
      reserve_keeps = λ x s id h.
          (reserve_request-Preserves repository.audit_bucket (dispatch_object id) x).from s h;
      put_request_keeps = λ x s id h.
          (put_request-Preserves repository.audit_bucket (dispatch_object id) x).from s h;
      get_request_keeps = λ x s id h.
          (get_request-Preserves repository.audit_bucket (dispatch_object id) x).from s h;
      put_dispatch_keeps = λ x s id h.
          (put_dispatch-Preserves repository.audit_bucket (dispatch_object id) x).from s h;
      get_dispatch_keeps = λ x s id h.
          (get_dispatch-Preserves repository.audit_bucket (dispatch_object id) x).from s h;
      put_result_keeps = λ x s id h.
          (put_dispatch_result-Preserves repository.audit_bucket (dispatch_object id) x).from s h;
      get_result_keeps = λ x s id h.
          (get_dispatch_result-Preserves repository.audit_bucket (dispatch_object id) x).from s h;
      put_receipt_keeps = λ x s id h.
          (put_receipt-Preserves repository.audit_bucket (dispatch_object id) x).from s h;
      get_object_keeps = λ x s id h.
          (get_receipt_by_object-Preserves repository.audit_bucket (dispatch_object id) x).from s h;
      put_dispatch_new =
          λ d s h. put_new laws _ _ repository.audit_bucket (dispatch_object d.request_id) s h;
    }

    pub cloud-HasOutbox : HasOutbox (cloud_repository c json repository)
    unfolding put_dispatch get_dispatch
    cloud-HasOutbox = record {
      conflict_found = λ d s h.
          let (fine, w, there) =
            put_conflict laws _ _ _ repository.audit_bucket (dispatch_object d.request_id) s h in
          read_found laws (is_request_id d.request_id) repository.audit_bucket
            (dispatch_object d.request_id) "stored operation dispatch is invalid"
            (verify_dispatch_digest c zero_time) (strict_json json.dispatch) _
            (verified_id c d fine) (w, there);
    }
