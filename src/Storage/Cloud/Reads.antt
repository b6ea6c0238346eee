-- ===== src/Storage/Cloud/Reads.antt =====
-- The reads of internal/storage/gcs.go.
use Prim.Native.String.{String}
use estate_ci.Prelude.{
  ◌≡◌, refl, true, Option, some, [], Text, Result, ok, err, ap, sym, ◌∙◌, text_instance,
  text_eq_iff, guard, arith, on_error-eq-ok, guard-ok,
}
use estate_ci.Go.Time.{zero_time}
use estate_ci.Contract.Canonical.{write_canonical}
use estate_ci.Contract.Crypto.{Crypto}
use estate_ci.Contract.Json.{Json}
use estate_ci.Contract.Models.{OperationDispatch, OperationReceipt}
use estate_ci.Contract.Dispatch.{dispatch_json, verify_dispatch_digest}
use estate_ci.Contract.Receipt.{verify_receipt_digest}
use estate_ci.Contract.Patterns.{is_request_id}
use estate_ci.Storage.Repository.{not_found}
use estate_ci.Storage.Actions.{return, >>=-ok, >>=-of}
use estate_ci.Storage.Objects.Laws.{IsCreateOnly}
use estate_ci.Storage.Cloud.Config.{GcsRepository}
use estate_ci.Storage.Cloud.Decoding.{Decoders, Decoder, checked, strict_json}
use estate_ci.Storage.Cloud.Names.{dispatch_object, is_receipt_object}
use estate_ci.Storage.Cloud.Outbox.{verified_id}
use estate_ci.Storage.Cloud.{put_dispatch, get_dispatch, verify_receipt_at, get_receipt_by_object}

-- `json.Decoder` reads back what `CanonicalJSON` has written for `value`.
abbrev pub Decodes : {A : Type 0} → Decoder A → (A → Json) → A → Type 0
Decodes decoder json value =
    (payload : Text)
    → write_canonical (json value) ≡ ok payload
    → decoder payload ≡ some (value, [])

-- What is checked and let through satisfies the check.
pub checked-ok :
    {E A : Type 0} (e : E) (verify : A → Result String (Unit {0})) (q : Result String A) (a : A)
    → checked e verify q ≡ ok a
    → verify a ≡ ok tt
checked-ok e verify (err d) a h = cc
checked-ok e verify (ok b) a h = ground arith

checked-of :
    {E A : Type 0} (e : E) (verify : A → Result String (Unit {0})) (a : A)
    → verify a ≡ ok tt
    → checked e verify (ok a) ≡ ok a
checked-of e verify a h = rw (h, checked) refl

pub strict_json-of :
    {A : Type 0} (decoder : Decoder A) (raw : Text) (a : A)
    → decoder raw ≡ some (a, [])
    → strict_json decoder raw ≡ ok a
unfolding strict_json
strict_json-of decoder raw a h = rw h refl

some-inj : {A : Type 0} {a b : A} → some a ≡ some b → a ≡ b
some-inj h = cc

module _ {S : Type 0} (c : Crypto) (json : Decoders) (repository : GcsRepository S)
    {held : S → Text → Text → Option Text} (laws : IsCreateOnly repository.objects held) where
  put_dispatch-ok :
      (d : OperationDispatch) (s : S)
      → (put_dispatch c json repository d s).0 ≡ ok tt
      → (payload : Text) × (write_canonical (dispatch_json d) ≡ ok payload)
        × (verify_dispatch_digest c zero_time d ≡ ok tt)
        × (put_dispatch c json repository d s
            ≡ repository.objects.create repository.audit_bucket
                (dispatch_object d.request_id)
                payload
                s)
  unfolding put_dispatch return
  put_dispatch-ok d s h =
      let (u, verified, e) = >>=-ok (return _) _ s h in
      let (payload, written, e') = >>=-ok (return _) _ s (ap (λ p. p.0) (sym e) ∙ h) in
      (payload, on_error-eq-ok _ _ written, on_error-eq-ok _ _ verified, e ∙ e')

  get_dispatch-of :
      (id : Text) (d : OperationDispatch) (raw : Text) (s : S)
      → is_request_id id ≡ true
      → (repository.objects.get repository.audit_bucket (dispatch_object id) s).0 ≡ ok raw
      → strict_json json.dispatch raw ≡ ok d
      → verify_dispatch_digest c zero_time d ≡ ok tt
      → (get_dispatch c json repository id s).0 ≡ ok d
  unfolding get_dispatch return
  get_dispatch-of id d raw s valid read decoded verified =
      let e = >>=-of (return (guard (is_request_id id) not_found)) _ s tt (rw valid refl) in
      let e' =
        >>=-of (repository.objects.get repository.audit_bucket (dispatch_object id)) _ s raw read in
      ap (λ p. p.0) (e ∙ e')
      ∙ rw decoded (checked-of _ (verify_dispatch_digest c zero_time) d verified)

  -- A dispatch record that has been put is read back as it was, as soon as its object can be read.
  pub cloud_dispatch_read_back :
      (d : OperationDispatch) (s : S) (raw : Text)
      → Decodes json.dispatch dispatch_json d
      → (put_dispatch c json repository d s).0 ≡ ok tt
      → (repository.objects.get repository.audit_bucket
          (dispatch_object d.request_id)
          (put_dispatch c json repository d s).1).0
        ≡ ok raw
      → (get_dispatch c json repository d.request_id (put_dispatch c json repository d s).1).0
        ≡ ok d
  cloud_dispatch_read_back d s raw decodes put read =
      let (payload, written, verified, made) = put_dispatch-ok d s put in
      let (absent, there) =
        laws.create_new repository.audit_bucket (dispatch_object d.request_id) payload s
          (ap (λ p. p.0) (sym made) ∙ put) in
      let held_raw =
        laws.get_held repository.audit_bucket (dispatch_object d.request_id) raw
          (put_dispatch c json repository d s).1 read in
      let same : payload ≡ raw = some-inj (sym (rw made there) ∙ held_raw) in
      get_dispatch-of d.request_id d raw _ (verified_id c d verified) read
        (strict_json-of json.dispatch raw d (rw (← same) (decodes payload written))) verified

  verify_receipt_at-ok :
      (name : Text) (r : OperationReceipt)
      → verify_receipt_at c json repository name r ≡ ok tt
      → (r.audit_object ≡ name) × (verify_receipt_digest c zero_time r ≡ ok tt)
  unfolding verify_receipt_at
  verify_receipt_at-ok name r h = ground (arith, text_eq_iff r.audit_object name)

  -- A receipt that is read by its object's name has a digest that verifies, and names that object.
  cloud_receipt_by_object :
      (name : Text) (s : S) (r : OperationReceipt)
      → (get_receipt_by_object c json repository name s).0 ≡ ok r
      → (is_receipt_object name ≡ true)
        × (r.audit_object ≡ name)
        × (verify_receipt_digest c zero_time r ≡ ok tt)
  unfolding get_receipt_by_object return
  cloud_receipt_by_object name s r h =
      let (u, valid, e) = >>=-ok (return (guard (is_receipt_object name) not_found)) _ s h in
      let (raw, read, e') =
        >>=-ok (repository.objects.get repository.audit_bucket name) _ s
          (ap (λ p. p.0) (sym e) ∙ h) in
      let verified =
        checked-ok _ (verify_receipt_at c json repository name) (strict_json json.receipt raw) r
          (ap (λ p. p.0) (sym (e ∙ e')) ∙ h) in
      let (same, sealed) = verify_receipt_at-ok name r verified in
      (guard-ok _ _ valid, same, sealed)
