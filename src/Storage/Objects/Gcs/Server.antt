-- ===== src/Storage/Objects/Gcs/Server.antt =====
-- `GCSObjectStore` of internal/storage/gcs.go over the documented JSON API.
use Prim.Native.String.{String}
use estate_ci.Prelude.{
  ◌≡◌, ◌≢◌, refl, true, ◌||◌, Option, none, some, List, [], ◌∷◌, Text, Result, ok, err, ℤ, nat_eq,
  arith, ◌⊎◌, inl, inr, ap, sym, ◌∙◌,
}
use estate_ci.Go.Http.{HttpResponse}
use estate_ci.Storage.Repository.{StorageError, conflict, not_found, failure, Op, guards-cases}
use estate_ci.Storage.Actions.{return, ◌>>=◌, Preserves, Preserves-bind, Preserves-return}
use estate_ci.Storage.Objects.{validate_object_address}
use estate_ci.Storage.Objects.Laws.{IsCreateOnly}
use estate_ci.Storage.Objects.Gcs.Protocol.{
  IsServer, upload_parameters, download_parameters, upload_headers, upload_request-insertion,
  download_request-retrieval, download_request-get, listing_request-get, Says-match, Says-name,
  Says-upload, Says-media,
}
use estate_ci.Storage.Objects.Gcs.{
  GcsObjectStore, upload_request, download_request, listing_request, created, downloaded, call,
  listed, create_object, get_object, get_objects, list_objects, gcs_object_store, within_contract,
}

-- What each outcome says of the response.
pub created-ok :
    (q : Result String HttpResponse)
    → created q ≡ ok tt
    → (r : HttpResponse) × (q ≡ ok r) × ((nat_eq r.status 200 || nat_eq r.status 201) ≡ true)
unfolding created
created-ok (err e) h = cc
created-ok (ok r) h = (r, refl, ground arith)

created-conflict :
    (q : Result String HttpResponse)
    → created q ≡ err conflict
    → (r : HttpResponse) × (q ≡ ok r) × ((nat_eq r.status 412 || nat_eq r.status 409) ≡ true)
unfolding created
created-conflict (err e) h = cc
created-conflict (ok r) h = (r, refl, ground arith)

contract-ok : (body : Option Text) (v : Text) → within_contract body ≡ ok v → body ≡ some v
contract-ok none v h = cc
contract-ok (some content) v h = ground arith

contract-found : (body : Option Text) → within_contract body ≢ err not_found
contract-found none = λ h. cc
contract-found (some content) = λ h. ground arith

downloaded-ok :
    (q : Result String HttpResponse) (v : Text)
    → downloaded q ≡ ok v
    → (r : HttpResponse) × (q ≡ ok r) × (nat_eq r.status 200 ≡ true) × (r.body ≡ some v)
unfolding downloaded
downloaded-ok (err e) v h = cc
downloaded-ok (ok r) v h = (r, refl, ground arith, ground (arith, contract-ok r.body v))

downloaded-not_found :
    (q : Result String HttpResponse)
    → downloaded q ≡ err not_found
    → (r : HttpResponse) × (q ≡ ok r) × (nat_eq r.status 404 ≡ true)
unfolding downloaded
downloaded-not_found (err e) h = cc
downloaded-not_found (ok r) h = (r, refl, ground (arith, contract-found r.body))

-- The address check fails with a message only.
pub address-cases :
    (bucket name : Text)
    → (validate_object_address bucket name ≡ ok tt)
      ⊎ ((m : String) × (validate_object_address bucket name ≡ err (failure m)))
unfolding validate_object_address
address-cases bucket name = guards-cases _ _ _ _

-- A call that ends with anything else has passed the check.
passed :
    {W A : Type 0} (q : Result StorageError (Unit {0})) (op : Op W A) (w : W)
    (out : Result StorageError A)
    → (q ≡ ok tt) ⊎ ((m : String) × (q ≡ err (failure m)))
    → ((m : String) → out ≢ err (failure m))
    → ((return q >>= λ _. op) w).0 ≡ out
    → (return q >>= λ _. op) w ≡ op w
unfolding return ◌>>=◌
passed q op w out (inl e) other h = rw e refl
passed q op w out (inr (m, e)) other h = absurd (other m (cc))

module _ {W : Type 0} (store : GcsObjectStore W) (held : W → Text → Text → Option Text)
    (server : IsServer store held) where
  open store use {exchange, base_url, listing}

  abbrev Holds : Text → Text → Text → W → Type 0
  Holds b n u w = held w b n ≡ some u

  upload-Holds :
      (b n u bucket name content : Text)
      → Preserves
          (Holds b n u)
          (call exchange (upload_request base_url bucket name content) created)
  unfolding call
  upload-Holds b n u bucket name content = record {
    from = λ w h. rw (upload_request-insertion base_url bucket name content) (
        server.inserts_keep bucket content (upload_parameters name) upload_headers b n u w
          (Says-match name) h);
  }

  create-Holds :
      (b n u bucket name content : Text)
      → Preserves (Holds b n u) (create_object store bucket name content)
  unfolding create_object
  create-Holds b n u bucket name content =
      Preserves-bind _ _ (Preserves-return _) (λ _. upload-Holds b n u bucket name content)

  download-Holds :
      (b n u bucket name : Text)
      → Preserves (Holds b n u) (call exchange (download_request base_url bucket name) downloaded)
  unfolding call
  download-Holds b n u bucket name = record {
    from = λ w h. server.gets_keep _ b n u w (download_request-get base_url bucket name) h;
  }

  get-Holds : (b n u bucket name : Text) → Preserves (Holds b n u) (get_object store bucket name)
  unfolding get_object
  get-Holds b n u bucket name =
      Preserves-bind _ _ (Preserves-return _) (λ _. download-Holds b n u bucket name)

  gets-Holds :
      (b n u bucket : Text) (names : List Text)
      → Preserves (Holds b n u) (get_objects store bucket names)
  unfolding get_objects
  gets-Holds b n u bucket [] = Preserves-return _
  gets-Holds b n u bucket (name ∷ names) =
      Preserves-bind _ _ (get-Holds b n u bucket name)
        λ content. Preserves-bind _ _ (gets-Holds b n u bucket names) λ rest. Preserves-return _

  page-Holds :
      (b n u bucket prefix : Text) (limit : ℤ)
      → Preserves
          (Holds b n u)
          (call exchange (listing_request base_url bucket prefix limit) (listed listing))
  unfolding call
  page-Holds b n u bucket prefix limit = record {
    from = λ w h. server.gets_keep _ b n u w (listing_request-get base_url bucket prefix limit) h;
  }

  list-Holds :
      (b n u bucket prefix : Text) (limit : ℤ)
      → Preserves (Holds b n u) (list_objects store bucket prefix limit)
  unfolding list_objects
  list-Holds b n u bucket prefix limit =
      Preserves-bind _ _ (Preserves-return _)
        λ _. Preserves-bind _ _ (page-Holds b n u bucket prefix limit) (gets-Holds b n u bucket)

  abbrev upload : Text → Text → Text → Op W (Unit {0})
  upload b n v = call exchange (upload_request base_url b n v) created

  abbrev download : Text → Text → Op W Text
  download b n = call exchange (download_request base_url b n) downloaded

  upload_new :
      (b n v : Text) (w : W)
      → (upload b n v w).0 ≡ ok tt
      → (held w b n ≡ none) × (held (upload b n v w).1 b n ≡ some v)
  unfolding call
  upload_new b n v w h =
      let same = upload_request-insertion base_url b n v in
      let (r, got, status) = created-ok (exchange (upload_request base_url b n v) w).0 h in
      let answer = sym (ap (λ request. (exchange request w).0) same) ∙ got in
      (
        server.insert_absent b n v (upload_parameters n) upload_headers r w (Says-match n)
            (Says-name n) answer status,
        rw same (
            server.insert_stored b n v (upload_parameters n) upload_headers r w (Says-upload n)
              (Says-name n) answer status),
      )

  upload_conflict :
      (b n v : Text) (w : W)
      → (upload b n v w).0 ≡ err conflict
      → (u : Text) × (held (upload b n v w).1 b n ≡ some u)
  unfolding call
  upload_conflict b n v w h =
      let (r, got, status) = created-conflict (exchange (upload_request base_url b n v) w).0 h in
      let same = upload_request-insertion base_url b n v in
      rw same (
        server.insert_refused b n v (upload_parameters n) upload_headers r w (Says-match n)
          (Says-name n) (sym (ap (λ request. (exchange request w).0) same) ∙ got) status)

  download_held : (b n v : Text) (w : W) → (download b n w).0 ≡ ok v → held w b n ≡ some v
  unfolding call
  download_held b n v w h =
      let (r, got, status, arrived) =
        downloaded-ok (exchange (download_request base_url b n) w).0 v h in
      server.media_found b n download_parameters r w Says-media
        (sym (ap (λ request. (exchange request w).0) (download_request-retrieval base_url b n))
          ∙ got)
        status v arrived

  download_not_found : (b n : Text) (w : W) → (download b n w).0 ≡ err not_found → held w b n ≡ none
  unfolding call
  download_not_found b n w h =
      let (r, got, status) =
        downloaded-not_found (exchange (download_request base_url b n) w).0 h in
      server.media_missing b n download_parameters r w Says-media
        (sym (ap (λ request. (exchange request w).0) (download_request-retrieval base_url b n))
          ∙ got)
        status

  pub gcs-IsCreateOnly : IsCreateOnly (gcs_object_store store) held
  unfolding create_object get_object
  gcs-IsCreateOnly = record {
    create_keeps = λ b n v b' n' u w h. (create-Holds b' n' u b n v).from w h;
    get_keeps = λ b n b' n' u w h. (get-Holds b' n' u b n).from w h;
    list_keeps = λ b p limit b' n' u w h. (list-Holds b' n' u b p limit).from w h;
    create_new = λ b n v w h.
        let same = passed _ (upload b n v) w _ (address-cases b n) (λ m k. cc) h in
        rw same (upload_new b n v w (ap (λ out. out.0) (sym same) ∙ h));
    create_conflict = λ b n v w h.
        let same = passed _ (upload b n v) w _ (address-cases b n) (λ m k. cc) h in
        rw same (upload_conflict b n v w (ap (λ out. out.0) (sym same) ∙ h));
    get_held = λ b n v w h.
        let same = passed _ (download b n) w _ (address-cases b n) (λ m k. cc) h in
        download_held b n v w (ap (λ out. out.0) (sym same) ∙ h);
    get_found = λ b n v w there h.
        let same = passed _ (download b n) w _ (address-cases b n) (λ m k. cc) h in
        let missing = download_not_found b n w (ap (λ out. out.0) (sym same) ∙ h) in cc;
  }
