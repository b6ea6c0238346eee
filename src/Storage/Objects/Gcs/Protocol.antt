-- ===== src/Storage/Objects/Gcs/Protocol.antt =====
-- The JSON API of Cloud Storage, as its documentation describes it, and the requests that
-- internal/storage/gcs.go makes of it.
use estate_ci.Prelude.{
  ◌≡◌, refl, Bool, true, ◌||◌, Option, none, some, List, [], ◌∷◌, ◌++◌, Text, bytes, ok, ℤ, nat_eq,
  ◌==◌, text_instance, if◌then◌else◌, text_eq,
}
use estate_ci.Go.Http.{HttpRequest, HttpResponse}
use estate_ci.Go.Url.{path_escape, query_escape}
use estate_ci.Storage.Objects.Gcs.{
  GcsObjectStore, upload_request, download_request, listing_request,
}

abbrev pub Parameters : Type 0
Parameters = List (Text × Text)

-- The parameters of a query, escaped.
unfoldable pub query_text : Parameters → Text
query_text [] = []
query_text ((k, v) ∷ []) = query_escape k ++ (b'=' ∷ query_escape v)
query_text ((k, v) ∷ p ∷ ps) =
    query_escape k ++ (b'=' ∷ (query_escape v ++ (b'&' ∷ query_text (p ∷ ps))))

-- What a query says of `key`.
unfoldable pub values_of : Text → Parameters → List Text
values_of key [] = []
values_of key ((k, v) ∷ ps) = if k == key then v ∷ values_of key ps else values_of key ps

-- A query that says `value` of `key`, once.
abbrev pub Says : Parameters → Text → Text → Type 0
Says ps key value = values_of key ps ≡ value ∷ []

-- `Objects: insert`, with the object's content as the body.
unfoldable pub insertion : Text → Text → Parameters → List (Text × Text) → Text → HttpRequest
insertion base bucket ps headers content = record {
  method = bytes "POST";
  url =
      base
      ++ (bytes "/upload/storage/v1/b/" ++ (path_escape bucket ++ (bytes "/o?" ++ query_text ps)));
  headers = headers;
  body = content;
}

-- `Objects: get`
unfoldable pub retrieval : Text → Text → Text → Parameters → HttpRequest
retrieval base bucket name ps = record {
  method = bytes "GET";
  url =
      base
      ++ (bytes "/storage/v1/b/"
          ++ (path_escape bucket
              ++ (bytes "/o/" ++ (path_escape name ++ (bytes "?" ++ query_text ps)))));
  headers = [];
  body = [];
}

abbrev pub is_success : HttpResponse → Bool
is_success r = nat_eq r.status 200 || nat_eq r.status 201

abbrev pub is_conflict : HttpResponse → Bool
is_conflict r = nat_eq r.status 412 || nat_eq r.status 409

-- The documented behaviour. `held` is what a bucket holds under a name.
pub record IsServer {W : Type 0} (store : GcsObjectStore W) (held : W → Text → Text → Option Text)
    : Type 0 where
  -- A request with the method GET changes no object.
  pub gets_keep :
      (request : HttpRequest) (b n v : Text) (w : W)
      → request.method ≡ bytes "GET"
      → held w b n ≡ some v
      → held (store.exchange request w).1 b n ≡ some v
  -- With `ifGenerationMatch=0`, an insertion changes no object that is there,
  pub inserts_keep :
      (bucket content : Text) (ps : Parameters) (headers : List (Text × Text)) (b n v : Text)
      (w : W)
      → Says ps (bytes "ifGenerationMatch") (bytes "0")
      → held w b n ≡ some v
      → held (store.exchange (insertion store.base_url bucket ps headers content) w).1 b n ≡ some v
  -- it succeeds only if there is no object of the name,
  pub insert_absent :
      (bucket name content : Text) (ps : Parameters) (headers : List (Text × Text))
      (r : HttpResponse) (w : W)
      → Says ps (bytes "ifGenerationMatch") (bytes "0")
      → Says ps (bytes "name") name
      → (store.exchange (insertion store.base_url bucket ps headers content) w).0 ≡ ok r
      → is_success r ≡ true
      → held w bucket name ≡ none
  -- and it is refused with 412 or 409 only if there is one.
  pub insert_refused :
      (bucket name content : Text) (ps : Parameters) (headers : List (Text × Text))
      (r : HttpResponse) (w : W)
      → Says ps (bytes "ifGenerationMatch") (bytes "0")
      → Says ps (bytes "name") name
      → (store.exchange (insertion store.base_url bucket ps headers content) w).0 ≡ ok r
      → is_conflict r ≡ true
      → (v : Text) × (held
            (store.exchange (insertion store.base_url bucket ps headers content) w).1
            bucket
            name
          ≡ some v)
  -- With `uploadType=media`, an insertion that succeeds, with a precondition or without, makes the
  -- body the object's content.
  pub insert_stored :
      (bucket name content : Text) (ps : Parameters) (headers : List (Text × Text))
      (r : HttpResponse) (w : W)
      → Says ps (bytes "uploadType") (bytes "media")
      → Says ps (bytes "name") name
      → (store.exchange (insertion store.base_url bucket ps headers content) w).0 ≡ ok r
      → is_success r ≡ true
      → held (store.exchange (insertion store.base_url bucket ps headers content) w).1 bucket name
        ≡ some content
  -- With `alt=media`, 200 comes with the object's content, and 404 means that there is none.
  pub media_found :
      (bucket name : Text) (ps : Parameters) (r : HttpResponse) (w : W)
      → Says ps (bytes "alt") (bytes "media")
      → (store.exchange (retrieval store.base_url bucket name ps) w).0 ≡ ok r
      → nat_eq r.status 200 ≡ true
      → (v : Text) → r.body ≡ some v
      → held w bucket name ≡ some v
  pub media_missing :
      (bucket name : Text) (ps : Parameters) (r : HttpResponse) (w : W)
      → Says ps (bytes "alt") (bytes "media")
      → (store.exchange (retrieval store.base_url bucket name ps) w).0 ≡ ok r
      → nat_eq r.status 404 ≡ true
      → held w bucket name ≡ none

abbrev pub upload_parameters : Text → Parameters
upload_parameters name =
    (bytes "uploadType", bytes "media")
    ∷ (bytes "ifGenerationMatch", bytes "0")
    ∷ (bytes "name", name)
    ∷ []

abbrev pub download_parameters : Parameters
download_parameters = (bytes "alt", bytes "media") ∷ []

abbrev pub upload_headers : List (Text × Text)
upload_headers = (bytes "Content-Type", bytes "application/json") ∷ []

pub upload_request-insertion :
    (base bucket name content : Text)
    → upload_request base bucket name content
      ≡ insertion base bucket (upload_parameters name) upload_headers content
unfolding upload_request insertion query_text query_escape bytes
upload_request-insertion base bucket name content = refl

pub download_request-retrieval :
    (base bucket name : Text)
    → download_request base bucket name ≡ retrieval base bucket name download_parameters
unfolding download_request retrieval query_text query_escape bytes
download_request-retrieval base bucket name = refl

pub download_request-get :
    (base bucket name : Text) → (download_request base bucket name).method ≡ bytes "GET"
unfolding download_request
download_request-get base bucket name = refl

pub listing_request-get :
    (base bucket prefix : Text) (limit : ℤ)
    → (listing_request base bucket prefix limit).method ≡ bytes "GET"
unfolding listing_request
listing_request-get base bucket prefix limit = refl

pub Says-match :
    (name : Text) → Says (upload_parameters name) (bytes "ifGenerationMatch") (bytes "0")
unfolding values_of bytes text_eq
Says-match name = refl

pub Says-name : (name : Text) → Says (upload_parameters name) (bytes "name") name
unfolding values_of bytes text_eq
Says-name name = refl

pub Says-upload : (name : Text) → Says (upload_parameters name) (bytes "uploadType") (bytes "media")
unfolding values_of bytes text_eq
Says-upload name = refl

pub Says-media : Says download_parameters (bytes "alt") (bytes "media")
unfolding values_of bytes text_eq
Says-media = refl
