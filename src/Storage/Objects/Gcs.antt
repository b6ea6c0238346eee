-- ===== src/Storage/Objects/Gcs.antt =====
-- `GCSObjectStore` of internal/storage/gcs.go: an object store over the JSON API of Cloud Storage.
pub mod Protocol
pub mod Server
pub mod Once
use Prim.Native.String.{String}
use estate_ci.Prelude.{
  ℕ, ◌*◌, Bool, true, false, not, ◌&&◌, ◌||◌, Option, none, some, List, [], ◌∷◌, ◌++◌, Text, bytes,
  Result, ok, err, ℤ, pos, negsuc, leb, nat_eq, length, take, is_ok, is_empty, guard, if◌then◌else◌,
  int_text,
}
use estate_ci.Go.Http.{HttpRequest, HttpResponse, Exchange}
use estate_ci.Go.Url.{path_escape, query_escape}
use estate_ci.Storage.Repository.{StorageError, not_found, conflict, failure, Op}
use estate_ci.Storage.Actions.{return, ◌>>=◌, ◌>>◌}
use estate_ci.Storage.Objects.{Object, ObjectStore, validate_object_address}

-- What `json.Decoder` makes of a listing: the names of its items, and the token of the next page.
abbrev pub ListingDecoder : Type 0
ListingDecoder = Text → Option (List Text × Text)

pub record GcsObjectStore (W : Type 0) : Type 0 where
  pub exchange : Exchange W
  pub base_url : Text
  pub listing : ListingDecoder

-- `NewGCSObjectStore`, of a client that is not nil.
unfoldable pub new_gcs_object_store : {W : Type 0} → Exchange W → ListingDecoder → GcsObjectStore W
new_gcs_object_store exchange listing = record {
  exchange = exchange;
  base_url = bytes "https://storage.googleapis.com";
  listing = listing;
}

-- The requests. Their URLs hold escaped texts only, so that `NewRequestWithContext` does not fail.
unfoldable pub upload_request : Text → Text → Text → Text → HttpRequest
upload_request base bucket name content = record {
  method = bytes "POST";
  url =
      base
      ++ (bytes "/upload/storage/v1/b/"
          ++ (path_escape bucket
              ++ (bytes "/o?uploadType=media&ifGenerationMatch=0&name=" ++ query_escape name)));
  headers = (bytes "Content-Type", bytes "application/json") ∷ [];
  body = content;
}

unfoldable pub download_request : Text → Text → Text → HttpRequest
download_request base bucket name = record {
  method = bytes "GET";
  url =
      base
      ++ (bytes "/storage/v1/b/"
          ++ (path_escape bucket ++ (bytes "/o/" ++ (path_escape name ++ bytes "?alt=media"))));
  headers = [];
  body = [];
}

unfoldable pub listing_request : Text → Text → Text → ℤ → HttpRequest
listing_request base bucket prefix limit = record {
  method = bytes "GET";
  url =
      base
      ++ (bytes "/storage/v1/b/"
          ++ (path_escape bucket
              ++ (bytes "/o?fields=items(name),nextPageToken&maxResults="
                  ++ (int_text limit ++ (bytes "&prefix=" ++ query_escape prefix)))));
  headers = [];
  body = [];
}

unfoldable pub created : Result String HttpResponse → Result StorageError (Unit {0})
created (err e) = err (failure "create GCS object")
created (ok response) =
    if nat_eq response.status 412 || nat_eq response.status 409
    then err conflict
    else if not (nat_eq response.status 200) && not (nat_eq response.status 201)
    then err (failure "create GCS object: HTTP status")
    else ok tt

-- `io.ReadAll` of at most one byte more than 2 MiB, and the test of its length.
abbrev pub within_contract : Option Text → Result StorageError Text
within_contract none = err (failure "GCS object exceeds the 2 MiB contract")
within_contract (some content) =
    if leb (length content) (2 * 1024 * 1024)
    then ok content
    else err (failure "GCS object exceeds the 2 MiB contract")

unfoldable pub downloaded : Result String HttpResponse → Result StorageError Text
downloaded (err e) = err (failure "read GCS object")
downloaded (ok response) =
    if nat_eq response.status 404
    then err not_found
    else if not (nat_eq response.status 200)
    then err (failure "read GCS object: HTTP status")
    else within_contract response.body

abbrev pub in_page : ℤ → Bool
in_page (pos n) = leb 1 n && leb n 1000
in_page (negsuc n) = false

abbrev pub one_page : Option (List Text × Text) → Result StorageError (List Text)
one_page none = err (failure "GCS listing is invalid or exceeds its fixed bound")
one_page (some (names, token)) =
    if is_empty token
    then ok names
    else err (failure "GCS listing is invalid or exceeds its fixed bound")

-- The decoder reads at most 1 MiB.
abbrev pub decode_listing : ListingDecoder → Option Text → Result StorageError (List Text)
decode_listing listing none = err (failure "GCS listing is invalid or exceeds its fixed bound")
decode_listing listing (some content) = one_page (listing (take (1024 * 1024) content))

unfoldable pub listed :
    ListingDecoder → Result String HttpResponse → Result StorageError (List Text)
listed listing (err e) = err (failure "list GCS objects")
listed listing (ok response) =
    if not (nat_eq response.status 200)
    then err (failure "list GCS objects: HTTP status")
    else decode_listing listing response.body

-- One exchange, and what the caller makes of its response.
unfoldable pub call :
    {W A : Type 0}
    → Exchange W
    → HttpRequest
    → (Result String HttpResponse → Result StorageError A)
    → Op W A
call exchange request read w = (read (exchange request w).0, (exchange request w).1)

module _ {W : Type 0} (store : GcsObjectStore W) where
  open store use {exchange, base_url, listing}

  unfoldable pub create_object : Text → Text → Text → Op W (Unit {0})
  create_object bucket name content = do
    return (validate_object_address bucket name)
    call exchange (upload_request base_url bucket name content) created

  unfoldable pub get_object : Text → Text → Op W Text
  get_object bucket name = do
    return (validate_object_address bucket name)
    call exchange (download_request base_url bucket name) downloaded

  unfoldable pub get_objects : Text → List Text → Op W (List Object)
  get_objects bucket [] = return (ok [])
  get_objects bucket (name ∷ names) = do
    content ← get_object bucket name
    rest ← get_objects bucket names
    return (ok (record { name = name; content = content } ∷ rest))

  unfoldable pub list_objects : Text → Text → ℤ → Op W (List Object)
  list_objects bucket prefix limit = do
    return (
        guard (is_ok (validate_object_address bucket (prefix ++ bytes "sentinel")) && in_page limit)
          (failure "GCS list contract is invalid"))
    names ← call exchange (listing_request base_url bucket prefix limit) (listed listing)
    get_objects bucket names

  abbrev pub gcs_object_store : ObjectStore W
  gcs_object_store = record { create = create_object; get = get_object; list = list_objects }
