-- ===== src/Tests/CloudFixtures.antt =====
-- A concrete object store, a concrete server of one object, and decoders of fixed documents.
use Prim.Native.String.{String}
use estate_ci.Prelude.{
  ℕ, ◌≡◌, ◌≢◌, refl, ap, ◌∙◌, true, ◌&&◌, Option, none, some, List, [], ◌∷◌, Text, bytes, Result,
  ok, err, if◌then◌else◌, ◌==◌, text_instance, text_eq_iff, starts_with, arith, nat_eq, text_eq,
  ◌||◌,
}
use estate_ci.Go.Http.{HttpRequest, HttpResponse}
use estate_ci.Storage.Repository.{StorageError, conflict, not_found}
use estate_ci.Storage.Objects.{Object, ObjectStore}
use estate_ci.Storage.Objects.Laws.{IsCreateOnly}
use estate_ci.Storage.Objects.Gcs.{GcsObjectStore}
use estate_ci.Storage.Objects.Gcs.Protocol.{IsServer, insertion, retrieval}
use estate_ci.Storage.Cloud.Decoding.{Decoders}
use estate_ci.Storage.Cloud.Config.{GcsRepository}
use estate_ci.Tests.Fixtures.{test_evidence}
use estate_ci.Tests.Data.{
  sealed_request, sealed_dispatch, sealed_result, sealed_receipt, sealed_snapshot,
}

pub record Stored : Type 0 where
  pub bucket : Text
  pub name : Text
  pub content : Text

unfoldable pub test_held : List Stored → Text → Text → Option Text
test_held [] b n = none
test_held (x ∷ xs) b n = if x.bucket == b && x.name == n then some x.content else test_held xs b n

abbrev new_object :
    Option Text → Stored → List Stored → Result StorageError (Unit {0}) × List Stored
new_object none x s = (ok tt, x ∷ s)
new_object (some v) x s = (err conflict, s)

abbrev held_or_missing : Option Text → Result StorageError Text
held_or_missing none = err not_found
held_or_missing (some v) = ok v

unfoldable pub objects_under : Text → Text → List Stored → List Object
objects_under b p [] = []
objects_under b p (x ∷ xs) =
    let rest = objects_under b p xs in
    if x.bucket == b && starts_with p x.name
    then record { name = x.name; content = x.content } ∷ rest
    else rest

abbrev pub test_objects : ObjectStore (List Stored)
test_objects = record {
  create = λ b n v s. new_object (test_held s b n) (record { bucket = b; name = n; content = v }) s;
  get = λ b n s. (held_or_missing (test_held s b n), s);
  list = λ b p limit s. (ok (objects_under b p s), s);
}

new-keeps :
    (o : Option Text) (b n v b' n' w : Text) (s : List Stored)
    → test_held s b n ≡ o
    → test_held s b' n' ≡ some w
    → test_held (new_object o (record { bucket = b; name = n; content = v }) s).1 b' n' ≡ some w
unfolding test_held
new-keeps none b n v b' n' w s absent there =
    ground (arith, text_eq_iff b b', text_eq_iff n n', absent, there)
new-keeps (some u) b n v b' n' w s absent there = there

new-new :
    (o : Option Text) (b n v : Text) (s : List Stored)
    → (new_object o (record { bucket = b; name = n; content = v }) s).0 ≡ ok tt
    → (o ≡ none)
      × (test_held (new_object o (record { bucket = b; name = n; content = v }) s).1 b n ≡ some v)
unfolding test_held
new-new none b n v s h = (refl, ground (arith, text_eq_iff b b, text_eq_iff n n))
new-new (some u) b n v s h = absurd (cc)

new-conflict :
    (o : Option Text) (b n v : Text) (s : List Stored)
    → test_held s b n ≡ o
    → (new_object o (record { bucket = b; name = n; content = v }) s).0 ≡ err conflict
    → (w : Text) × (test_held (new_object o (record { bucket = b; name = n; content = v }) s).1 b n
        ≡ some w)
new-conflict none b n v s same h = absurd (cc)
new-conflict (some u) b n v s same h = (u, same)

held-held : (o : Option Text) (v : Text) → held_or_missing o ≡ ok v → o ≡ some v
held-held none v h = cc
held-held (some u) v h = cc

held-found : (o : Option Text) (v : Text) → o ≡ some v → held_or_missing o ≢ err not_found
held-found none v h = cc
held-found (some u) v h = λ e. cc

pub test-IsCreateOnly : IsCreateOnly test_objects test_held
test-IsCreateOnly = record {
  create_keeps = λ b n v b' n' w s h. new-keeps (test_held s b n) b n v b' n' w s refl h;
  get_keeps = λ b n b' n' w s h. h;
  list_keeps = λ b p limit b' n' w s h. h;
  create_new = λ b n v s h. new-new (test_held s b n) b n v s h;
  create_conflict = λ b n v s h. new-conflict (test_held s b n) b n v s refl h;
  get_held = λ b n v s h. held-held (test_held s b n) v h;
  get_found = λ b n v s h. held-found (test_held s b n) v h;
}

abbrev pub test_cloud : GcsRepository (List Stored)
test_cloud = record {
  objects = test_objects;
  health_bucket = bytes "estate-health";
  audit_bucket = bytes "estate-audit";
}

-- Decoders that know one document of each kind.
abbrev pub test_decoders : Decoders
test_decoders = record {
  snapshot = λ raw. some (sealed_snapshot, []);
  evidence = λ raw. some (test_evidence, []);
  request = λ raw. some (sealed_request, []);
  dispatch = λ raw. some (sealed_dispatch, []);
  result = λ raw. some (sealed_result, []);
  receipt = λ raw. some (sealed_receipt, []);
}

-- A server that has room for one object.
abbrev answer : ℕ → Option Text → HttpResponse
answer status body = record { status = status; header = λ name. []; body = body }

abbrev pub answer_upload : Text → Option Text → Result String HttpResponse × Option Text
answer_upload content none = (ok (answer 200 (some [])), some content)
answer_upload content (some v) = (ok (answer 412 (some [])), some v)

abbrev pub answer_read : Option Text → Result String HttpResponse × Option Text
answer_read none = (ok (answer 404 none), none)
answer_read (some v) = (ok (answer 200 (some v)), some v)

unfoldable pub one_object : HttpRequest → Option Text → Result String HttpResponse × Option Text
one_object r w = if r.method == bytes "POST" then answer_upload r.body w else answer_read w

abbrev pub one_object_store : GcsObjectStore (Option Text)
one_object_store = record {
  exchange = one_object;
  base_url = bytes "https://storage.googleapis.com";
  listing = λ raw. none;
}

abbrev pub one_held : Option Text → Text → Text → Option Text
one_held w b n = w

upload-keeps : (v u : Text) (w : Option Text) → w ≡ some u → (answer_upload v w).1 ≡ some u
upload-keeps v u none h = cc
upload-keeps v u (some x) h = h

read-keeps : (u : Text) (w : Option Text) → w ≡ some u → (answer_read w).1 ≡ some u
read-keeps u none h = cc
read-keeps u (some x) h = h

status_is :
    {r r' : HttpResponse}
    → ◌≡◌ {A = Result String HttpResponse} (ok r) (ok r')
    → r.status ≡ r'.status
status_is h = ap (λ q. elim q [ ok r ↦ r.status | err e ↦ 0 ]) h

upload-created :
    (v : Text) (r : HttpResponse) (w : Option Text)
    → (answer_upload v w).0 ≡ ok r
    → (nat_eq r.status 200 || nat_eq r.status 201) ≡ true
    → (w ≡ none) × ((answer_upload v w).1 ≡ some v)
upload-created v r none h s = (refl, refl)
upload-created v r (some x) h s = absurd (ground (arith, status_is h))

upload-refused :
    (v : Text) (r : HttpResponse) (w : Option Text)
    → (answer_upload v w).0 ≡ ok r
    → (nat_eq r.status 412 || nat_eq r.status 409) ≡ true
    → (u : Text) × ((answer_upload v w).1 ≡ some u)
upload-refused v r none h s = absurd (ground (arith, status_is h))
upload-refused v r (some x) h s = (x, refl)

read-found :
    (r : HttpResponse) (w : Option Text) (v : Text)
    → (answer_read w).0 ≡ ok r
    → nat_eq r.status 200 ≡ true
    → r.body ≡ some v
    → w ≡ some v
read-found r none v h s e = absurd (ground (arith, status_is h))
read-found r (some x) v h s e = ap (λ q. elim q [ ok a ↦ a.body | err m ↦ none ]) h ∙ e

read-missing :
    (r : HttpResponse) (w : Option Text)
    → (answer_read w).0 ≡ ok r
    → nat_eq r.status 404 ≡ true
    → w ≡ none
read-missing r none h s = refl
read-missing r (some x) h s = absurd (ground (arith, status_is h))

pub one_object-IsServer : IsServer one_object_store one_held
unfolding one_object insertion retrieval text_eq bytes
one_object-IsServer = record {
  gets_keep = λ request b n v w get h. rw get (read-keeps v w h);
  inserts_keep = λ bucket content ps headers b n v w m h. upload-keeps content v w h;
  insert_absent = λ bucket name content ps headers r w m k h s. (upload-created content r w h s).0;
  insert_refused = λ bucket name content ps headers r w m k h s. upload-refused content r w h s;
  insert_stored = λ bucket name content ps headers r w m k h s. (upload-created content r w h s).1;
  media_found = λ bucket name ps r w m h s v e. read-found r w v h s e;
  media_missing = λ bucket name ps r w m h s. read-missing r w h s;
}
