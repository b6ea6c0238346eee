-- ===== src/Storage/Cloud/Reading.antt =====
-- The documents of listed objects: internal/storage/gcs.go.
use estate_ci.Prelude.{
  List, [], ◌∷◌, Text, Result, ok, err, ◌>>=◌, if◌then◌else◌, text_instance, text_lt,
}
use estate_ci.Go.Time.{zero_time}
use estate_ci.Contract.Crypto.{Crypto}
use estate_ci.Contract.Models.{OperationReceipt}
use estate_ci.Contract.Snapshot.{EstateHealthSnapshot, verify_snapshot}
use estate_ci.Contract.Receipt.{verify_receipt_digest}
use estate_ci.Storage.Repository.{StorageError, not_found, failure}
use estate_ci.Storage.Objects.{Object}
use estate_ci.Storage.Cloud.Names.{is_receipt_of}
use estate_ci.Storage.Cloud.Decoding.{Decoders, strict_json, checked}

-- `sort.Slice` by `ObservedAt`, the latest first.
unfoldable pub insert_snapshot :
    EstateHealthSnapshot → List EstateHealthSnapshot → List EstateHealthSnapshot
insert_snapshot s [] = s ∷ []
insert_snapshot s (q ∷ qs) =
    if text_lt s.observed_at q.observed_at then q ∷ insert_snapshot s qs else s ∷ q ∷ qs

unfoldable pub sort_snapshots : List EstateHealthSnapshot → List EstateHealthSnapshot
sort_snapshots [] = []
sort_snapshots (s ∷ ss) = insert_snapshot s (sort_snapshots ss)

module _ (c : Crypto) (json : Decoders) where
  -- A listed receipt, as `GetReceipt` and `ListReceipts` read it.
  unfoldable pub receipt_in : Object → Result StorageError OperationReceipt
  receipt_in o =
      checked (failure "stored operation receipt is invalid") (verify_receipt_digest c zero_time)
        (strict_json json.receipt o.content)

  -- The loop of `GetReceipt`: the first object with the receipt's file name.
  unfoldable pub find_receipt : Text → List Object → Result StorageError OperationReceipt
  find_receipt receipt_id [] = err not_found
  find_receipt receipt_id (o ∷ os) =
      if is_receipt_of receipt_id o.name then receipt_in o else find_receipt receipt_id os

  unfoldable pub read_receipts : List Object → Result StorageError (List OperationReceipt)
  read_receipts [] = ok []
  read_receipts (o ∷ os) = do r ← receipt_in o; rs ← read_receipts os; ok (r ∷ rs)

  unfoldable pub snapshot_in : Object → Result StorageError EstateHealthSnapshot
  snapshot_in o =
      checked (failure "stored health snapshot is invalid") (verify_snapshot c)
        (strict_json json.snapshot o.content)

  unfoldable pub read_snapshots : List Object → Result StorageError (List EstateHealthSnapshot)
  read_snapshots [] = ok []
  read_snapshots (o ∷ os) = do s ← snapshot_in o; ss ← read_snapshots os; ok (s ∷ ss)

abbrev pub first_snapshot : List EstateHealthSnapshot → Result StorageError EstateHealthSnapshot
first_snapshot [] = err not_found
first_snapshot (s ∷ ss) = ok s
