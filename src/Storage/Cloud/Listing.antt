-- ===== src/Storage/Cloud/Listing.antt =====
-- `ListReceipts` of internal/storage/gcs.go.
use estate_ci.Prelude.{
  ◌≡◌, ◌≤◌, refl, true, List, [], ◌∷◌, ok, ap, sym, ◌∙◌, ℤ, ℕ, zero, suc, pos, negsuc, take, length,
  All, guard, arith, text_lt, >>=-eq-ok, Bool-cases, inl, inr, guard-ok, length-take, ok-inj, subst,
  bytes,
}
use estate_ci.Go.Time.{zero_time}
use estate_ci.Contract.Crypto.{Crypto}
use estate_ci.Contract.Models.{OperationReceipt}
use estate_ci.Contract.Receipt.{verify_receipt_digest}
use estate_ci.Storage.Repository.{failure}
use estate_ci.Storage.Actions.{return, >>=-ok}
use estate_ci.Storage.Objects.{Object}
use estate_ci.Storage.Memory.{in_limit, limit_of, insert_receipt, sort_receipts}
use estate_ci.Storage.Memory.Receipts.{NewestFirst, sort-NewestFirst}
use estate_ci.Storage.Cloud.Config.{GcsRepository}
use estate_ci.Storage.Cloud.Decoding.{Decoders, strict_json}
use estate_ci.Storage.Cloud.Reads.{checked-ok}
use estate_ci.Storage.Cloud.Reading.{receipt_in, read_receipts}
use estate_ci.Storage.Cloud.{list_receipts}

-- A predicate on receipts survives sorting and cutting.
module _ (P : OperationReceipt → Type 0) where
  All-insert :
      (r : OperationReceipt) (rs : List OperationReceipt)
      → P r
      → All P rs
      → All P (insert_receipt r rs)
  unfolding insert_receipt
  All-insert r [] p ps = (p, tt)
  All-insert r (q ∷ qs) p (pq, pqs) = elim (Bool-cases (text_lt r.recorded_at q.recorded_at)) [
    | inl older ↦ rw older (pq, All-insert r qs p pqs)
    | inr newer ↦ rw newer (p, (pq, pqs))
  ]

  All-sort : (rs : List OperationReceipt) → All P rs → All P (sort_receipts rs)
  unfolding sort_receipts
  All-sort [] ps = tt
  All-sort (r ∷ rs) (p, ps) = All-insert r (sort_receipts rs) p (All-sort rs ps)

  All-take : (n : ℕ) (rs : List OperationReceipt) → All P rs → All P (take n rs)
  All-take zero rs ps = tt
  All-take (suc n) [] ps = tt
  All-take (suc n) (r ∷ rs) (p, ps) = (p, All-take n rs ps)

NewestFirst-take : (n : ℕ) (rs : List OperationReceipt) → NewestFirst rs → NewestFirst (take n rs)
unfolding NewestFirst
NewestFirst-take zero rs h = tt
NewestFirst-take (suc n) [] h = tt
NewestFirst-take (suc n) (r ∷ rs) (h, hs) = (All-take _ n rs h, NewestFirst-take n rs hs)

limit-bounds : (limit : ℤ) → in_limit limit ≡ true → limit_of limit ≤ 100
limit-bounds (pos n) h = ground arith
limit-bounds (negsuc n) h = cc

module _ (c : Crypto) (json : Decoders) where
  -- The digest of the receipt verifies.
  abbrev pub Verified : OperationReceipt → Type 0
  Verified r = verify_receipt_digest c zero_time r ≡ ok tt

  read-Verified :
      (os : List Object) (rs : List OperationReceipt)
      → read_receipts c json os ≡ ok rs
      → All Verified rs
  unfolding read_receipts receipt_in
  read-Verified [] rs h = subst (All Verified) (ok-inj _ refl h) tt
  read-Verified (o ∷ os) rs h =
      let (r, one, rest) = >>=-eq-ok (receipt_in c json o) _ h in
      let (more, all_read, e) = >>=-eq-ok (read_receipts c json os) _ rest in
      subst (All Verified) (ok-inj _ refl e) (
        checked-ok _ (verify_receipt_digest c zero_time) (strict_json json.receipt o.content) r one,
        read-Verified os more all_read,
      )

  list_receipts-ok :
      {S : Type 0} (repository : GcsRepository S) (limit : ℤ) (s : S) (rs : List OperationReceipt)
      → (list_receipts c json repository limit s).0 ≡ ok rs
      → (values : List OperationReceipt) × All Verified values
        × (in_limit limit ≡ true)
        × (take (limit_of limit) (sort_receipts values) ≡ rs)
  unfolding list_receipts return
  list_receipts-ok repository limit s rs h =
      let (os, found, e) =
        >>=-ok
          (repository.objects.list repository.audit_bucket (bytes "audit/operations/") (pos 1000)) _
          s h in
      let s1 =
        (repository.objects.list repository.audit_bucket (bytes "audit/operations/") (pos 1000)
          s).1 in
      let (all_read, read, e') =
        >>=-ok (return (read_receipts c json os)) _ s1 (ap (λ p. p.0) (sym e) ∙ h) in
      let (u, bounded, e'') =
        >>=-ok (return (guard (in_limit limit) (failure "receipt list limit is invalid"))) _ s1
          (ap (λ p. p.0) (sym (e ∙ e')) ∙ h) in
      let out : ok (take (limit_of limit) (sort_receipts all_read)) ≡ ok rs =
        ap (λ p. p.0) (sym (e ∙ e' ∙ e'')) ∙ h in
      (all_read, read-Verified os all_read read, guard-ok _ _ bounded, ok-inj _ refl out)

  -- The receipts that the Cloud Storage repository lists are at most as many as the limit, which is
  -- at most 100; the newest stand first; and the digest of each verifies, whatever the objects of the
  -- bucket hold.
  pub cloud_list_receipts :
      {S : Type 0} (repository : GcsRepository S) (limit : ℤ) (s : S) (rs : List OperationReceipt)
      → (list_receipts c json repository limit s).0 ≡ ok rs
      → (length rs ≤ limit_of limit) × (limit_of limit ≤ 100) × NewestFirst rs × All Verified rs
  cloud_list_receipts repository limit s rs h =
      let (values, verified, inside, same) = list_receipts-ok repository limit s rs h in
      let n = limit_of limit in
      rw (← same) (
        omega (arith, length-take n (sort_receipts values)),
        limit-bounds limit inside,
        NewestFirst-take n _ (sort-NewestFirst values),
        All-take Verified n _ (All-sort Verified values verified),
      )
