-- ===== src/Storage/Memory/Receipts.antt =====
-- `ListReceipts` of internal/storage/repository.go.
use mathlib.Core.List.{Permᴰ}
use estate_ci.Prelude.{
  ℕ, ◌≤◌, ◌≡◌, refl, true, false, List, [], ◌∷◌, Text, ok, pos, leb, ◌&&◌, take, arith, text_lt,
  Bool-cases, inl, inr, All,
}
use estate_ci.Contract.Models.{OperationReceipt}
use estate_ci.Storage.Memory.{
  MemoryRepository, insert_receipt, sort_receipts, list_receipts, values,
}

-- The order of texts is total and transitive.
not_less_trans : (s t u : Text) → text_lt s t ≡ false → text_lt t u ≡ false → text_lt s u ≡ false
unfolding text_lt
not_less_trans s t [] h k = refl
not_less_trans s [] (z ∷ u) h k = cc
not_less_trans [] (y ∷ t) (z ∷ u) h k = cc
not_less_trans (x ∷ s) (y ∷ t) (z ∷ u) h k = ground (arith, not_less_trans s t u)

less_asym : (s t : Text) → text_lt s t ≡ true → text_lt t s ≡ false
unfolding text_lt
less_asym s [] h = cc
less_asym [] (y ∷ t) h = refl
less_asym (x ∷ s) (y ∷ t) h = ground (arith, less_asym s t)

-- No receipt of the list was recorded after `r`.
abbrev pub NoneAfter : OperationReceipt → List OperationReceipt → Type 0
NoneAfter r rs = All (λ q. text_lt r.recorded_at q.recorded_at ≡ false) rs

-- The newest receipts stand first, by their texts `recorded_at`.
unfoldable pub NewestFirst : List OperationReceipt → Type 0
NewestFirst [] = Unit
NewestFirst (r ∷ rs) = NoneAfter r rs × NewestFirst rs

NoneAfter-weaken :
    (r q : OperationReceipt) (rs : List OperationReceipt)
    → text_lt r.recorded_at q.recorded_at ≡ false
    → NoneAfter q rs
    → NoneAfter r rs
NoneAfter-weaken r q [] h hs = tt
NoneAfter-weaken r q (p ∷ rs) h (hp, hs) =
    (not_less_trans r.recorded_at q.recorded_at p.recorded_at h hp, NoneAfter-weaken r q rs h hs)

NoneAfter-insert :
    (q r : OperationReceipt) (rs : List OperationReceipt)
    → text_lt q.recorded_at r.recorded_at ≡ false
    → NoneAfter q rs
    → NoneAfter q (insert_receipt r rs)
unfolding insert_receipt
NoneAfter-insert q r [] h hs = (h, tt)
NoneAfter-insert q r (p ∷ rs) h (hp, hs) = elim (Bool-cases (text_lt r.recorded_at p.recorded_at)) [
  | inl older ↦ rw older (hp, NoneAfter-insert q r rs h hs)
  | inr newer ↦ rw newer (h, (hp, hs))
]

insert-NewestFirst :
    (r : OperationReceipt) (rs : List OperationReceipt)
    → NewestFirst rs
    → NewestFirst (insert_receipt r rs)
unfolding insert_receipt NewestFirst
insert-NewestFirst r [] h = (tt, tt)
insert-NewestFirst r (q ∷ rs) (hq, hs) = elim (Bool-cases (text_lt r.recorded_at q.recorded_at)) [
  | inl older ↦ rw older (
    NoneAfter-insert q r rs (less_asym r.recorded_at q.recorded_at older) hq,
    insert-NewestFirst r rs hs,
  )
  | inr newer ↦ rw newer ((newer, NoneAfter-weaken r q rs newer hq), (hq, hs))
]

pub sort-NewestFirst : (rs : List OperationReceipt) → NewestFirst (sort_receipts rs)
unfolding sort_receipts NewestFirst
sort-NewestFirst [] = tt
sort-NewestFirst (r ∷ rs) = insert-NewestFirst r (sort_receipts rs) (sort-NewestFirst rs)

unmoved : (rs : List OperationReceipt) → Permᴰ rs rs
unmoved [] = Permᴰ.nil
unmoved (r ∷ rs) = Permᴰ.cons refl (unmoved rs)

insert-Perm :
    (r : OperationReceipt) (rs : List OperationReceipt) → Permᴰ (r ∷ rs) (insert_receipt r rs)
unfolding insert_receipt
insert-Perm r [] = Permᴰ.cons refl Permᴰ.nil
insert-Perm r (q ∷ rs) = elim (Bool-cases (text_lt r.recorded_at q.recorded_at)) [
  | inl older ↦ rw older (Permᴰ.trans (Permᴰ.swap refl refl) (Permᴰ.cons refl (insert-Perm r rs)))
  | inr newer ↦ rw newer (Permᴰ.cons refl (Permᴰ.cons refl (unmoved rs)))
]

sort-Perm : (rs : List OperationReceipt) → Permᴰ rs (sort_receipts rs)
unfolding sort_receipts
sort-Perm [] = Permᴰ.nil
sort-Perm (r ∷ rs) = Permᴰ.trans (Permᴰ.cons refl (sort-Perm rs)) (insert-Perm r (sort_receipts rs))

-- For a limit from 1 to 100, `ListReceipts` returns the first receipts, as many as there are up to
-- the limit, of an arrangement of all stored receipts in which the newest stand first, and changes
-- nothing.
pub list_receipts_newest :
    (n : ℕ) (m : MemoryRepository)
    → 1 ≤ n
    → n ≤ 100
    → (rs : List OperationReceipt) × NewestFirst rs
      × Permᴰ (values m.receipts) rs
      × (list_receipts (pos n) m ≡ (ok (take n rs), m))
unfolding list_receipts
list_receipts_newest n m low high =
    let inside : (leb 1 n && leb n 100) ≡ true = ground (arith, low, high) in
    (
      sort_receipts (values m.receipts),
      sort-NewestFirst (values m.receipts),
      sort-Perm (values m.receipts),
      rw inside refl,
    )
