-- ===== src/Storage/Memory/Listing.antt =====
-- `ListSnapshots` and `LatestSnapshot` of internal/storage/repository.go.
use estate_ci.Prelude.{
  ◌-◌, ℕ, ◌≤◌, ◌≡◌, ◌∙◌, ap, sym, true, List, reverse, ok, pos, leb, ◌&&◌, length, take, drop,
  arith, length-reverse, take-all, reverse-drop, Bool-cases, inl, inr,
}
use estate_ci.Storage.Memory.{MemoryRepository, list_snapshots}

last_reversed :
    {A : Type 0} (n : ℕ) (xs : List A) → reverse (drop (length xs - n) xs) ≡ take n (reverse xs)
last_reversed n xs = elim (Bool-cases (leb n (length xs))) [
  | inl fits_in ↦
      reverse-drop (length xs - n) xs ∙ ap (λ k. take k (reverse xs)) (ground (arith, fits_in))
  | inr longer ↦
      reverse-drop (length xs - n) xs
      ∙ take-all _ (reverse xs) (ground (arith, longer, length-reverse xs))
      ∙ sym (take-all n (reverse xs) (ground (arith, longer, length-reverse xs)))
]

-- For a limit from 1 to 100, `ListSnapshots` returns the last of the list first.
pub list_snapshots_reversed :
    (n : ℕ) (m : MemoryRepository)
    → 1 ≤ n
    → n ≤ 100
    → list_snapshots (pos n) m ≡ (ok (take n (reverse m.snapshots)), m)
unfolding list_snapshots
list_snapshots_reversed n m low high =
    let inside : (leb 1 n && leb n 100) ≡ true = ground (arith, low, high) in
    rw inside (ap (λ ss. (ok ss, m)) (last_reversed n m.snapshots))
