-- ===== src/Storage/Table.antt =====
-- The maps of `MemoryRepository`, keyed by texts. The program only adds entries, each behind a
-- test that its key is not there.
use estate_ci.Prelude.{
  ◌≡◌, refl, Bool, Option, none, some, List, [], ◌∷◌, Text, ◌==◌, text_instance, text_eq_iff,
  text_eq_refl, if◌then◌else◌, is_some, arith,
}

abbrev pub Table {ℓ} : Type ℓ → Type ℓ
Table V = List (Text × V)

module _ {ℓ} {V : Type ℓ} where
  unfoldable pub lookup : Text → Table V → Option V
  lookup k [] = none
  lookup k ((j, v) ∷ t) = if j == k then some v else lookup k t

  abbrev pub has : Text → Table V → Bool
  has k t = is_some (lookup k t)

  -- `table[k] = v` for a key that is not there.
  unfoldable pub add : Text → V → Table V → Table V
  add k v t = (k, v) ∷ t

  -- `table[k] = v`, over an older entry if there is one.
  unfoldable pub put : Text → V → Table V → Table V
  put k v [] = (k, v) ∷ []
  put k v ((j, w) ∷ t) = if j == k then (k, v) ∷ t else (j, w) ∷ put k v t

  pub lookup-put :
      (k j : Text) (v : V) (t : Table V)
      → lookup j (put k v t) ≡ (if k == j then some v else lookup j t)
  unfolding lookup put
  lookup-put k j v [] = refl
  lookup-put k j v ((i, w) ∷ t) =
      ground (arith, text_eq_iff k j, text_eq_iff i k, text_eq_iff i j, lookup-put k j v t)

  pub lookup-add :
      (k j : Text) (v : V) (t : Table V)
      → lookup j (add k v t) ≡ (if k == j then some v else lookup j t)
  unfolding lookup add
  lookup-add k j v t = refl

  pub lookup-add_self : (k : Text) (v : V) (t : Table V) → lookup k (add k v t) ≡ some v
  unfolding lookup add
  lookup-add_self k v t = ground (arith, text_eq_refl k)

  -- An entry stays when another key is added.
  pub lookup-add_keep :
      (k j : Text) (v w : V) (t : Table V)
      → lookup k t ≡ none
      → lookup j t ≡ some w
      → lookup j (add k v t) ≡ some w
  unfolding lookup add
  lookup-add_keep k j v w t absent h = ground (arith, text_eq_iff k j)
