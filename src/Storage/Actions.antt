-- ===== src/Storage/Actions.antt =====
-- Operations of a store that are made of others: (value, error) pairs with the state passed on.
use estate_ci.Prelude.{◌≡◌, refl, Result, ok, err}
use estate_ci.Storage.Repository.{StorageError, Op}

module _ {S : Type 0} where
  unfoldable pub return : {A : Type 0} → Result StorageError A → Op S A
  return outcome s = (outcome, s)

  abbrev pub proceed :
      {A B : Type 0} → Result StorageError A × S → (A → Op S B) → Result StorageError B × S
  proceed (ok a, s) next = next a s
  proceed (err e, s) next = (err e, s)

  infixl 5 ◌>>=◌ ◌>>◌
  unfoldable pub ◌>>=◌ : {A B : Type 0} → Op S A → (A → Op S B) → Op S B
  ◌>>=◌ op next s = proceed (op s) next

  abbrev pub ◌>>◌ : {B : Type 0} → Op S (Unit {0}) → Op S B → Op S B
  op >> next = op >>= λ _. next

  -- What a successful chain of operations went through.
  proceed-ok :
      {A B : Type 0} (outcome : Result StorageError A) (s : S) (next : A → Op S B) {b : B}
      → (proceed (outcome, s) next).0 ≡ ok b
      → (a : A) × (outcome ≡ ok a) × (proceed (outcome, s) next ≡ next a s)
  proceed-ok (ok a) s next h = (a, refl, refl)
  proceed-ok (err e) s next h = cc

  pub >>=-ok :
      {A B : Type 0} (op : Op S A) (next : A → Op S B) (s : S) {b : B}
      → ((op >>= next) s).0 ≡ ok b
      → (a : A) × ((op s).0 ≡ ok a) × ((op >>= next) s ≡ next a (op s).1)
  unfolding ◌>>=◌
  >>=-ok op next s h = proceed-ok (op s).0 (op s).1 next h

  proceed-of :
      {A B : Type 0} (outcome : Result StorageError A) (s : S) (next : A → Op S B) (a : A)
      → outcome ≡ ok a
      → proceed (outcome, s) next ≡ next a s
  proceed-of outcome s next a e = rw e refl

  pub >>=-of :
      {A B : Type 0} (op : Op S A) (next : A → Op S B) (s : S) (a : A)
      → (op s).0 ≡ ok a
      → (op >>= next) s ≡ next a (op s).1
  unfolding ◌>>=◌
  >>=-of op next s a h = proceed-of (op s).0 (op s).1 next a h

-- Every call of `op` keeps `P`, on success and on error.
pub record Preserves {S A : Type 0} (P : S → Type 0) (op : Op S A) : Type 0 where
  pub from : (s : S) → P s → P (op s).1

module _ {S : Type 0} {P : S → Type 0} where
  pub Preserves-return :
      {A : Type 0} (outcome : Result StorageError A) → Preserves P (return outcome)
  unfolding return
  Preserves-return outcome = record { from = λ s p. p }

  Preserves-proceed :
      {A B : Type 0} (outcome : Result StorageError A) (s : S) (next : A → Op S B)
      → P s
      → ((a : A) → Preserves P (next a))
      → P (proceed (outcome, s) next).1
  Preserves-proceed (ok a) s next p keep = (keep a).from s p
  Preserves-proceed (err e) s next p keep = p

  pub Preserves-bind :
      {A B : Type 0} (op : Op S A) (next : A → Op S B)
      → Preserves P op
      → ((a : A) → Preserves P (next a))
      → Preserves P (op >>= next)
  unfolding ◌>>=◌
  Preserves-bind op next first keep = record {
    from = λ s p. Preserves-proceed (op s).0 (op s).1 next (first.from s p) keep;
  }

pub ruleset preserves_rules = (Preserves-return, Preserves-bind)
