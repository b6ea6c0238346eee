-- ===== src/Operations/Exec/Inversion.antt =====
-- What a handler that has succeeded has gone through.
use estate_ci.Prelude.{◌≡◌, refl, Bool, true, false, Result, ok, err}
use estate_ci.Operations.Exec.{Failure, State, Exec, check, lift, continue, ◌>>=◌}

module _ {S W A B : Type 0} where
  continue-ok :
      (r : Result Failure A) (s : State S W) (f : A → Exec S W B) (b : B)
      → (continue (r, s) f).0 ≡ ok b
      → (a : A) × (r ≡ ok a) × ((f a s).0 ≡ ok b)
  continue-ok (ok a) s f b h = (a, refl, h)
  continue-ok (err e) s f b h = cc

  pub bind-ok :
      (m : Exec S W A) (f : A → Exec S W B) (s : State S W) (b : B)
      → ((m >>= f) s).0 ≡ ok b
      → (a : A) × ((m s).0 ≡ ok a) × ((f a (m s).1).0 ≡ ok b)
  unfolding ◌>>=◌
  bind-ok m f s b h = let (r, s') = m s in continue-ok r s' f b h

module _ {S W B : Type 0} where
  pub check-ok :
      (c : Bool) (e : Failure) (f : Unit {0} → Exec S W B) (s : State S W) (b : B)
      → ((check c e >>= f) s).0 ≡ ok b
      → (c ≡ true) × ((f tt s).0 ≡ ok b)
  unfolding ◌>>=◌ check
  check-ok true e f s b h = (refl, h)
  check-ok false e f s b h = cc

  pub lift-ok :
      {E A : Type 0} (e : Failure) (q : Result E A) (f : A → Exec S W B) (s : State S W) (b : B)
      → ((lift e q >>= f) s).0 ≡ ok b
      → (a : A) × (q ≡ ok a) × ((f a s).0 ≡ ok b)
  unfolding ◌>>=◌ lift
  lift-ok e (ok a) f s b h = (a, refl, h)
  lift-ok e (err d) f s b h = cc
