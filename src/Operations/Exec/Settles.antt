-- ===== src/Operations/Exec/Settles.antt =====
-- Handlers that do not run out of fuel, one rule for each way to build one.
use estate_ci.Prelude.{◌≡◌, refl, Bool, true, false, Result, ok, err, if◌then◌else◌}
use estate_ci.Storage.Repository.{Op}
use estate_ci.Operations.Exec.{
  Failure, stuck, State, Exec, pure, raise, lift, attempt, sense, check, continue, ◌>>=◌,
}

abbrev pub is_stuck : Failure → Bool
is_stuck stuck = true
is_stuck e = false

abbrev pub runs_out : {A : Type 0} → Result Failure A → Bool
runs_out (ok a) = false
runs_out (err e) = is_stuck e

pub record Settles {S W A : Type 0} (m : Exec S W A) : Type 0 where
  pub at : (s : State S W) → runs_out (m s).0 ≡ false

module _ {S W A : Type 0} where
  pub Settles-pure : (a : A) → Settles (pure {S = S} {W = W} a)
  unfolding pure
  Settles-pure a = record { at = λ s. refl }

  pub Settles-raise : (e : Failure) → is_stuck e ≡ false → Settles (raise {S = S} {W = W} {A = A} e)
  unfolding raise
  Settles-raise e h = record { at = λ s. h }

  pub Settles-lift :
      {E : Type 0} (e : Failure) (r : Result E A)
      → is_stuck e ≡ false
      → Settles (lift {S = S} {W = W} e r)
  unfolding lift
  Settles-lift e (ok a) h = record { at = λ s. refl }
  Settles-lift e (err d) h = record { at = λ s. h }

  pub Settles-attempt : (op : Op S A) → Settles (attempt {S = S} {W = W} op)
  unfolding attempt
  Settles-attempt op = record { at = λ s. refl }

  pub Settles-sense : (f : W → A × W) → Settles (sense {S = S} {W = W} f)
  unfolding sense
  Settles-sense f = record { at = λ s. refl }

  pub Settles-if :
      (b : Bool) (m n : Exec S W A) → Settles m → Settles n → Settles (if b then m else n)
  Settles-if true m n km kn = km
  Settles-if false m n km kn = kn

module _ {S W : Type 0} where
  pub Settles-check :
      (b : Bool) (e : Failure) → is_stuck e ≡ false → Settles (check {S = S} {W = W} b e)
  unfolding check
  Settles-check true e h = record { at = λ s. refl }
  Settles-check false e h = record { at = λ s. h }

module _ {S W A B : Type 0} where
  Settles-continue :
      (r : Result Failure A) (s : State S W) (f : A → Exec S W B)
      → runs_out r ≡ false
      → ((a : A) → Settles (f a))
      → runs_out (continue (r, s) f).0 ≡ false
  Settles-continue (ok a) s f h kf = (kf a).at s
  Settles-continue (err e) s f h kf = h

  pub Settles-bind :
      (m : Exec S W A) (f : A → Exec S W B)
      → Settles m
      → ((a : A) → Settles (f a))
      → Settles (m >>= f)
  unfolding ◌>>=◌
  Settles-bind m f km kf = record {
    at = λ s. let (r, s') = m s in Settles-continue r s' f (km.at s) kf;
  }

pub ruleset settles_rules = (
  Settles-pure, Settles-raise, Settles-lift, Settles-check, Settles-attempt, Settles-sense,
  Settles-if, Settles-bind, refl,
)
