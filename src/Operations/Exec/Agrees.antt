-- ===== src/Operations/Exec/Agrees.antt =====
-- Handlers that do the same from every state.
use estate_ci.Prelude.{◌≡◌, refl, Bool, true, false, Result, ok, err, if◌then◌else◌}
use estate_ci.Operations.Exec.{Failure, State, Exec, continue, ◌>>=◌}

pub record Agrees {S W A : Type 0} (one other : Exec S W A) : Type 0 where
  pub at : (before : State S W) → one before ≡ other before

module _ {S W B : Type 0} where
  pub Agrees-self : (one : Exec S W B) → Agrees one one
  Agrees-self one = record { at = λ before. refl }

  continue-Agrees :
      {A : Type 0} (outcome : Result Failure A) (reached : State S W) (one other : A → Exec S W B)
      → ((a : A) → Agrees (one a) (other a))
      → continue (outcome, reached) one ≡ continue (outcome, reached) other
  continue-Agrees (ok a) reached one other agree = (agree a).at reached
  continue-Agrees (err e) reached one other agree = refl

  pub Agrees-bind :
      {A : Type 0} (part : Exec S W A) (one other : A → Exec S W B)
      → ((a : A) → Agrees (one a) (other a))
      → Agrees (part >>= one) (part >>= other)
  unfolding ◌>>=◌
  Agrees-bind part one other agree = record {
    at = λ before.
        let (outcome, reached) = part before in continue-Agrees outcome reached one other agree;
  }

  pub Agrees-if :
      (test : Bool) (one other third : Exec S W B)
      → Agrees one other
      → Agrees (if test then one else third) (if test then other else third)
  Agrees-if true one other third agree = agree
  Agrees-if false one other third agree = Agrees-self third
