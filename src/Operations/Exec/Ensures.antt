-- ===== src/Operations/Exec/Ensures.antt =====
-- What holds of every value that a handler returns, one rule for each way to build one.
use estate_ci.Prelude.{◌≡◌, Bool, true, false, Result, ok, err, if◌then◌else◌}
use estate_ci.Operations.Exec.{Failure, State, Exec, raise, continue, ◌>>=◌}

pub record Ensures {S W A : Type 0} (P : A → Type 0) (m : Exec S W A) : Type 0 where
  pub at : (before : State S W) (value : A) → (m before).0 ≡ ok value → P value

module _ {S W B : Type 0} {P : B → Type 0} where
  pub Ensures-raise : (e : Failure) → Ensures P (raise {S = S} {W = W} e)
  unfolding raise
  Ensures-raise e = record { at = λ before value returned. cc }

  continue-Ensures :
      {A : Type 0} (outcome : Result Failure A) (reached : State S W) (rest : A → Exec S W B)
      → ((a : A) → Ensures P (rest a))
      → (value : B) → (continue (outcome, reached) rest).0 ≡ ok value
      → P value
  continue-Ensures (ok a) reached rest ensures value returned =
      (ensures a).at reached value returned
  continue-Ensures (err e) reached rest ensures value returned = cc

  pub Ensures-bind :
      {A : Type 0} (part : Exec S W A) (rest : A → Exec S W B)
      → ((a : A) → Ensures P (rest a))
      → Ensures P (part >>= rest)
  unfolding ◌>>=◌
  Ensures-bind part rest ensures = record {
    at = λ before value returned.
        let (outcome, reached) = part before in
        continue-Ensures outcome reached rest ensures value returned;
  }

  pub Ensures-if :
      (test : Bool) (yes_part no_part : Exec S W B)
      → Ensures P yes_part
      → Ensures P no_part
      → Ensures P (if test then yes_part else no_part)
  Ensures-if true yes_part no_part ensures others = ensures
  Ensures-if false yes_part no_part ensures others = others
