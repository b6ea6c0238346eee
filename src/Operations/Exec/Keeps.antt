-- ===== src/Operations/Exec/Keeps.antt =====
-- Invariants of handlers, one rule for each way to build one.
use estate_ci.Prelude.{Bool, true, false, Result, ok, err, if◌then◌else◌}
use estate_ci.Operations.Exec.{Failure, State, Exec, pure, raise, lift, check, continue, ◌>>=◌}

-- `m` keeps `P`, whether it returns a receipt or an error.
pub record Keeps {S W A : Type 0} (P : State S W → Type 0) (m : Exec S W A) : Type 0 where
  pub at : (s : State S W) → P s → P (m s).1

module _ {S W A : Type 0} {P : State S W → Type 0} where
  pub Keeps-pure : (value : A) → Keeps P (pure value)
  unfolding pure
  Keeps-pure value = record { at = λ before holds. holds }

  pub Keeps-raise : (e : Failure) → Keeps P (raise {A = A} e)
  unfolding raise
  Keeps-raise e = record { at = λ s h. h }

  pub Keeps-lift : {E : Type 0} (e : Failure) (r : Result E A) → Keeps P (lift e r)
  unfolding lift
  Keeps-lift e (ok a) = record { at = λ s h. h }
  Keeps-lift e (err d) = record { at = λ s h. h }

  pub Keeps-if :
      (b : Bool) (m n : Exec S W A) → Keeps P m → Keeps P n → Keeps P (if b then m else n)
  Keeps-if true m n km kn = km
  Keeps-if false m n km kn = kn

module _ {S W : Type 0} {P : State S W → Type 0} where
  pub Keeps-check : (b : Bool) (e : Failure) → Keeps P (check b e)
  unfolding check
  Keeps-check true e = record { at = λ s h. h }
  Keeps-check false e = record { at = λ s h. h }

module _ {S W A B : Type 0} {P : State S W → Type 0} where
  -- The rest of a handler, which runs if the part before it has not failed.
  Keeps-continue :
      (outcome : Result Failure A) (reached : State S W) (rest : A → Exec S W B)
      → P reached
      → ((value : A) → Keeps P (rest value))
      → P (continue (outcome, reached) rest).1
  Keeps-continue (ok value) reached rest holds keeps = (keeps value).at reached holds
  Keeps-continue (err e) reached rest holds keeps = holds

  pub Keeps-bind :
      (part : Exec S W A) (rest : A → Exec S W B)
      → Keeps P part
      → ((value : A) → Keeps P (rest value))
      → Keeps P (part >>= rest)
  unfolding ◌>>=◌
  Keeps-bind part rest kept keeps = record {
    at = λ before holds.
        let (outcome, reached) = part before in
        Keeps-continue outcome reached rest (kept.at before holds) keeps;
  }

pub ruleset keeps_rules = (Keeps-pure, Keeps-raise, Keeps-lift, Keeps-check, Keeps-if, Keeps-bind)
