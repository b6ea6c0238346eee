-- ===== src/Prelude/Results.antt =====
-- Go's (value, error) pairs.
use mathlib.Core.Path.{◌≡◌, refl, subst}
use mathlib.Core.Bool.{Bool, true, false}
use mathlib.Core.Option.{Option, none, some}

pub data Result (E : Type 0) (A : Type 0) : Type 0 where
  ok : A → Result E A
  err : E → Result E A

infixl 5 ◌>>=◌ ◌>>◌
abbrev pub ◌>>=◌ : {E A B : Type 0} → Result E A → (A → Result E B) → Result E B
ok a >>= f = f a
err e >>= f = err e

abbrev pub ◌>>◌ : {E B : Type 0} → Result E (Unit {0}) → Result E B → Result E B
ok a >> k = k
err e >> k = err e

-- `if !condition { return e }`
abbrev pub guard : {E : Type 0} → Bool → E → Result E (Unit {0})
guard true e = ok tt
guard false e = err e

abbrev pub is_ok : {E A : Type 0} → Result E A → Bool
is_ok (ok a) = true
is_ok (err e) = false

-- A missing value is the error `e`.
abbrev pub require : {E A : Type 0} → Option A → E → Result E A
require none e = err e
require (some a) e = ok a

-- `fmt.Errorf` and the like: another error in place of the one met.
abbrev pub on_error : {D E A : Type 0} → E → Result D A → Result E A
on_error e (ok a) = ok a
on_error e (err d) = err e

-- What a successful chain of calls went through.
pub >>=-eq-ok :
    {E A B : Type 0} (call : Result E A) (then : A → Result E B) {out : B}
    → (call >>= then) ≡ ok out
    → (value : A) × (call ≡ ok value) × (then value ≡ ok out)
>>=-eq-ok (ok value) then chain = (value, refl, chain)
>>=-eq-ok (err e) then chain = cc

pub >>-eq-ok :
    {E B : Type 0} (call : Result E (Unit {0})) (then : Result E B) {out : B}
    → (call >> then) ≡ ok out
    → (call ≡ ok tt) × (then ≡ ok out)
>>-eq-ok (ok tt) then chain = (refl, chain)
>>-eq-ok (err e) then chain = cc

pub on_error-eq-ok :
    {D E A : Type 0} (e : E) (m : Result D A) {a : A} → on_error e m ≡ ok a → m ≡ ok a
on_error-eq-ok e (ok a) h = cc
on_error-eq-ok e (err d) h = cc

-- `q` names the type of errors.
pub ok-inj : {E A : Type 0} {a b : A} (q : Result E A) → ok a ≡ q → q ≡ ok b → a ≡ b
ok-inj q e h = cc

pub guard-ok : {E : Type 0} (b : Bool) (e : E) → guard b e ≡ ok tt → b ≡ true
guard-ok true e h = refl
guard-ok false e h = cc

-- Where `m` succeeds, what it returns satisfies `P`.
pub record Yields {E A : Type 0} (P : A → Type 0) (m : Result E A) : Type 0 where
  pub at : (a : A) → m ≡ ok a → P a

module _ {E B : Type 0} {P : B → Type 0} where
  pub Yields-ok : (b : B) → P b → Yields {E = E} P (ok b)
  Yields-ok b p = record { at = λ a h. subst P (ok-inj _ refl h) p }

  pub Yields-bind :
      {A : Type 0} (m : Result E A) (f : A → Result E B)
      → ((a : A) → Yields P (f a))
      → Yields P (m >>= f)
  Yields-bind (ok a) f k = k a
  Yields-bind (err e) f k = record { at = λ a h. cc }

  pub Yields-then : (m : Result E (Unit {0})) (k : Result E B) → Yields P k → Yields P (m >> k)
  Yields-then (ok tt) k y = y
  Yields-then (err e) k y = record { at = λ a h. cc }
