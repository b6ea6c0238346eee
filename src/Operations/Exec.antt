-- ===== src/Operations/Exec.antt =====
-- The handlers of the service: they change the store and the world, and return a receipt or an
-- error. What was written before an error stays written.
pub mod Keeps
pub mod Inversion
pub mod Agrees
pub mod Ensures
pub mod Settles
use Prim.Native.String.{String}
use estate_ci.Prelude.{Bool, true, false, Text, Result, ok, err}
use estate_ci.Contract.Models.{OperationReceipt}
use estate_ci.Storage.Repository.{StorageError, Op}

-- The errors that callers tell apart, and the others. `unready_receipt` is `ErrUnready` returned
-- beside a receipt; `stuck` is no error of the program: the fuel of `resume` ran out.
pub data Failure : Type 0 where
  denied invalid replay unready pending not_catalogued disabled : Failure
  unready_receipt : OperationReceipt → Failure
  internal : String → Failure
  stuck : Failure

pub record State (S W : Type 0) : Type 0 where
  pub store : S
  pub world : W

abbrev pub Exec : Type 0 → Type 0 → Type 0 → Type 0
Exec S W A = State S W → Result Failure A × State S W

module _ {S W : Type 0} where
  unfoldable pub pure : {A : Type 0} → A → Exec S W A
  pure a s = (ok a, s)

  unfoldable pub raise : {A : Type 0} → Failure → Exec S W A
  raise e s = (err e, s)

  -- A result that is known, with every error turned into `e`.
  unfoldable pub lift : {E A : Type 0} → Failure → Result E A → Exec S W A
  lift e (ok a) s = (ok a, s)
  lift e (err d) s = (err e, s)

  -- A call of the store, whose error the caller looks at.
  unfoldable pub attempt : {A : Type 0} → Op S A → Exec S W (Result StorageError A)
  attempt op s = (ok (op s.store).0, record s { store = (op s.store).1 })

  -- A call of the world.
  unfoldable pub sense : {A : Type 0} → (W → A × W) → Exec S W A
  sense f s = (ok (f s.world).0, record s { world = (f s.world).1 })

  -- `if !condition { return e }`
  unfoldable pub check : Bool → Failure → Exec S W (Unit {0})
  check true e s = (ok tt, s)
  check false e s = (err e, s)

  abbrev pub continue :
      {A B : Type 0}
      → Result Failure A × State S W
      → (A → Exec S W B)
      → Result Failure B × State S W
  continue (ok a, s) f = f a s
  continue (err e, s) f = (err e, s)

  infixl 5 ◌>>=◌ ◌>>◌
  unfoldable pub ◌>>=◌ : {A B : Type 0} → Exec S W A → (A → Exec S W B) → Exec S W B
  ◌>>=◌ m f s = continue (m s) f

  abbrev pub ◌>>◌ : {B : Type 0} → Exec S W (Unit {0}) → Exec S W B → Exec S W B
  m >> k = m >>= λ _. k
