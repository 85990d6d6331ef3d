-- ===== src/Base/Outcome.antt =====
-- What a call of a C function comes to.
use Prim.Native.Nat.{ℕ}
use mathlib.Core.Bool.{Bool, true, false}
use mathlib.Core.Option.{Option, none, some}

-- The undefined behaviours that the models tell apart.
pub data Fault : Type 0 where
  null_pointer : Fault
  out_of_bounds : Fault
  uninitialised : Fault
  div_by_zero : Fault
  overflow : Fault
  dangling : Fault
  invalid_free : Fault

-- `stop` is `exit`, and `spin` a loop that has used up the fuel of its model.
pub data Result {ℓ} (A : Type ℓ) : Type ℓ where
  ok : A → Result A
  fault : Fault → Result A
  stop : ℕ → Result A
  spin : Result A

infixl 5 ◌>>=◌ ◌>>◌
abbrev pub ◌>>=◌ {ℓ κ} : {A : Type ℓ} {B : Type κ} → Result A → (A → Result B) → Result B
ok a >>= f = f a
fault e >>= f = fault e
stop n >>= f = stop n
spin >>= f = spin

abbrev pub ◌>>◌ {ℓ} : {B : Type ℓ} → Result (Unit {0}) → Result B → Result B
m >> k = m >>= λ _. k

-- A read through an array or a pointer that may be missing.
abbrev pub demand {ℓ} : {A : Type ℓ} → Fault → Option A → Result A
demand e none = fault e
demand e (some a) = ok a

abbrev pub guard : Bool → Fault → Result (Unit {0})
guard true e = ok tt
guard false e = fault e
