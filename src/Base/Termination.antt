-- ===== src/Base/Termination.antt =====
-- Calls whose loops end.
use pwdmanlib.Base.Outcome.{Fault, Result, ok, fault, stop, spin, ◌>>=◌, ◌>>◌, demand, guard}
use mathlib.Core.Path.{refl}
use mathlib.Core.Logic.{◌≢◌}
use mathlib.Core.Bool.{Bool, true, false}
use Prim.Native.Nat.{ℕ}
use pwdmanlib.Base.Tests.{if◌then◌else◌}
use mathlib.Core.Option.{Option, none, some}

-- The call returns, is undefined, or leaves the program: no loop of it goes on for ever.
abbrev pub Ends {ℓ} : {A : Type ℓ} → Result A → Type ℓ
Ends r = r ≢ spin

pub ok-Ends {ℓ} : {A : Type ℓ} (a : A) → Ends (ok a)
ok-Ends a h = cc

pub fault-Ends {ℓ} : {A : Type ℓ} (e : Fault) → Ends {A = A} (fault e)
fault-Ends e h = cc

pub stop-Ends {ℓ} : {A : Type ℓ} (n : ℕ) → Ends {A = A} (stop n)
stop-Ends n h = cc

pub bind-Ends {ℓ κ} :
    {A : Type ℓ} {B : Type κ} (m : Result A) (f : A → Result B)
    → Ends m
    → ((a : A) → Ends (f a))
    → Ends (m >>= f)
bind-Ends (ok a) f h k = k a
bind-Ends (fault e) f h k = fault-Ends e
bind-Ends (stop n) f h k = stop-Ends n
bind-Ends spin f h k = absurd (h refl)

pub demand-Ends {ℓ} : {A : Type ℓ} (e : Fault) (a : Option A) → Ends (demand e a)
demand-Ends e none = fault-Ends e
demand-Ends e (some a) = ok-Ends a

pub guard-Ends : (b : Bool) (e : Fault) → Ends (guard b e)
guard-Ends true e = ok-Ends tt
guard-Ends false e = fault-Ends e

-- Behind a check.
pub guarded-Ends {ℓ} :
    {A : Type ℓ} (b : Bool) (e : Fault) (r : Result A) → Ends r → Ends (guard b e >> r)
guarded-Ends b e r h = bind-Ends (guard b e) (λ _. r) (guard-Ends b e) (λ _. h)

pub if-Ends {ℓ} :
    {A : Type ℓ} (b : Bool) (r s : Result A) → Ends r → Ends s → Ends (if b then r else s)
if-Ends true r s h k = h
if-Ends false r s h k = k
