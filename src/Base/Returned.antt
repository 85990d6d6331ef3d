-- ===== src/Base/Returned.antt =====
-- What holds of whatever a call returns.
use pwdmanlib.Base.Outcome.{Result, ok, fault, stop, spin, ◌>>=◌}
use mathlib.Core.Path.{◌≡◌, subst}

-- The property holds of the value, if the call returns one.
abbrev pub Yields {ℓ κ} : {A : Type ℓ} → (A → Type κ) → Result A → Type κ
Yields P (ok a) = P a
Yields P _ = Unit

pub bind-Yields {ℓ ℓ' κ} :
    {A : Type ℓ} {B : Type ℓ'} (P : B → Type κ) (m : Result A) (f : A → Result B)
    → ((a : A) → Yields P (f a))
    → Yields P (m >>= f)
bind-Yields P (ok a) f h = h a
bind-Yields P (fault e) f h = tt
bind-Yields P (stop n) f h = tt
bind-Yields P spin f h = tt

-- The same with what is known of the value that the rest goes on with.
pub bind_known-Yields {ℓ ℓ' κ μ} :
    {A : Type ℓ} {B : Type ℓ'} (Q : A → Type μ) (P : B → Type κ) (m : Result A) (f : A → Result B)
    → Yields Q m
    → ((a : A) → Q a → Yields P (f a))
    → Yields P (m >>= f)
bind_known-Yields Q P (ok a) f q h = h a q
bind_known-Yields Q P (fault e) f q h = tt
bind_known-Yields Q P (stop n) f q h = tt
bind_known-Yields Q P spin f q h = tt

pub yielded {ℓ κ} :
    {A : Type ℓ} (P : A → Type κ) (m : Result A) (a : A) → Yields P m → m ≡ ok a → P a
yielded P m a h e = subst (Yields P) e h
