-- ===== src/Base/Text.antt =====
-- C strings as the lists of their bytes before the terminating NUL, and the functions of
-- <string.h> that the sources call.
use Prim.Native.Nat.{ℕ, zero, suc, ◌+◌, ◌≤◌}
use Prim.Native.Char.{code}
use Prim.Native.String.{String}
use mathlib.Core.Bool.{Bool, true, false, ◌&&◌}
use mathlib.Core.List.{List, [], ◌∷◌, map}
use mathlib.Core.Logic.{◌↔◌}
use mathlib.Core.Path.{◌≡◌, refl, ap₂}
use native.Mathlib.Omega.{arith}
use pwdmanlib.Base.Tests.{leb, ◌==◌, if◌then◌else◌}
use pwdmanlib.Base.Lists.{length}

abbrev pub Bytes : Type 0
Bytes = List ℕ

-- The bytes of an ASCII literal.
abbrev pub codes : String → Bytes
codes String.[] = []
codes (String.◌∷◌ c s) = code c ∷ codes s

-- `strcmp(s, t) == 0`.
unfoldable pub strcmp : Bytes → Bytes → Bool
strcmp [] [] = true
strcmp [] (d ∷ t) = false
strcmp (c ∷ s) [] = false
strcmp (c ∷ s) (d ∷ t) = (c == d) && strcmp s t

-- `strncmp(s, t, n) == 0`: at most `n` bytes are compared, the terminators among them.
unfoldable pub strncmp : Bytes → Bytes → ℕ → Bool
strncmp s t zero = true
strncmp [] [] (suc n) = true
strncmp [] (d ∷ t) (suc n) = false
strncmp (c ∷ s) [] (suc n) = false
strncmp (c ∷ s) (d ∷ t) (suc n) = (c == d) && strncmp s t n

pub strcmp_iff : (s t : Bytes) → (strcmp s t ≡ true) ↔ (s ≡ t)
unfolding strcmp
strcmp_iff [] [] = (λ _. refl, λ _. refl)
strcmp_iff [] (d ∷ t) = (λ h. cc, λ h. cc)
strcmp_iff (c ∷ s) [] = (λ h. cc, λ h. cc)
strcmp_iff (c ∷ s) (d ∷ t) = ground (arith, strcmp_iff s t)

pub strcmp_self : (s : Bytes) → strcmp s s ≡ true
strcmp_self s = (strcmp_iff s s).1 refl

-- A bound beyond the literal makes `strncmp` a comparison of whole strings.
pub strncmp-eq-strcmp : (s t : Bytes) (n : ℕ) → suc (length t) ≤ n → strncmp s t n ≡ strcmp s t
unfolding strcmp strncmp
strncmp-eq-strcmp s t zero h = absurd (omega arith)
strncmp-eq-strcmp [] [] (suc n) h = refl
strncmp-eq-strcmp [] (d ∷ t) (suc n) h = refl
strncmp-eq-strcmp (c ∷ s) [] (suc n) h = refl
strncmp-eq-strcmp (c ∷ s) (d ∷ t) (suc n) h = ap₂ ◌&&◌ refl (strncmp-eq-strcmp s t n (omega arith))

-- ASCII lower case, and `strcasecmp(s, t) == 0`.
unfoldable pub to_lower : ℕ → ℕ
to_lower c = if leb b'A' c && leb c b'Z' then c + 32 else c

unfoldable pub strcasecmp : Bytes → Bytes → Bool
strcasecmp [] [] = true
strcasecmp [] (d ∷ t) = false
strcasecmp (c ∷ s) [] = false
strcasecmp (c ∷ s) (d ∷ t) = (to_lower c == to_lower d) && strcasecmp s t

pub strcasecmp_iff : (s t : Bytes) → (strcasecmp s t ≡ true) ↔ (map to_lower s ≡ map to_lower t)
unfolding strcasecmp
strcasecmp_iff [] [] = (λ _. refl, λ _. refl)
strcasecmp_iff [] (d ∷ t) = (λ h. cc, λ h. cc)
strcasecmp_iff (c ∷ s) [] = (λ h. cc, λ h. cc)
strcasecmp_iff (c ∷ s) (d ∷ t) = ground (arith, strcasecmp_iff s t)

-- The C string that stands in a buffer: what comes before the first NUL.
unfoldable pub c_str : Bytes → Bytes
c_str [] = []
c_str (zero ∷ s) = []
c_str (suc c ∷ s) = suc c ∷ c_str s
