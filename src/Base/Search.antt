-- ===== src/Base/Search.antt =====
-- `strstr`, and what it finds.
use Prim.Native.Nat.{ℕ, zero, suc, ◌+◌, ◌≤◌}
use mathlib.Core.Bool.{Bool, true, false, ◌&&◌, false≢true}
use mathlib.Core.List.{[], ◌∷◌, ◌++◌}
use mathlib.Core.Logic.{◌≢◌, inl, inr}
use mathlib.Core.Option
use mathlib.Core.Option.{Option, none, some}
use mathlib.Core.Path.{◌≡◌, refl, ap, ◌∙◌, sym}
use native.Mathlib.Omega.{arith}
use pwdmanlib.Base.Tests.{◌==◌, if◌then◌else◌, Bool-cases}
use pwdmanlib.Base.Lists.{length, take, drop, take-append_drop, All}
use pwdmanlib.Base.Text.{Bytes}

-- Whether the needle begins the text.
unfoldable pub starts_with : Bytes → Bytes → Bool
starts_with [] s = true
starts_with (d ∷ t) [] = false
starts_with (d ∷ t) (c ∷ s) = (c == d) && starts_with t s

-- `strstr(s, t)`, as the offset of the occurrence.
unfoldable pub strstr : Bytes → Bytes → Option ℕ
strstr [] t = if starts_with t [] then some 0 else none
strstr (c ∷ s) t = if starts_with t (c ∷ s) then some 0 else Option.map suc (strstr s t)

pub starts_with-split :
    (d s : Bytes) → starts_with d s ≡ true → (length d ≤ length s) × (s ≡ d ++ drop (length d) s)
unfolding starts_with
starts_with-split [] s h = (omega arith, refl)
starts_with-split (c ∷ d) [] h = cc
starts_with-split (c ∷ d) (b ∷ s) h = ground (arith, starts_with-split d s)

strstr-zero : (s d : Bytes) → strstr s d ≡ some 0 → starts_with d s ≡ true
unfolding strstr
strstr-zero [] d h = ground arith
strstr-zero (c ∷ s) d h = ground arith

strstr-suc :
    (c : ℕ) (s d : Bytes) (n : ℕ)
    → strstr (c ∷ s) d ≡ some (suc n)
    → (starts_with d (c ∷ s) ≡ false) × (strstr s d ≡ some n)
unfolding strstr
strstr-suc c s d n h = ground arith

-- `strstr` finds an occurrence: the text is what comes before it, the needle and the rest.
pub strstr-found :
    (s d : Bytes) (n : ℕ)
    → strstr s d ≡ some n
    → (n + length d ≤ length s) × (s ≡ take n s ++ (d ++ drop (n + length d) s))
strstr-found s d zero h =
    let (l, e) = starts_with-split d s (strstr-zero s d h) in
    (omega arith, e ∙ ap (λ k. d ++ drop k s) (omega arith))
strstr-found [] d (suc n) h = unfold strstr in ground arith
strstr-found (c ∷ s) d (suc n) h =
    let (l, e) = strstr-found s d n (strstr-suc c s d n h).1 in
    (
      omega arith,
      ap (λ t. c ∷ t) e
          ∙ ap (λ k. c ∷ (take n s ++ (d ++ drop k (c ∷ s)))) {x = suc (n + length d)}
              {y = suc n + length d} (omega arith),
    )

-- A longer text does not lose a prefix.
starts_with-longer : (d s t : Bytes) → starts_with d s ≡ true → starts_with d (s ++ t) ≡ true
unfolding starts_with
starts_with-longer [] s t h = refl
starts_with-longer (c ∷ d) [] t h = cc
starts_with-longer (c ∷ d) (b ∷ s) t h = ground (arith, starts_with-longer d s t)

starts_with-shorter :
    (c : ℕ) (s d : Bytes) (n : ℕ)
    → starts_with d (c ∷ s) ≡ false
    → starts_with d (c ∷ take n s) ≡ false
starts_with-shorter c s d n h = elim (Bool-cases (starts_with d (c ∷ take n s))) [
  | inl e ↦
      (let longer = starts_with-longer d (c ∷ take n s) (drop n s) e in
        absurd (
          false≢true
            (sym h ∙ ap (λ t. starts_with d (c ∷ t)) (sym (take-append_drop n s)) ∙ longer)))
  | inr e ↦ e
]

strstr-cons_none :
    (c : ℕ) (s d : Bytes)
    → starts_with d (c ∷ s) ≡ false
    → strstr s d ≡ none
    → strstr (c ∷ s) d ≡ none
unfolding strstr
strstr-cons_none c s d h k = rw (h, k)

-- What stands before the occurrence that `strstr` finds holds no occurrence.
pub strstr-first : (s d : Bytes) (n : ℕ) → d ≢ [] → strstr s d ≡ some n → strstr (take n s) d ≡ none
strstr-first s [] n e h = absurd (e refl)
strstr-first s (b ∷ d) zero e h = unfold strstr starts_with in refl
strstr-first [] (b ∷ d) (suc n) e h = unfold strstr starts_with in refl
strstr-first (c ∷ s) (b ∷ d) (suc n) e h =
    let (no_start, found) = strstr-suc c s (b ∷ d) n h in
    strstr-cons_none c (take n s) (b ∷ d) (starts_with-shorter c s (b ∷ d) n no_start)
      (strstr-first s (b ∷ d) n e found)

starts_with_self : (d s : Bytes) → starts_with d (d ++ s) ≡ true
unfolding starts_with
starts_with_self [] s = refl
starts_with_self (c ∷ d) s = ground (arith, starts_with_self d s)

-- A text without the first byte of the needle does not hide an occurrence that follows it.
pub strstr-after :
    (t : Bytes) (b : ℕ) (d s : Bytes)
    → All (λ c. c ≢ b) t
    → strstr (t ++ ((b ∷ d) ++ s)) (b ∷ d) ≡ some (length t)
unfolding strstr starts_with
strstr-after [] b d s h = rw (starts_with_self (b ∷ d) s)
strstr-after (c ∷ t) b d s (h, hs) = ground (arith, strstr-after t b d s hs)

pub strstr-lacks : (t : Bytes) (b : ℕ) (d : Bytes) → All (λ c. c ≢ b) t → strstr t (b ∷ d) ≡ none
unfolding strstr starts_with
strstr-lacks [] b d h = refl
strstr-lacks (c ∷ t) b d (h, hs) = ground (arith, strstr-lacks t b d hs)
