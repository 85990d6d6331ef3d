-- ===== src/StringOps/Digits.antt =====
-- The digits that the loop of `itoa` takes from a number.
use mathlib.Core.List.{reverse, reverse-cons, cons-ne-nil}
use native.Mathlib.Nat.{pow-suc}
use pwdmanlib.Base.{
  ℕ, zero, suc, ◌+◌, ◌-◌, ◌*◌, ◌/◌, ◌%◌, ◌^◌, ◌≤◌, ◌<◌, ◌≡◌, ◌≢◌, inl, inr, refl, sym, ap, ◌∙◌,
  Bool, true, false, ◌&&◌, ltb, lt→ltb, ◌==◌, ==_iff, if◌then◌else◌, Option, none, some, [], ◌∷◌,
  ◌++◌, get_elem?, Bytes, All, ok, arith, passes_below, passes_below_sound, Bool-cases,
}
use pwdmanlib.StringOps.{dig, itoa_digits}

-- The number that a digit stands for.
abbrev pub digit_value : ℕ → ℕ
digit_value c = if ltb c b'a' then c - b'0' else c - b'a' + 10

-- The number that a numeral spells behind `acc`.
abbrev pub read : ℕ → ℕ → Bytes → ℕ
read radix acc [] = acc
read radix acc (c ∷ s) = read radix (acc * radix + digit_value c) s

-- The same for the lowest digit first.
abbrev low_value : ℕ → Bytes → ℕ
low_value radix [] = 0
low_value radix (d ∷ ds) = low_value radix ds * radix + digit_value d

pub digit : ℕ → ℕ
digit i = if ltb i 10 then b'0' + i else b'a' + i - 10

is_some_of : Option ℕ → ℕ → Bool
is_some_of none d = false
is_some_of (some c) d = c == d

is_some_of_sound : (o : Option ℕ) (d : ℕ) → is_some_of o d ≡ true → o ≡ some d
unfolding is_some_of
is_some_of_sound o d h = ground arith

dig_table :
    passes_below 36 (λ i. is_some_of (get_elem? dig i) (digit i) && (digit_value (digit i) == i))
    ≡ true
unfolding passes_below digit is_some_of
dig_table = refl

dig_lem : (i : ℕ) → i < 36 → (get_elem? dig i ≡ some (digit i)) × (digit_value (digit i) ≡ i)
dig_lem i h =
    let t = passes_below_sound 36 _ i dig_table h in
    (is_some_of_sound (get_elem? dig i) (digit i) (ground arith), ground arith)

read-append :
    (radix acc : ℕ) (s t : Bytes) → read radix acc (s ++ t) ≡ read radix (read radix acc s) t
read-append radix acc [] t = refl
read-append radix acc (c ∷ s) t = read-append radix (acc * radix + digit_value c) s t

pub read-reverse : (radix : ℕ) (ds : Bytes) → read radix 0 (reverse ds) ≡ low_value radix ds
read-reverse radix [] = refl
read-reverse radix (d ∷ ds) =
    ap (read radix 0) (reverse-cons d ds)
    ∙ read-append radix 0 (reverse ds) (d ∷ [])
    ∙ ap (λ n. n * radix + digit_value d) (read-reverse radix ds)

div-half : (v r : ℕ) → 2 ≤ r → v / r * 2 ≤ v
div-half v r h = grind arith

div-mod : (v r : ℕ) → 2 ≤ r → v / r * r + v % r ≡ v
div-mod v r h = grind arith

pub mod-small : (v r : ℕ) → 2 ≤ r → v % r < r
mod-small v r h = omega arith

pub mod-last : (v r : ℕ) → 2 ≤ r → v / r ≡ 0 → v % r ≡ v
mod-last v r h e =
    let p : 0 * r + v % r ≡ v = ap (λ t. t * r + v % r) (sym e) ∙ div-mod v r h in omega arith

-- The digit of one round.
digit_of_mod :
    (v radix : ℕ)
    → 2 ≤ radix
    → radix ≤ 36
    → (get_elem? dig (v % radix) ≡ some (digit (v % radix)))
      × (digit_value (digit (v % radix)) ≡ v % radix)
digit_of_mod v radix two most = dig_lem (v % radix) (omega (arith, mod-small v radix two))

-- The last round, and a round with more digits above.
digits-last :
    (fuel v radix : ℕ)
    → 2 ≤ radix
    → radix ≤ 36
    → (v / radix == 0) ≡ true
    → itoa_digits (suc fuel) v radix ≡ ok (digit (v % radix) ∷ [])
unfolding itoa_digits
digits-last fuel v radix two most h =
    rw (lt→ltb 0 radix (omega arith), (digit_of_mod v radix two most).0, h)

digits-more :
    (fuel v radix : ℕ) (ds : Bytes)
    → 2 ≤ radix
    → radix ≤ 36
    → (v / radix == 0) ≡ false
    → itoa_digits fuel (v / radix) radix ≡ ok ds
    → itoa_digits (suc fuel) v radix ≡ ok (digit (v % radix) ∷ ds)
unfolding itoa_digits
digits-more fuel v radix ds two most h k =
    rw (lt→ltb 0 radix (omega arith), (digit_of_mod v radix two most).0, h, k)

spell_last :
    (v radix : ℕ)
    → 2 ≤ radix
    → radix ≤ 36
    → (v / radix == 0) ≡ true
    → low_value radix (digit (v % radix) ∷ []) ≡ v
spell_last v radix two most h =
    ap (λ t. 0 * radix + t)
      ((digit_of_mod v radix two most).1 ∙ mod-last v radix two ((==_iff _ _).0 h))
    ∙ omega arith

-- The loop ends within its fuel, and its digits spell the number.
pub digits-spell :
    (fuel v radix : ℕ)
    → 2 ≤ radix
    → radix ≤ 36
    → v < 2 ^ suc fuel
    → (ds : Bytes) × (itoa_digits (suc fuel) v radix ≡ ok ds)
      × (ds ≢ [])
      × (low_value radix ds ≡ v)
      × All (λ d. digit_value d < radix) ds
unfolding itoa_digits
digits-spell zero v radix two most small =
    let val = (digit_of_mod v radix two most).1 in
    let last : (v / radix == 0) ≡ true = (==_iff _ _).1 (omega (arith, div-half v radix two)) in
    (
      digit (v % radix) ∷ [],
      digits-last 0 v radix two most last,
      cons-ne-nil _ _,
      spell_last v radix two most last,
      (omega (arith, val, mod-small v radix two), tt),
    )
digits-spell (suc fuel) v radix two most small =
    let val = (digit_of_mod v radix two most).1 in
    let (ds, ih, ne, low, all) =
      digits-spell fuel (v / radix) radix two most
        (omega (arith, div-half v radix two, pow-suc 2 (suc fuel))) in
    elim (Bool-cases (v / radix == 0)) [
      | inl last ↦ (
        digit (v % radix) ∷ [],
        digits-last (suc fuel) v radix two most last,
        cons-ne-nil _ _,
        spell_last v radix two most last,
        (omega (arith, val, mod-small v radix two), tt),
      )
      | inr more ↦ (
        digit (v % radix) ∷ ds,
        digits-more (suc fuel) v radix ds two most more ih,
        cons-ne-nil _ _,
        rw (low, val) (div-mod v radix two),
        (omega (arith, val, mod-small v radix two), all),
      )
    ]
