-- ===== src/StringOps/Itoa.antt =====
-- The text that `itoa` writes, against a reader of numerals, and the four bytes that it has for it.
use mathlib.Core.List.{reverse, reverse-append, reverse-cons, concat-ne-nil}
use pwdmanlib.Base.{
  ℕ, ◌+◌, ◌-◌, ◌^◌, ◌≤◌, ◌<◌, ◌≡◌, ◌≢◌, inl, inr, refl, sym, ap, ◌∙◌, Bool, true, false, leb, ◌==◌,
  if◌then◌else◌, [], ◌∷◌, ◌++◌, length, length-append, subst, All-append, Bytes, All, Result, ok,
  fault, out_of_bounds, ◌>>◌, guard, arith, append-nil, Bool-cases,
}
use pwdmanlib.Vector.{pos, negsuc}
use pwdmanlib.StringOps.{swap, inwards, magnitude, itoa}
use pwdmanlib.StringOps.Reverse.{inwards-swap}
use pwdmanlib.StringOps.Digits.{digit_value, read, read-reverse, digits-spell}

reverse-ne-nil : (s : Bytes) → s ≢ [] → reverse s ≢ []
reverse-ne-nil [] ne e = ne e
reverse-ne-nil (c ∷ s) ne e = concat-ne-nil c (reverse s) (sym (reverse-cons c s) ∙ e)

length-reverse : (s : Bytes) → length (reverse s) ≡ length s
length-reverse [] = refl
length-reverse (c ∷ s) =
    ap length (reverse-cons c s)
    ∙ omega (arith, length-append (reverse s) (c ∷ []), length-reverse s)

checked {ℓ} :
    {A : Type ℓ} (b : Bool) (a : A)
    → (guard b out_of_bounds >> ok a) ≡ (if b then ok a else fault out_of_bounds)
checked true a = refl
checked false a = refl

All-reverse : (P : ℕ → Type 0) (s : Bytes) → All P s → All P (reverse s)
All-reverse P [] h = tt
All-reverse P (c ∷ s) (p, h) =
    subst (All P) (sym (reverse-cons c s))
      (All-append P (reverse s) (c ∷ []) (All-reverse P s h) (p, tt))

-- Up to three decimal digits stay below a thousand.
short_numeral :
    (text : Bytes) → All (λ c. digit_value c < 10) text → length text ≤ 3 → read 10 0 text < 1000
short_numeral [] h l = omega arith
short_numeral (a ∷ []) (p, _) l = omega arith
short_numeral (a ∷ b ∷ []) (p, (q, _)) l = omega arith
short_numeral (a ∷ b ∷ c ∷ []) (p, (q, (r, _))) l = omega arith
short_numeral (a ∷ b ∷ c ∷ d ∷ s) h l = absurd (omega arith)

-- A text of digits of the radix that reads back as `n`.
pub record IsNumeral (radix n : ℕ) (text : Bytes) : Type 0 where
  pub some_digit : text ≢ []
  pub digits : All (λ c. digit_value c < radix) text
  pub reads : read radix 0 text ≡ n

module _ (room : ℕ → ℕ) where
  abbrev written : Bytes → Result Bytes
  written text = if leb (length text + 1) (room 4) then ok text else fault out_of_bounds

  -- The last steps of `itoa`: the check that the text fits, and its reversal.
  finish :
      (str : Bytes)
      → str ≢ []
      → (guard (leb (length str + 1) (room 4)) out_of_bounds
          >> inwards swap (length str) str 0 (length str - 1))
        ≡ written (reverse str)
  finish str ne =
      rw (inwards-swap str ne, length-reverse str) (checked (leb (length str + 1) (room 4)) _)

  -- For a value that is not negative `itoa` writes a numeral of it in its radix, if that and its
  -- terminator fit the four bytes that it allocates; else it writes out of bounds.
  pub itoa-IsNumeral :
      (n radix : ℕ)
      → 2 ≤ radix
      → radix ≤ 36
      → n < 2 ^ 31
      → (text : Bytes) × IsNumeral radix n text × (itoa room (pos n) radix ≡ written text)
  unfolding itoa magnitude
  itoa-IsNumeral n radix two most small =
      let (ds, e, ne, low, all) = digits-spell 31 n radix two most (omega arith) in
      (
        reverse ds,
        record {
          some_digit = reverse-ne-nil ds ne;
          digits = All-reverse _ ds all;
          reads = read-reverse radix ds ∙ low;
        },
        rw (e, append-nil ds) (finish ds ne),
      )

  -- For a negative value other than the least one, in decimal, it is a sign and then a numeral.
  itoa_negative :
      (n : ℕ)
      → n + 1 < 2 ^ 31
      → (text : Bytes) × IsNumeral 10 (n + 1) text
        × (itoa room (negsuc n) 10 ≡ written (b'-' ∷ text))
  unfolding itoa magnitude
  itoa_negative n small =
      let (ds, e, ne, low, all) =
        digits-spell 31 (n + 1) 10 (omega arith) (omega arith) (omega arith) in
      let least : (n + 1 == 2 ^ 31) ≡ false = ground arith in
      (
        reverse ds,
        record {
          some_digit = reverse-ne-nil ds ne;
          digits = All-reverse _ ds all;
          reads = read-reverse 10 ds ∙ low;
        },
        rw (least, e)
            (finish (ds ++ b'-' ∷ []) (concat-ne-nil b'-' ds)
              ∙ ap written (reverse-append ds (b'-' ∷ []))),
      )

  -- With nothing but its four bytes, every decimal value of four digits or more is written out of
  -- bounds.
  itoa_overflows :
      (n : ℕ) → 1000 ≤ n → n < 2 ^ 31 → room 4 ≤ 4 → itoa room (pos n) 10 ≡ fault out_of_bounds
  itoa_overflows n big small tight =
      let (text, num, e) = itoa-IsNumeral n 10 (omega arith) (omega arith) small in
      elim (Bool-cases (leb (length text + 1) (room 4))) [
        | inl fits ↦ absurd (omega (arith, short_numeral text num.digits (ground arith), num.reads))
        | inr over ↦ e ∙ rw over
      ]
