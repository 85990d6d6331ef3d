-- ===== src/StringOps/Reverse.antt =====
-- The two loops that reverse a string in place.
use mathlib.Core.List.{reverse, reverse-append}
use pwdmanlib.Base.{
  ℕ, zero, suc, ◌+◌, ◌-◌, ◌%◌, ◌^◌, ◌≤◌, ◌<◌, ◌≡◌, ◌≢◌, refl, sym, ap, ap₂, subst, ◌∙◌, bit_xor,
  true, ◌&&◌, lt→ltb, le→ltb, All-split, ◌==◌, if◌then◌else◌, some, [], ◌∷◌, ◌++◌, length,
  length-append, get_elem?, set, set-append_cons, Bytes, All, Result, ok, fault, out_of_bounds,
  append_assoc, append-nil, arith, passes_below, passes_below_sound,
}
use pwdmanlib.StringOps.{swap, xor_swap, inwards, str_reverse, is_empty}

-- A list that is not empty, from its end.
snoc_view : (x : ℕ) (xs : Bytes) → (front : Bytes) × (last : ℕ) × (x ∷ xs ≡ front ++ last ∷ [])
snoc_view x [] = ([], x, refl)
snoc_view x (y ∷ xs) =
    let (front, last, e) = snoc_view y xs in (x ∷ front, last, ap (λ ys. x ∷ ys) e)

get_elem?-middle :
    (pre : Bytes) (a : ℕ) (post : Bytes) (i : ℕ)
    → i ≡ length pre
    → get_elem? (pre ++ a ∷ post) i ≡ some a
get_elem?-middle [] a post zero h = refl
get_elem?-middle [] a post (suc i) h = absurd (omega arith)
get_elem?-middle (c ∷ pre) a post zero h = absurd (omega arith)
get_elem?-middle (c ∷ pre) a post (suc i) h = get_elem?-middle pre a post i (omega arith)

-- What an exchange of two cells does.
abbrev Exchanges : (Bytes → ℕ → ℕ → Result Bytes) → ℕ → ℕ → Type 0
Exchanges exchange a b =
    (pre m post : Bytes) (q : ℕ)
    → q ≡ length pre + suc (length m)
    → exchange (pre ++ a ∷ (m ++ b ∷ post)) (length pre) q ≡ ok (pre ++ b ∷ (m ++ a ∷ post))

module _ (a b : ℕ) (pre m post : Bytes) (q : ℕ) (e : q ≡ length pre + suc (length m)) where
  second : get_elem? (pre ++ a ∷ (m ++ b ∷ post)) q ≡ some b
  second =
      ap (λ s. get_elem? s q) (sym (append_assoc pre (a ∷ m) (b ∷ post)))
      ∙ get_elem?-middle (pre ++ a ∷ m) b post q (omega (arith, length-append pre (a ∷ m)))

  set_second : (x : ℕ) → set (pre ++ a ∷ (m ++ b ∷ post)) q x ≡ pre ++ a ∷ (m ++ x ∷ post)
  set_second x =
      ap (λ s. set s q x) (sym (append_assoc pre (a ∷ m) (b ∷ post)))
      ∙ set-append_cons (pre ++ a ∷ m) b post q x (omega (arith, length-append pre (a ∷ m)))
      ∙ append_assoc pre (a ∷ m) (x ∷ post)

swap-Exchanges : (a b : ℕ) → Exchanges swap a b
unfolding swap
swap-Exchanges a b pre m post q e = rw (
  get_elem?-middle pre a (m ++ b ∷ post) (length pre) refl,
  second a b pre m post q e,
  set-append_cons pre a (m ++ b ∷ post) (length pre) b refl,
  set_second b b pre m post q e a,
)

module _ (exchange : Bytes → ℕ → ℕ → Result Bytes) (P : ℕ → Type 0)
    (works : (a b : ℕ) → P a → P b → Exchanges exchange a b) where
  abbrev Reverses : ℕ → Bytes → Type 0
  Reverses fuel mid =
      (pre post : Bytes) (q : ℕ)
      → length pre + length mid ≡ q + 1
      → inwards exchange fuel (pre ++ (mid ++ post)) (length pre) q
        ≡ ok (pre ++ (reverse mid ++ post))

  reverse-ends :
      (a b : ℕ) (front post : Bytes)
      → reverse (a ∷ (front ++ b ∷ [])) ++ post ≡ b ∷ (reverse front ++ a ∷ post)
  reverse-ends a b front post =
      ap (λ s. s ++ post) (reverse-append (a ∷ []) (front ++ b ∷ []))
      ∙ ap (λ s. (s ++ a ∷ []) ++ post) (reverse-append front (b ∷ []))
      ∙ ap (λ s. b ∷ s) (append_assoc (reverse front) (a ∷ []) post)

  -- One round exchanges the two ends.
  round :
      (fuel a b : ℕ) (front : Bytes)
      → P a
      → P b
      → Reverses fuel front
      → Reverses (suc fuel) (a ∷ (front ++ b ∷ []))
  unfolding inwards
  round fuel a b front pa pb ih pre post q e =
      let len = length-append front (b ∷ []) in
      let len' = length-append pre (b ∷ []) in
      let shape : (front ++ b ∷ []) ++ post ≡ front ++ b ∷ post =
        append_assoc front (b ∷ []) post in
      let done = works a b pa pb pre front post q (omega arith) in
      let next = ih (pre ++ b ∷ []) (a ∷ post) (q - 1) (omega arith) in
      let start : length (pre ++ b ∷ []) ≡ length pre + 1 = omega arith in
      rw (shape, done, lt→ltb (length pre) q (omega arith), reverse-ends a b front post)
        (ap₂ (λ s p. inwards exchange fuel s p (q - 1))
            (sym (append_assoc pre (b ∷ []) (front ++ a ∷ post))) (sym start)
          ∙ next
          ∙ ap ok (append_assoc pre (b ∷ []) (reverse front ++ a ∷ post)))

  -- The loop reverses what lies between its ends.
  inwards-reverse :
      (fuel : ℕ) (mid : Bytes) → length mid ≤ fuel + fuel + 1 → All P mid → Reverses fuel mid
  unfolding inwards
  inwards-reverse zero [] enough h = λ pre post q e. rw (le→ltb (length pre) q (omega arith))
  inwards-reverse (suc fuel) [] enough h = λ pre post q e. rw (le→ltb (length pre) q (omega arith))
  inwards-reverse zero (x ∷ []) enough h = λ pre post q e. rw (le→ltb (length pre) q (omega arith))
  inwards-reverse (suc fuel) (x ∷ []) enough h =
      λ pre post q e. rw (le→ltb (length pre) q (omega arith))
  inwards-reverse zero (x ∷ y ∷ r) enough h = absurd (omega arith)
  inwards-reverse (suc fuel) (x ∷ y ∷ r) enough (hx, h) =
      let (front, last, e) = snoc_view y r in
      let (hf, hl) = All-split P front (last ∷ []) (subst (All P) e h) in
      let size = ap length e in
      subst (λ s. Reverses (suc fuel) (x ∷ s)) (sym e)
        (round fuel x last front hx hl.0
          (inwards-reverse fuel front (omega (arith, size, length-append front (last ∷ []))) hf))

-- Exchanging by three exclusive ors works on bytes.
xor_table :
    passes_below 256 (λ a. passes_below 256 (λ b.
      (bit_xor b (bit_xor a b) == a) && (bit_xor (bit_xor a b) (bit_xor b (bit_xor a b)) == b)))
    ≡ true
unfolding passes_below
xor_table = refl

xor_twice :
    (a b : ℕ)
    → a < 256
    → b < 256
    → (bit_xor b (bit_xor a b) ≡ a) × (bit_xor (bit_xor a b) (bit_xor b (bit_xor a b)) ≡ b)
xor_twice a b h k =
    ground (arith, passes_below_sound 256 _ b (passes_below_sound 256 _ a xor_table h) k)

xor_swap-Exchanges : (a b : ℕ) → a < 256 → b < 256 → Exchanges xor_swap a b
unfolding xor_swap
xor_swap-Exchanges a b h k pre m post q e =
    let (x, y) = xor_twice a b h k in
    rw (
      get_elem?-middle pre a (m ++ b ∷ post) (length pre) refl,
      second a b pre m post q e,
      y,
      x,
      set_second a b pre m post q e a,
      set-append_cons pre a (m ++ a ∷ post) (length pre) b refl,
    )

-- The loop on a whole string.
inwards-whole :
    (exchange : Bytes → ℕ → ℕ → Result Bytes) (P : ℕ → Type 0)
    → ((a b : ℕ) → P a → P b → Exchanges exchange a b)
    → (fuel : ℕ) (s : Bytes) → s ≢ []
    → length s ≤ fuel + fuel + 1
    → All P s
    → inwards exchange fuel s 0 (length s - 1) ≡ ok (reverse s)
inwards-whole exchange P works fuel [] ne enough h = absurd (ne refl)
inwards-whole exchange P works fuel (c ∷ s) ne enough h =
    ap (λ t. inwards exchange fuel t 0 (length (c ∷ s) - 1)) (sym (append-nil (c ∷ s)))
    ∙ inwards-reverse exchange P works fuel (c ∷ s) enough h [] [] (length (c ∷ s) - 1)
        (omega arith)
    ∙ ap ok (append-nil (reverse (c ∷ s)))

-- `strReverse` reverses a string of bytes in place, unless it is empty: then `end` is the size
-- before 0, and the function works out of bounds.
str_reverse_lem :
    (s : Bytes)
    → All (λ c. c < 256) s
    → length s < 2 ^ 64
    → str_reverse s ≡ (if is_empty s then fault out_of_bounds else ok (reverse s))
unfolding str_reverse is_empty
str_reverse_lem [] h small = unfold inwards xor_swap in refl
str_reverse_lem (c ∷ s) h small =
    ap (λ q. inwards xor_swap (suc (length (c ∷ s))) (c ∷ s) 0 q)
      {x = (length (c ∷ s) + 2 ^ 64 - 1) % 2 ^ 64} {y = length (c ∷ s) - 1} (omega arith)
    ∙ inwards-whole xor_swap (λ c. c < 256) xor_swap-Exchanges (suc (length (c ∷ s))) (c ∷ s)
        (λ e. cc) (omega arith) h

All-Unit : (s : Bytes) → All (λ c. Unit {0}) s
All-Unit [] = tt
All-Unit (c ∷ s) = (tt, All-Unit s)

-- The loop of `itoa` reverses what it is given.
pub inwards-swap :
    (s : Bytes) → s ≢ [] → inwards swap (length s) s 0 (length s - 1) ≡ ok (reverse s)
inwards-swap s ne =
    inwards-whole swap (λ c. Unit {0}) (λ a b _ _. swap-Exchanges a b) (length s) s ne (omega arith)
      (All-Unit s)
