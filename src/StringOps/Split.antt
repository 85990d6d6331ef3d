-- ===== src/StringOps/Split.antt =====
-- What `strsplit` returns, against the text that it splits.
use pwdmanlib.Base.{
  ℕ, zero, suc, ◌+◌, ◌*◌, ◌≤◌, ◌<◌, ◌≡◌, ◌≢◌, inl, inr, refl, ap, ap₂, ◌∙◌, Bool, true, false, ltb,
  leb, lt→ltb, if◌then◌else◌, Option, none, some, List, [], ◌∷◌, ◌++◌, map, length, length-append,
  length-drop, take, drop, Bytes, strstr, strstr-found, strstr-first, All, ok, fault, out_of_bounds,
  ◌>>◌, guard, arith, Option-cases,
}
use pwdmanlib.StringOps.{count_delims, extract, trailing, strsplit, is_empty}

-- Tokens, each with a delimiter behind it, and then the trailing text.
abbrev pub spell : Bytes → List Bytes → Bytes → Bytes
spell d [] last = last
spell d (t ∷ ts) last = t ++ (d ++ spell d ts last)

abbrev Free : Bytes → Bytes → Type 0
Free d t = strstr t d ≡ none

-- `ts` and `last` are the pieces of `str` between the delimiters.
pub record IsSplit (str d : Bytes) (ts : List Bytes) (last : Bytes) : Type 0 where
  pub spells : str ≡ spell d ts last
  pub free : All (Free d) ts
  pub last_free : Free d last

length-pos : (d : Bytes) → d ≢ [] → 0 < length d
length-pos [] ne = absurd (ne refl)
length-pos (c ∷ d) ne = omega arith

length-map-some : (ts : List Bytes) → length (map some ts) ≡ length ts
length-map-some [] = refl
length-map-some (t ∷ ts) = ap suc (length-map-some ts)

length-trailing : (last : Bytes) → length (trailing last) ≡ (if is_empty last then 1 else 2)
unfolding trailing is_empty
length-trailing [] = refl
length-trailing (c ∷ s) = refl

-- How many cells are written.
pub length-cells :
    (ts : List Bytes) (last : Bytes)
    → length (map some ts ++ trailing last) ≡ length ts + (if is_empty last then 1 else 2)
length-cells ts last =
    length-append (map some ts) (trailing last)
    ∙ ap₂ ◌+◌ (length-map-some ts) (length-trailing last)

pub checked {ℓ} :
    {A : Type ℓ} (b : Bool) (a : A)
    → (guard b out_of_bounds >> ok a) ≡ (if b then ok a else fault out_of_bounds)
checked true a = refl
checked false a = refl

module _ (room : ℕ → ℕ) (grants : (n : ℕ) → n ≤ room n) where
  -- With fuel for each byte both loops end, and they agree on the number of delimiters.
  extract-IsSplit :
      (fuel size : ℕ) (str d : Bytes)
      → d ≢ []
      → length str < fuel
      → length str ≤ size
      → (ts : List Bytes) × (last : Bytes) × (extract room fuel size str d ≡ ok (ts, last))
        × (count_delims fuel str d ≡ ok (length ts))
        × IsSplit str d ts last
  unfolding extract count_delims
  extract-IsSplit zero size str d ne enough fits = absurd (omega arith)
  extract-IsSplit (suc fuel) size str d ne enough fits = elim (Option-cases (strstr str d)) [
    | inl e ↦ (
      [],
      str,
      rw (e, extract),
      rw (e, count_delims),
      record { spells = refl; free = tt; last_free = e },
    )
    | inr (n, e) ↦
        (let (inside, shape) = strstr-found str d n e in
          let some_delim = length-pos d ne in
          let rest = drop (n + length d) str in
          let shorter = length-drop (n + length d) str in
          let saved : ltb n (room size) ≡ true =
            lt→ltb n (room size) (omega (arith, grants size)) in
          let (ts, last, ex, co, sp) =
            extract-IsSplit fuel size rest d ne (omega arith) (omega arith) in
          (
            take n str ∷ ts,
            last,
            rw (e, extract, saved, ex),
            rw (e, count_delims, co),
            record {
              spells = shape ∙ ap (λ t. take n str ++ (d ++ t)) sp.spells;
              free = (strstr-first str d n ne e, sp.free);
              last_free = sp.last_free;
            },
          ))
  ]

  -- The cells that hold the tokens, the trailing text unless it is empty, and the NULL.
  abbrev pub cells_of : List Bytes → Bytes → List (Option Bytes)
  cells_of ts last = map some ts ++ trailing last

  pub strsplit-IsSplit :
      (str d : Bytes)
      → d ≢ []
      → (ts : List Bytes) × (last : Bytes) × IsSplit str d ts last
        × (strsplit room str d ≡ (
            if leb (8 * (length ts + (if is_empty last then 1 else 2))) (room (8 * (length ts + 1)))
            then ok (record { cells = cells_of ts last; len = length ts + 1 })
            else fault out_of_bounds))
  unfolding strsplit
  strsplit-IsSplit str d ne =
      let (ts, last, ex, co, sp) =
        extract-IsSplit (suc (length str)) (length str) str d ne (omega arith) (omega arith) in
      (
        ts,
        last,
        sp,
        rw (co, ex, length-cells ts last)
            (checked
              (leb (8 * (length ts + (if is_empty last then 1 else 2)))
                (room (8 * (length ts + 1))))
              _),
      )
