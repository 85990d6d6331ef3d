-- ===== src/StringOps/Pieces.antt =====
-- `strsplit` on a text that is put together from its pieces.
use pwdmanlib.Base.{
  ℕ, zero, suc, ◌+◌, ◌*◌, ◌≤◌, ◌<◌, ◌≡◌, ◌≢◌, refl, sym, ap, ◌∙◌, Bool, true, not, ◌&&◌, ◌==◌, ltb,
  leb, lt→ltb, if◌then◌else◌, some, List, [], ◌∷◌, ◌++◌, map, length, length-append, take, drop,
  All, Bytes, strstr-after, strstr-lacks, ok, fault, out_of_bounds, append_assoc, arith,
}
use pwdmanlib.StringOps.{count_delims, extract, trailing, strsplit, is_empty}
use pwdmanlib.StringOps.Split.{spell, length-cells, checked}

-- A text without the first byte of the delimiter.
abbrev pub Lacks : ℕ → Bytes → Type 0
Lacks b t = All (λ c. c ≢ b) t

-- A check by evaluation that a byte does not occur.
abbrev pub lacks : ℕ → Bytes → Bool
lacks b [] = true
lacks b (c ∷ s) = not (c == b) && lacks b s

pub lacks_test : (b : ℕ) (s : Bytes) → lacks b s ≡ true → Lacks b s
lacks_test b [] h = tt
lacks_test b (c ∷ s) h = (ground arith, lacks_test b s (ground arith))

pub take-prefix : (t s : Bytes) → take (length t) (t ++ s) ≡ t
take-prefix [] s = refl
take-prefix (c ∷ t) s = ap (λ u. c ∷ u) (take-prefix t s)

drop-prefix : (t s : Bytes) → drop (length t) (t ++ s) ≡ s
drop-prefix [] s = refl
drop-prefix (c ∷ t) s = drop-prefix t s

-- What is behind a token and a delimiter.
pub drop-token : (t d s : Bytes) → drop (length t + length d) (t ++ (d ++ s)) ≡ s
drop-token t d s =
    ap (λ n. drop n (t ++ (d ++ s))) (sym (length-append t d))
    ∙ ap (drop (length (t ++ d))) (sym (append_assoc t d s))
    ∙ drop-prefix (t ++ d) s

module _ (room : ℕ → ℕ) (grants : (n : ℕ) → n ≤ room n) (b : ℕ) (d : Bytes) where
  extract-spell :
      (fuel size : ℕ) (ts : List Bytes) (last : Bytes)
      → All (Lacks b) ts
      → Lacks b last
      → length (spell (b ∷ d) ts last) < fuel
      → length (spell (b ∷ d) ts last) ≤ size
      → (extract room fuel size (spell (b ∷ d) ts last) (b ∷ d) ≡ ok (ts, last))
        × (count_delims fuel (spell (b ∷ d) ts last) (b ∷ d) ≡ ok (length ts))
  unfolding extract count_delims
  extract-spell zero size ts last h hl enough fits = absurd (omega arith)
  extract-spell (suc fuel) size [] last h hl enough fits =
      let e = strstr-lacks last b d hl in (rw (e, extract), rw (e, count_delims))
  extract-spell (suc fuel) size (t ∷ ts) last (h, hs) hl enough fits =
      let rest = spell (b ∷ d) ts last in
      let e = strstr-after t b d rest h in
      let total = length-append t ((b ∷ d) ++ rest) in
      let behind = length-append (b ∷ d) rest in
      let (ex, co) = extract-spell fuel size ts last hs hl (omega arith) (omega arith) in
      let saved : ltb (length t) (room size) ≡ true =
        lt→ltb (length t) (room size) (omega (arith, grants size)) in
      (
        rw (e, extract, saved, drop-token t (b ∷ d) rest, ex, take-prefix t ((b ∷ d) ++ rest)),
        rw (e, count_delims, drop-token t (b ∷ d) rest, co),
      )

  pub strsplit-spell :
      (ts : List Bytes) (last : Bytes)
      → All (Lacks b) ts
      → Lacks b last
      → strsplit room (spell (b ∷ d) ts last) (b ∷ d) ≡ (
          if leb (8 * (length ts + (if is_empty last then 1 else 2))) (room (8 * (length ts + 1)))
          then ok (record { cells = map some ts ++ trailing last; len = length ts + 1 })
          else fault out_of_bounds)
  strsplit-spell ts last h hl =
      let str = spell (b ∷ d) ts last in
      let (ex, co) =
        extract-spell (suc (length str)) (length str) ts last h hl (omega arith) (omega arith) in
      unfold strsplit in
      rw (co, ex, length-cells ts last)
        (checked
          (leb (8 * (length ts + (if is_empty last then 1 else 2))) (room (8 * (length ts + 1)))) _)
