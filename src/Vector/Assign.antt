-- ===== src/Vector/Assign.antt =====
-- What `int_vector_set` does, against the list of the values.
use pwdmanlib.Base.{
  ℕ, zero, suc, ◌+◌, ◌-◌, ◌^◌, ◌≤◌, ◌<◌, ◌≡◌, inl, inr, refl, sym, ap, subst, ◌∙◌, true, leb,
  Option, some, List, [], ◌∷◌, ◌++◌, map, length, length-append, length-replicate, length-set, set,
  replicate, append_assoc, append-nil, ok, fault, spin, out_of_bounds, arith, Bool-cases, lt→ltb,
}
use pwdmanlib.Vector.{
  pos, negsuc, to_size, Vector, slots_of, resize_slots, init, resize, write, append, zero_fill,
  set_at,
}
use pwdmanlib.Vector.Refine.{Holds, append_refines, length-slots}

-- The values after a write at `i`: zeros fill what lies between.
unfoldable pub put : List ℕ → ℕ → ℕ → List ℕ
put xs i x = set (xs ++ replicate (suc i - length xs) 0) i x

pub length-put : (xs : List ℕ) (i x : ℕ) → length (put xs i x) ≡ length xs + (suc i - length xs)
unfolding put
length-put xs i x =
    length-set (xs ++ replicate (suc i - length xs) 0) i x
    ∙ length-append xs (replicate (suc i - length xs) 0)
    ∙ ap (λ n. length xs + n) (length-replicate {A = ℕ} (suc i - length xs) 0)

-- The loop of `int_vector_set` fills up to an index that is not negative.
zero_fill-Holds :
    (fuel : ℕ) (v : Vector) (xs : List ℕ) (i : ℕ)
    → Holds v xs
    → i < 2 ^ 31
    → suc i - length xs < fuel
    → length xs < 2 ^ 60
    → (w : Vector) × (zero_fill fuel v (pos i) ≡ ok w)
      × Holds w (xs ++ replicate (suc i - length xs) 0)
unfolding zero_fill to_size
zero_fill-Holds zero v xs i h small enough len = absurd (omega arith)
zero_fill-Holds (suc fuel) v xs i h small enough len = elim (Bool-cases (leb v.size i)) [
  | inl more ↦
      (let (w, e, k) = append_refines v xs 0 h len in
        let n : length (xs ++ 0 ∷ []) ≡ suc (length xs) =
          omega (arith, length-append xs (0 ∷ [])) in
        let below : length xs ≤ i = ground (arith, h.size) in
        let (u, e', k') =
          zero_fill-Holds fuel w (xs ++ 0 ∷ []) i k small (omega arith) (omega arith) in
        let count : suc i - length xs ≡ suc (suc i - length (xs ++ 0 ∷ [])) = omega arith in
        (
          u,
          rw (more, e) e',
          subst (Holds u)
              (append_assoc xs (0 ∷ []) (replicate (suc i - length (xs ++ 0 ∷ [])) 0)
                ∙ sym (ap (λ n. xs ++ replicate n 0) count))
              k',
        ))
  | inr done ↦
      (let none_left : suc i - length xs ≡ 0 = ground (arith, h.size) in
        (
          v,
          rw done,
          subst (Holds v) (sym (append-nil xs) ∙ sym (ap (λ n. xs ++ replicate n 0) none_left)) h,
        ))
]

set-map-some :
    (xs : List ℕ) (rest : List (Option ℕ)) (i x : ℕ)
    → i < length xs
    → set (map some xs ++ rest) i (some x) ≡ map some (set xs i x) ++ rest
set-map-some [] rest i x h = absurd (omega arith)
set-map-some (y ∷ xs) rest zero x h = refl
set-map-some (y ∷ xs) rest (suc i) x h =
    ap (λ ys. some y ∷ ys) (set-map-some xs rest i x (omega arith))

-- A write to a slot in use replaces its value.
replace-Holds :
    (v : Vector) (xs : List ℕ) (i x : ℕ)
    → Holds v xs
    → i < length xs
    → (w : Vector) × (write v i x ≡ ok w) × Holds w (set xs i x)
unfolding write
replace-Holds v xs i x h here = (
  record v { slots = set v.slots i (some x) },
  rw (lt→ltb i (length v.slots) (omega (arith, length-slots v xs h, h.allocated))),
  record {
    rest = h.rest;
    slots = ap (λ ys. set ys i (some x)) h.slots ∙ set-map-some xs h.rest i x here;
    size = h.size ∙ sym (length-set xs i x);
    allocated = omega (arith, length-set xs i x, h.allocated);
    positive = h.positive;
    bounded = h.bounded;
  },
)

-- `int_vector_set` at an index that is not negative ends, with fuel for each slot up to the index,
-- and the values are then the old ones, zeros behind them up to the index, and the new one there.
pub set_at_refines :
    (fuel : ℕ) (v : Vector) (xs : List ℕ) (i x : ℕ)
    → Holds v xs
    → i < 2 ^ 31
    → suc i - length xs < fuel
    → length xs < 2 ^ 60
    → (w : Vector) × (set_at fuel v (pos i) x ≡ ok w) × Holds w (put xs i x)
unfolding set_at put to_size
set_at_refines fuel v xs i x h small enough len =
    let zeros = replicate (suc i - length xs) 0 in
    let (u, e, k) = zero_fill-Holds fuel v xs i h small enough len in
    let (w, e', k') =
      replace-Holds u (xs ++ zeros) i x k
        (omega (arith, length-append xs zeros, length-replicate {A = ℕ} (suc i - length xs) 0)) in
    (w, rw e e', k')

zero_fill_negative :
    (fuel : ℕ) (v : Vector) (xs : List ℕ) (n : ℕ)
    → Holds v xs
    → n < 2 ^ 31
    → length xs + fuel < 2 ^ 60
    → zero_fill fuel v (negsuc n) ≡ spin
unfolding zero_fill to_size
zero_fill_negative zero v xs n h small len = refl
zero_fill_negative (suc fuel) v xs n h small len =
    let (w, e, k) = append_refines v xs 0 h (omega arith) in
    let more : leb v.size (2 ^ 64 - 1 - n) ≡ true = ground (arith, h.size) in
    rw (more, e)
      (zero_fill_negative fuel w (xs ++ 0 ∷ []) n k small
        (omega (arith, length-append xs (0 ∷ []))))

-- `int_vector_set` at a negative index never gets to its write: the index compares as a size beyond
-- any that the loop reaches, so it appends zeros for as long as it runs.
set_at_negative :
    (fuel : ℕ) (v : Vector) (xs : List ℕ) (n x : ℕ)
    → Holds v xs
    → n < 2 ^ 31
    → length xs + fuel < 2 ^ 60
    → set_at fuel v (negsuc n) x ≡ spin
unfolding set_at
set_at_negative fuel v xs n x h small len = rw (zero_fill_negative fuel v xs n h small len)

-- A vector that was initialised with capacity 0 cannot grow: doubling leaves the capacity 0, and
-- each append writes out of bounds.
append_zero_capacity : (x : ℕ) → append (init 0) x ≡ fault out_of_bounds
unfolding append init resize write slots_of resize_slots
append_zero_capacity x = refl
