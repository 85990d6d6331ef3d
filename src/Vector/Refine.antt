-- ===== src/Vector/Refine.antt =====
-- A vector with a positive capacity is the list of its values.
use mathlib.Core.Option
use pwdmanlib.Base.{
  ℕ, zero, suc, ◌+◌, ◌-◌, ◌*◌, ◌^◌, ◌≤◌, ◌<◌, ◌≡◌, inl, inr, refl, ap, ◌∙◌, leb, Option, none, some,
  List, [], ◌∷◌, ◌++◌, map, length, length-append, length-replicate, take, get_elem?, set,
  set-append_cons, replicate, append_assoc, map-append, get_elem?-in, get_elem?-out, ok, stop,
  arith, Bool-cases, lt→ltb,
}
use pwdmanlib.Vector.{
  pos, negsuc, Vector, size_t, slots_of, resize_slots, init, resize, write, append, get,
}

-- `v` is a usable vector of the values `xs`.
pub record Holds (v : Vector) (xs : List ℕ) : Type 0 where
  pub rest : List (Option ℕ)
  pub slots : v.slots ≡ map some xs ++ rest
  pub size : v.size ≡ length xs
  pub allocated : length xs + length rest ≡ v.capacity
  pub positive : 0 < v.capacity
  pub bounded : 4 * v.capacity < 2 ^ 64

-- A new vector of positive capacity holds nothing.
pub init-Holds : (capacity : ℕ) → 0 < capacity → 4 * capacity < 2 ^ 64 → Holds (init capacity) []
unfolding init slots_of
init-Holds c h k = record {
  rest = replicate (slots_of c) none;
  slots = refl;
  size = refl;
  allocated = omega (arith, length-replicate {A = Option ℕ} (slots_of c) none);
  positive = h;
  bounded = k;
}

pub length-map-some : (xs : List ℕ) → length (map some xs) ≡ length xs
length-map-some [] = refl
length-map-some (x ∷ xs) = ap suc (length-map-some xs)

take-all : (xs : List (Option ℕ)) (n : ℕ) → length xs ≤ n → take n xs ≡ xs
take-all [] zero h = refl
take-all [] (suc n) h = refl
take-all (x ∷ xs) zero h = absurd (omega arith)
take-all (x ∷ xs) (suc n) h = ap (λ ys. x ∷ ys) (take-all xs n (omega arith))

pub length-slots : (v : Vector) (xs : List ℕ) → Holds v xs → length v.slots ≡ v.capacity
length-slots v xs h =
    ap length h.slots
    ∙ omega (arith, length-append (map some xs) h.rest, length-map-some xs, h.allocated)

-- A full vector gets twice the slots.
grow-Holds :
    (v : Vector) (xs : List ℕ)
    → Holds v xs
    → v.capacity ≤ v.size
    → length xs < 2 ^ 60
    → Holds
        (record v {
          capacity = size_t (v.capacity * 2);
          slots = resize_slots v.slots (slots_of (size_t (v.capacity * 2)));
        })
        xs
unfolding resize_slots slots_of
grow-Holds v xs h full small =
    let n = slots_of (size_t (v.capacity * 2)) in
    let len = length-slots v xs h in
    let twice : n ≡ v.capacity * 2 = omega arith in
    let more = replicate (n - length v.slots) none in
    record {
      rest = h.rest ++ more;
      slots =
          ap (λ ys. ys ++ more) (take-all v.slots n (omega arith) ∙ h.slots)
          ∙ append_assoc (map some xs) h.rest more;
      size = h.size;
      allocated = omega (
        arith,
        length-append h.rest more,
        length-replicate {A = Option ℕ} (n - length v.slots) none,
        h.allocated,
      );
      positive = omega arith;
      bounded = omega arith;
    }

-- After the check for room a slot is free, and nothing else has changed.
resize-Holds :
    (v : Vector) (xs : List ℕ)
    → Holds v xs
    → length xs < 2 ^ 60
    → Holds (resize v) xs × ((resize v).size < (resize v).capacity)
unfolding resize
resize-Holds v xs h small = elim (Bool-cases (leb v.capacity v.size)) [
  | inl full ↦
      rw full
        (grow-Holds v xs h (ground arith) small, ground (arith, h.allocated, h.size, h.positive))
  | inr room ↦ rw room (h, ground arith)
]

-- A write to a free slot.
write-Holds :
    (v : Vector) (xs : List ℕ) (x : ℕ)
    → Holds v xs
    → v.size < v.capacity
    → length xs < 2 ^ 60
    → (w : Vector) × (write v v.size x ≡ ok w)
      × Holds (record w { size = size_t (w.size + 1) }) (xs ++ x ∷ [])
unfolding write
write-Holds v xs x h room small = go h.rest h.slots h.allocated
  where
    go :
        (rest : List (Option ℕ))
        → v.slots ≡ map some xs ++ rest
        → length xs + length rest ≡ v.capacity
        → (w : Vector) × (write v v.size x ≡ ok w)
          × Holds (record w { size = size_t (w.size + 1) }) (xs ++ x ∷ [])
    go [] e a = absurd (omega (arith, h.size))
    go (r ∷ rest) e a = (
      record v { slots = set v.slots v.size (some x) },
      rw (lt→ltb v.size (length v.slots) (omega (arith, length-slots v xs h))),
      record {
        rest = rest;
        slots =
            ap (λ ys. set ys v.size (some x)) e
            ∙ set-append_cons (map some xs) r rest v.size (some x)
                (omega (arith, length-map-some xs, h.size))
            ∙ simp (map-append, append_assoc);
        size = omega (arith, h.size, length-append xs (x ∷ []));
        allocated = omega (arith, length-append xs (x ∷ []));
        positive = h.positive;
        bounded = h.bounded;
      },
    )

-- `int_vector_append` on a vector of positive capacity adds its value behind the others, whether
-- or not it has to allocate.
pub append_refines :
    (v : Vector) (xs : List ℕ) (x : ℕ)
    → Holds v xs
    → length xs < 2 ^ 60
    → (w : Vector) × (append v x ≡ ok w) × Holds w (xs ++ x ∷ [])
unfolding append
append_refines v xs x h small =
    let (h', room) = resize-Holds v xs h small in
    let (w, e, k) = write-Holds (resize v) xs x h' room small in
    (record w { size = size_t (w.size + 1) }, rw e, k)

get_elem?-map-some :
    (xs : List ℕ) (rest : List (Option ℕ)) (i : ℕ)
    → i < length xs
    → get_elem? (map some xs ++ rest) i ≡ Option.map some (get_elem? xs i)
get_elem?-map-some [] rest i h = absurd (omega arith)
get_elem?-map-some (x ∷ xs) rest zero h = refl
get_elem?-map-some (x ∷ xs) rest (suc i) h = get_elem?-map-some xs rest i (omega arith)

-- `int_vector_get` returns the value at its index, and exits for an index that is negative or too
-- large.
pub get_refines :
    (v : Vector) (xs : List ℕ) (i : ℕ)
    → Holds v xs
    → (get v (pos i) ≡ elim (get_elem? xs i) [ some x ↦ ok x | none ↦ stop 1 ])
      × (get v (negsuc i) ≡ stop 1)
unfolding get
get_refines v xs i h = elim (Bool-cases (leb v.size i)) [
  | inl out ↦ rw (out, get_elem?-out xs i (ground (arith, h.size))) (refl, refl)
  | inr here ↦
      (let (x, e) = get_elem?-in xs i (ground (arith, h.size)) in
        rw (here, e, h.slots, get_elem?-map-some xs h.rest i (ground (arith, h.size)), e)
          (refl, refl))
]
