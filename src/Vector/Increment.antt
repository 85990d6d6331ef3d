-- ===== src/Vector/Increment.antt =====
-- The second vector of vector.c, `IncrementVector`: a struct and functions of its own, which work
-- as those of `Vector` do.
use pwdmanlib.Base.{
  ℕ, zero, suc, ◌+◌, ◌*◌, ◌≡◌, refl, ltb, leb, if◌then◌else◌, Option, none, some, List, length,
  get_elem?, set, replicate, Result, ok, fault, stop, spin, out_of_bounds, uninitialised, ◌>>=◌,
  demand, arith, Bool-cases, inl, inr,
}
use pwdmanlib.Vector.{
  CInt, pos, negsuc, to_size, Vector, size_t, slots_of, resize_slots, init, resize, write, append,
  get, zero_fill, set_at,
}

pub record IncrementVector : Type 0 where
  pub size : ℕ
  pub capacity : ℕ
  pub slots : List (Option ℕ)

pub increment_init : ℕ → IncrementVector
increment_init capacity = record {
  size = 0;
  capacity = capacity;
  slots = replicate (slots_of capacity) none;
}

double_capacity_if_full : IncrementVector → IncrementVector
double_capacity_if_full v =
    if leb v.capacity v.size
    then record v {
      capacity = size_t (v.capacity * 2);
      slots = resize_slots v.slots (slots_of (size_t (v.capacity * 2)));
    }
    else v

-- `vector->data[i] = value`
increment_write : IncrementVector → ℕ → ℕ → Result IncrementVector
increment_write v i value =
    if ltb i (length v.slots)
    then ok (record v { slots = set v.slots i (some value) })
    else fault out_of_bounds

pub increment_append : IncrementVector → ℕ → Result IncrementVector
increment_append v value = do
  let r = double_capacity_if_full v
  w ← increment_write r r.size value
  ok (record w { size = size_t (w.size + 1) })

pub increment_get : IncrementVector → CInt → Result ℕ
increment_get v (negsuc n) = stop 1
increment_get v (pos n) =
    if leb v.size n
    then stop 1
    else do slot ← demand out_of_bounds (get_elem? v.slots n); demand uninitialised slot

increment_zero_fill : ℕ → IncrementVector → CInt → Result IncrementVector
increment_zero_fill zero v index = spin
increment_zero_fill (suc fuel) v index =
    let rest = increment_append v 0 >>= λ w. increment_zero_fill fuel w index in
    if leb v.size (to_size index) then rest else ok v

pub increment_set : ℕ → IncrementVector → CInt → ℕ → Result IncrementVector
increment_set fuel v index value = do
  w ← increment_zero_fill fuel v index
  increment_write w (to_size index) value

-- The same fields as a `Vector`.
abbrev pub as_vector : IncrementVector → Vector
as_vector v = record { size = v.size; capacity = v.capacity; slots = v.slots }

abbrev pub of_vector : Vector → IncrementVector
of_vector v = record { size = v.size; capacity = v.capacity; slots = v.slots }

-- A result with its vector turned into the other struct.
abbrev pub of_result : Result Vector → Result IncrementVector
of_result (ok v) = ok (of_vector v)
of_result (fault e) = fault e
of_result (stop n) = stop n
of_result spin = spin

-- Steps that agree on the two structs make runs that agree.
bind-of_result :
    (r : Result Vector) (f : IncrementVector → Result IncrementVector) (g : Vector → Result Vector)
    → ((w : Vector) → f (of_vector w) ≡ of_result (g w))
    → (of_result r >>= f) ≡ of_result (r >>= g)
bind-of_result (ok w) f g h = h w
bind-of_result (fault e) f g h = refl
bind-of_result (stop n) f g h = refl
bind-of_result spin f g h = refl

pub increment_init-init : (n : ℕ) → of_vector (init n) ≡ increment_init n
unfolding increment_init init
increment_init-init n = refl

double-resize : (v : IncrementVector) → double_capacity_if_full v ≡ of_vector (resize (as_vector v))
unfolding double_capacity_if_full resize
double-resize v = ground arith

increment_write-write :
    (v : IncrementVector) (i x : ℕ) → increment_write v i x ≡ of_result (write (as_vector v) i x)
unfolding increment_write write
increment_write-write v i x = ground arith

increment_append-append :
    (v : IncrementVector) (x : ℕ) → increment_append v x ≡ of_result (append (as_vector v) x)
unfolding increment_append append
increment_append-append v x =
    rw (double-resize v, increment_write-write (of_vector (resize (as_vector v))))
      (bind-of_result (write (resize (as_vector v)) (resize (as_vector v)).size x) _ _ (λ w. refl))

increment_zero_fill-zero_fill :
    (fuel : ℕ) (v : IncrementVector) (index : CInt)
    → increment_zero_fill fuel v index ≡ of_result (zero_fill fuel (as_vector v) index)
unfolding increment_zero_fill zero_fill
increment_zero_fill-zero_fill zero v index = refl
increment_zero_fill-zero_fill (suc fuel) v index = elim (Bool-cases (leb v.size (to_size index))) [
  | inl more ↦
      rw (more, increment_append-append v 0)
        (bind-of_result (append (as_vector v) 0) _ _
          (λ w. increment_zero_fill-zero_fill fuel (of_vector w) index))
  | inr done ↦ rw done
]

increment_get-get :
    (v : IncrementVector) (index : CInt) → increment_get v index ≡ get (as_vector v) index
unfolding increment_get get
increment_get-get v (pos n) = refl
increment_get-get v (negsuc n) = refl

-- Every operation of the second vector returns what that of the first returns on the same fields,
-- exits and faults included.
pub increment_simulates :
    (fuel : ℕ) (v : IncrementVector) (index : CInt) (x : ℕ)
    → (increment_append v x ≡ of_result (append (as_vector v) x))
      × (increment_get v index ≡ get (as_vector v) index)
      × (increment_set fuel v index x ≡ of_result (set_at fuel (as_vector v) index x))
unfolding increment_set set_at
increment_simulates fuel v index x = (
  increment_append-append v x,
  increment_get-get v index,
  rw (increment_zero_fill-zero_fill fuel v index) (
      bind-of_result (zero_fill fuel (as_vector v) index) _ _
        (λ w. increment_write-write (of_vector w) (to_size index) x)),
)
