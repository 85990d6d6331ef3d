-- ===== src/Vector.antt =====
-- src/util/vector.c and vector.h, the growing array of ints. A slot that was never written is
-- `none`; an int is its 32-bit pattern, since the vector only moves it. Allocations succeed.
mod Tests
pub mod Refine
pub mod Assign
pub mod Increment
pub mod Growing
use pwdmanlib.Base.{
  ℕ, zero, suc, ◌+◌, ◌-◌, ◌*◌, ◌/◌, ◌%◌, ◌^◌, Bool, true, false, ltb, leb, if◌then◌else◌, Option,
  none, some, List, [], ◌∷◌, ◌++◌, length, take, get_elem?, set, replicate, Result, ok, fault, stop,
  spin, out_of_bounds, uninitialised, ◌>>=◌, demand,
}

-- A C `int`: `negsuc n` is -(n + 1).
pub data CInt : Type 0 where
  pos : ℕ → CInt
  negsuc : ℕ → CInt

-- What an `int` becomes where it is compared with a `size_t`.
pub to_size : CInt → ℕ
to_size (pos n) = n
to_size (negsuc n) = 2 ^ 64 - 1 - n

pub record Vector : Type 0 where
  pub size : ℕ
  pub capacity : ℕ
  pub slots : List (Option ℕ)

abbrev pub size_t : ℕ → ℕ
size_t n = n % 2 ^ 64

-- The ints that fit an allocation of `sizeof(int) * capacity` bytes, computed as a `size_t`.
pub slots_of : ℕ → ℕ
slots_of capacity = size_t (4 * capacity) / 4

-- `realloc`: what fits is kept, and what is added is not initialised.
pub resize_slots : List (Option ℕ) → ℕ → List (Option ℕ)
resize_slots xs n = take n xs ++ replicate (n - length xs) none

pub init : ℕ → Vector
unfolding slots_of
init capacity = record { size = 0; capacity = capacity; slots = replicate (slots_of capacity) none }

pub resize : Vector → Vector
unfolding slots_of resize_slots
resize v =
    if leb v.capacity v.size
    then record v {
      capacity = size_t (v.capacity * 2);
      slots = resize_slots v.slots (slots_of (size_t (v.capacity * 2)));
    }
    else v

-- `vector->data[i] = value`
pub write : Vector → ℕ → ℕ → Result Vector
write v i value =
    if ltb i (length v.slots)
    then ok (record v { slots = set v.slots i (some value) })
    else fault out_of_bounds

pub append : Vector → ℕ → Result Vector
append v value = do
  let r = resize v
  w ← write r r.size value
  ok (record w { size = size_t (w.size + 1) })

-- A read out of range prints a message and exits with status 1.
pub get : Vector → CInt → Result ℕ
unfolding to_size
get v (negsuc n) = stop 1
get v (pos n) =
    if leb v.size n
    then stop 1
    else do slot ← demand out_of_bounds (get_elem? v.slots n); demand uninitialised slot

-- The loop of `int_vector_set`, on fuel: it appends zeros while `index >= size`.
pub zero_fill : ℕ → Vector → CInt → Result Vector
zero_fill zero v index = spin
zero_fill (suc fuel) v index =
    let rest = append v 0 >>= λ w. zero_fill fuel w index in
    if leb v.size (to_size index) then rest else ok v

pub set_at : ℕ → Vector → CInt → ℕ → Result Vector
set_at fuel v index value = do w ← zero_fill fuel v index; write w (to_size index) value
