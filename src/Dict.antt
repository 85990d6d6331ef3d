-- ===== src/Dict.antt =====
-- src/util/oop.h, the dictionary of static size. `entries[i]` always points to `table[i]` until
-- `destroyDict`, so the two arrays are one list of slots here. A key that is `none` is NULL.
mod Tests
pub mod Assoc
pub mod Refine
pub mod Removal
pub mod View
pub mod Invariant
pub mod Termination
use pwdmanlib.Vector.{CInt, pos, negsuc}
use pwdmanlib.Base.{
  ℕ, zero, suc, ◌+◌, ◌-◌, ◌%◌, ◌^◌, Bool, true, false, ltb, if◌then◌else◌, Option, none, some, List,
  [], ◌∷◌, get_elem?, set, replicate, Bytes, strcmp, Result, ok, fault, stop, out_of_bounds,
}

-- `struct tuple`. A `val` that is `none` is NULL, or was never set.
pub record Tuple {ℓ} (V : Type ℓ) : Type ℓ where
  pub key : Option Bytes
  pub val : Option V

-- `struct dict`.
pub record Dict {ℓ} (V : Type ℓ) : Type ℓ where
  pub size : ℕ
  pub counter : ℕ
  pub entries : List (Tuple V)

-- The `short` that an operation returns: 0 or -1.
pub data Status : Type 0 where
  success failure : Status

abbrev pub empty_tuple {ℓ} : {V : Type ℓ} → Tuple V
empty_tuple = record { key = none; val = none }

-- Whether two keys are not NULL and equal.
pub key_is : Option Bytes → Option Bytes → Bool
key_is none check = false
key_is (some key) none = false
key_is (some key) (some check) = strcmp key check

-- The conversion of an `unsigned int` to `int`.
pub to_int : ℕ → CInt
to_int i = if ltb i (2 ^ 31) then pos i else negsuc (2 ^ 32 - 1 - i)

module _ {ℓ} {V : Type ℓ} where
  -- The two flags say whether the allocation of the dictionary and those of its arrays succeed;
  -- where they do not, `exit(-1)` ends the process with status 255.
  pub init_dict : Bool → Bool → ℕ → Result (Dict V)
  init_dict false arrays size = stop 255
  init_dict true false size = stop 255
  init_dict true true size =
      ok (record { size = size; counter = 0; entries = replicate size empty_tuple })

  -- The loop of `findKey` over the slots from index `i` on, with `left` rounds to make.
  pub find_from : List (Tuple V) → ℕ → ℕ → Option Bytes → Option ℕ
  find_from ts zero i check = none
  find_from [] (suc left) i check = none
  find_from (t ∷ ts) (suc left) i check =
      if key_is t.key check then some i else find_from ts left (i + 1) check

  -- The index that is found is returned as an `int`, and -1 where there is none. Only the first
  -- `counter` slots are looked at.
  pub find_key : Dict V → Option Bytes → CInt
  unfolding find_from to_int
  find_key d check = elim (find_from d.entries d.counter 0 check) [
    | some i ↦ to_int i
    | none ↦ negsuc 0
  ]

  -- The first slot from index `i` on whose key is NULL; the index past the end if there is none.
  pub first_free : List (Tuple V) → ℕ → ℕ
  first_free [] i = i
  first_free (t ∷ ts) i = elim t.key [ none ↦ i | some key ↦ first_free ts (i + 1) ]

  -- `entries[i]->val = val`
  pub set_val : List (Tuple V) → ℕ → Option V → List (Tuple V)
  set_val [] i v = []
  set_val (t ∷ ts) zero v = record { key = t.key; val = v } ∷ ts
  set_val (t ∷ ts) (suc i) v = t ∷ set_val ts i v

  -- The new entry of `setTuple`.
  pub store : Dict V → ℕ → Option Bytes → Option V → Result (Status × Dict V)
  store d i key val =
      if ltb i d.size
      then ok (
        success,
        record d {
          entries = set d.entries i (record { key = key; val = val });
          counter = (d.counter + 1) % 2 ^ 32;
        },
      )
      else fault out_of_bounds

  pub set_tuple : Dict V → Option Bytes → Option V → Result (Status × Dict V)
  set_tuple d key val = elim (find_key d key) [
    | pos i ↦ ok (success, record d { entries = set_val d.entries i val })
    | negsuc zero ↦
        if ltb d.counter d.size then store d (first_free d.entries 0) key val else ok (failure, d)
    | negsuc (suc k) ↦ fault out_of_bounds
  ]

  abbrev pub val_at : List (Tuple V) → ℕ → Option V
  val_at [] i = none
  val_at (t ∷ ts) zero = t.val
  val_at (t ∷ ts) (suc i) = val_at ts i

  abbrev pub key_at : List (Tuple V) → ℕ → Option Bytes
  key_at [] i = none
  key_at (t ∷ ts) zero = t.key
  key_at (t ∷ ts) (suc i) = key_at ts i

  -- `none` is `(void *) -1`.
  pub get_tuple : Dict V → Option Bytes → Result (Option (Option V))
  get_tuple d key = elim (find_key d key) [
    | pos i ↦ ok (some (val_at d.entries i))
    | negsuc zero ↦ ok none
    | negsuc (suc k) ↦ fault out_of_bounds
  ]

  pub get_index : Dict V → ℕ → Option (Option V)
  get_index d index =
      if ltb index d.counter
      then elim (key_at d.entries index) [ some key ↦ some (val_at d.entries index) | none ↦ none ]
      else none

  pub remove_tuple : Dict V → Option Bytes → Result (Status × Dict V)
  remove_tuple d key = elim (find_key d key) [
    | pos i ↦ ok (
      success,
      record d {
        entries = set d.entries i empty_tuple;
        counter = (d.counter + 2 ^ 32 - 1) % 2 ^ 32;
      },
    )
    | negsuc zero ↦ ok (failure, d)
    | negsuc (suc k) ↦ fault out_of_bounds
  ]

-- The loop of `destroyDict`: how many of the pointers it sets to NULL before the arrays are freed.
-- It lowers the counter that bounds it. The first argument is fuel.
pub clear_from : ℕ → ℕ → ℕ → ℕ
clear_from zero i counter = i
clear_from (suc fuel) i counter =
    let rest = clear_from fuel (i + 1) (counter - 1) in if ltb i counter then rest else i

pub destroy_dict {ℓ} : {V : Type ℓ} → Dict V → ℕ
unfolding clear_from
destroy_dict d = clear_from d.counter 0 d.counter
