-- ===== src/Dict/Invariant.antt =====
-- What every dictionary keeps, whatever is done to it: `setTuple` with any key, NULL included, and
-- `removeTuple`, in any order.
pub mod Slots
use pwdmanlib.Base.{
  ℕ, zero, suc, ◌+◌, ◌%◌, ◌^◌, ◌≤◌, ◌<◌, true, ltb, lt→ltb, ltb→lt, Option, none, some, List, [],
  ◌∷◌, length, set, length-set, replicate, length-replicate, Bytes, ◌≡◌, inl, inr, refl, ap, ◌∙◌,
  arith, Result, ok, ◌>>=◌, Bool-cases, ◌-◌,
}
use pwdmanlib.Vector.{pos}
use pwdmanlib.Dict.Refine.{find_key-found, find_key-missing}
use pwdmanlib.Dict.{
  Tuple, Dict, Status, success, failure, empty_tuple, key_is, init_dict, find_from, find_key,
  first_free, set_val, store, set_tuple, remove_tuple,
}
use pwdmanlib.Dict.Invariant.Slots.{
  filled, filled-replicate, first_free-bound, filled-set, filled-set_val, Found, find_from-Found,
}

-- A call that changes a dictionary.
pub data Change {ℓ} (V : Type ℓ) : Type ℓ where
  set_change : Option Bytes → Option V → Change V
  remove_change : Option Bytes → Change V

module _ {ℓ} {V : Type ℓ} where
  -- The slots are `size` many; the counter is no lower than the number of filled slots and no
  -- higher than the size, so that an `int` holds the index of each.
  abbrev pub IsValid : Dict V → Type 0
  IsValid d =
      (length d.entries ≡ d.size)
      × (filled d.entries ≤ d.counter)
      × (d.counter ≤ d.size)
      × (d.size < 2 ^ 31)

  store-IsValid :
      (d : Dict V) (key : Option Bytes) (val : Option V)
      → IsValid d
      → d.counter < d.size
      → (e : Dict V) × (store d (first_free d.entries 0) key val ≡ ok (success, e))
        × IsValid e
        × (e.size ≡ d.size)
  unfolding store
  store-IsValid d key val (l, f, c, small) room =
      let i = first_free d.entries 0 in
      let t : Tuple V = record { key = key; val = val } in
      let below : i < d.size = omega (arith, first_free-bound d.entries 0 (omega arith)) in
      (
        record d { entries = set d.entries i t; counter = (d.counter + 1) % 2 ^ 32 },
        rw (lt→ltb i d.size below) refl,
        (length-set d.entries i t ∙ l, omega (arith, filled-set d.entries i t), omega arith, small),
        refl,
      )

  find_key-within :
      (d : Dict V) (key : Option Bytes) (i : ℕ)
      → find_from d.entries d.counter 0 key ≡ some i
      → Found d.entries d.counter 0 (some i)
      → d.counter < 2 ^ 31
      → find_key d key ≡ pos i
  unfolding Found
  find_key-within d key i h (p, e, below, fewer) small = find_key-found d key i h (omega arith)

  -- `setTuple` always returns, with the dictionary well formed.
  set_tuple-IsValid :
      (d : Dict V) (key : Option Bytes) (val : Option V)
      → IsValid d
      → (s : Status) × (e : Dict V) × (set_tuple d key val ≡ ok (s, e))
        × IsValid e
        × (e.size ≡ d.size)
  unfolding set_tuple
  set_tuple-IsValid d key val (l, f, c, small) =
      at (find_from d.entries d.counter 0 key) refl (find_from-Found d.entries d.counter 0 key)
    where
      at :
          (r : Option ℕ)
          → find_from d.entries d.counter 0 key ≡ r
          → Found d.entries d.counter 0 r
          → (s : Status) × (e : Dict V) × (set_tuple d key val ≡ ok (s, e))
            × IsValid e
            × (e.size ≡ d.size)
      at (some i) h g =
          let (same, len) = filled-set_val d.entries i val in
          (
            success,
            record d { entries = set_val d.entries i val },
            rw (find_key-within d key i h g (omega arith), set_tuple) refl,
            (len ∙ l, omega arith, c, small),
            refl,
          )
      at none h g = elim (Bool-cases (ltb d.counter d.size)) [
        | inl room ↦
            (let (e, p, v, z) = store-IsValid d key val (l, f, c, small) (ltb→lt _ _ room) in
              (success, e, rw (find_key-missing d key h, room, set_tuple) p, v, z))
        | inr full ↦ (
          failure,
          d,
          rw (find_key-missing d key h, full, set_tuple) refl,
          (l, f, c, small),
          refl,
        )
      ]

  remove_tuple-IsValid :
      (d : Dict V) (key : Option Bytes)
      → IsValid d
      → (s : Status) × (e : Dict V) × (remove_tuple d key ≡ ok (s, e))
        × IsValid e
        × (e.size ≡ d.size)
  unfolding remove_tuple Found
  remove_tuple-IsValid d key (l, f, c, small) =
      at (find_from d.entries d.counter 0 key) refl (find_from-Found d.entries d.counter 0 key)
    where
      at :
          (r : Option ℕ)
          → find_from d.entries d.counter 0 key ≡ r
          → Found d.entries d.counter 0 r
          → (s : Status) × (e : Dict V) × (remove_tuple d key ≡ ok (s, e))
            × IsValid e
            × (e.size ≡ d.size)
      at none h g =
          (failure, d, rw (find_key-missing d key h, remove_tuple) refl, (l, f, c, small), refl)
      at (some i) h (p, e, below, fewer) =
          let at_p : i ≡ p = omega arith in
          (
            success,
            record d {
              entries = set d.entries i empty_tuple;
              counter = (d.counter + 2 ^ 32 - 1) % 2 ^ 32;
            },
            rw (find_key-found d key i h (omega arith), remove_tuple) refl,
            (
              length-set d.entries i empty_tuple ∙ l,
              omega (arith, ap (λ j. filled (set d.entries j empty_tuple)) at_p),
              omega arith,
              small,
            ),
            refl,
          )

  -- The calls one after the other.
  pub run : List (Change V) → Dict V → Result (Dict V)
  run [] d = ok d
  run (set_change key val ∷ changes) d = set_tuple d key val >>= λ (s, e). run changes e
  run (remove_change key ∷ changes) d = remove_tuple d key >>= λ (s, e). run changes e

  run-from :
      (changes : List (Change V)) (d : Dict V)
      → IsValid d
      → (e : Dict V) × (run changes d ≡ ok e) × IsValid e × (e.size ≡ d.size)
  unfolding run
  run-from [] d v = (d, refl, v, refl)
  run-from (set_change key val ∷ changes) d v =
      let (s, e, p, w, z) = set_tuple-IsValid d key val v in
      let (r, q, u, y) = run-from changes e w in (r, rw p q, u, y ∙ z)
  run-from (remove_change key ∷ changes) d v =
      let (s, e, p, w, z) = remove_tuple-IsValid d key v in
      let (r, q, u, y) = run-from changes e w in (r, rw p q, u, y ∙ z)

  -- Whatever calls of `setTuple` and `removeTuple` are made on a new dictionary of less than 2^31
  -- slots, NULL keys and missing keys included, they all return, none of them writes outside of
  -- the slots, and afterwards the slots are as many as asked for, with the counter between the
  -- number of those that are filled and the size.
  pub run-IsValid :
      (size : ℕ) (changes : List (Change V))
      → size < 2 ^ 31
      → (d : Dict V) × ((init_dict true true size >>= run changes) ≡ ok d)
        × IsValid d
        × (d.size ≡ size)
  unfolding init_dict
  run-IsValid size changes small =
      run-from changes (record { size = size; counter = 0; entries = replicate size empty_tuple })
        (
          length-replicate size _,
          omega (arith, filled-replicate size (empty_tuple {V = V}) refl),
          omega arith,
          small,
        )
