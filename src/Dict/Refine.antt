-- ===== src/Dict/Refine.antt =====
-- A dictionary that only grew holds its bindings in its first slots, and works as they do.
use mathlib.Core.Option
use native.Mathlib.Nat.{sub-zero}
use pwdmanlib.Base.{
  ℕ, zero, suc, ◌+◌, ◌-◌, ◌^◌, ◌<◌, true, false, ltb, lt→ltb, ltb→lt, if◌then◌else◌, Option, none,
  some, List, [], ◌∷◌, ◌++◌, length, length-append, replicate, get_elem?, set, set-append_cons,
  Bytes, strcmp, strcmp_self, ◌≡◌, inl, inr, refl, sym, ap, ◌∙◌, arith, ok, append_assoc,
  Bool-cases, ◌≤◌,
}
use pwdmanlib.Vector.{pos, negsuc}
use pwdmanlib.Dict.{
  Tuple, Dict, success, failure, empty_tuple, key_is, to_int, init_dict, find_from, find_key,
  first_free, set_val, store, set_tuple, val_at, key_at, get_tuple, get_index,
}
use pwdmanlib.Dict.Assoc.{
  Bindings, has, lookup, insert, length-insert, insert-append, lookup-none, has-append, insert-last,
}

module _ {ℓ} {V : Type ℓ} where
  abbrev pub slots : Bindings V → List (Tuple V)
  slots [] = []
  slots ((k, v) ∷ m) = record { key = some k; val = v } ∷ slots m

  -- The dictionary of `size` slots that holds `m`.
  abbrev pub of_bindings : ℕ → Bindings V → Dict V
  of_bindings size m = record {
    size = size;
    counter = length m;
    entries = slots m ++ replicate (size - length m) empty_tuple;
  }

  -- The place of a key among the bindings, counted from `i`.
  unfoldable pub place : Bytes → Bindings V → ℕ → Option ℕ
  place k [] i = none
  place k ((j, v) ∷ m) i = if strcmp j k then some i else place k m (i + 1)

  pub find_from-slots :
      (k : Bytes) (m : Bindings V) (rest : List (Tuple V)) (i : ℕ)
      → find_from (slots m ++ rest) (length m) i (some k) ≡ place k m i
  unfolding find_from place key_is
  find_from-slots k [] rest i = refl
  find_from-slots k ((j, v) ∷ m) rest i = ground (arith, find_from-slots k m rest (i + 1))

  -- A key that is found at an index that an `int` holds.
  pub find_key-found :
      (d : Dict V) (k : Option Bytes) (n : ℕ)
      → find_from d.entries d.counter 0 k ≡ some n
      → n < 2 ^ 31
      → find_key d k ≡ pos n
  unfolding find_key to_int
  find_key-found d k n h small = rw (h, find_key, lt→ltb n (2 ^ 31) small) refl

  pub find_key-missing :
      (d : Dict V) (k : Option Bytes)
      → find_from d.entries d.counter 0 k ≡ none
      → find_key d k ≡ negsuc 0
  unfolding find_key
  find_key-missing d k h = rw (h, find_key) refl

  pub find_key-placed :
      (size : ℕ) (k : Bytes) (m : Bindings V) (n : ℕ)
      → place k m 0 ≡ some n
      → n < 2 ^ 31
      → find_key (of_bindings size m) (some k) ≡ pos n
  find_key-placed size k m n e small =
      find_key-found (of_bindings size m) (some k) n (find_from-slots k m _ 0 ∙ e) small

  find_key-not_placed :
      (size : ℕ) (k : Bytes) (m : Bindings V)
      → place k m 0 ≡ none
      → find_key (of_bindings size m) (some k) ≡ negsuc 0
  find_key-not_placed size k m e =
      find_key-missing (of_bindings size m) (some k) (find_from-slots k m _ 0 ∙ e)

  pub place-none : (k : Bytes) (m : Bindings V) (i : ℕ) → has k m ≡ false → place k m i ≡ none
  unfolding place has
  place-none k [] i h = refl
  place-none k ((j, v) ∷ m) i h = ground (arith, place-none k m (i + 1))

  -- A key that is there has a place, where writing and reading work as on the bindings.
  pub place-some :
      (k : Bytes) (v : Option V) (m : Bindings V) (rest : List (Tuple V)) (i : ℕ)
      → has k m ≡ true
      → (n : ℕ) × (place k m i ≡ some (i + n))
        × (n < length m)
        × (set_val (slots m ++ rest) n v ≡ slots (insert k v m) ++ rest)
        × (some (val_at (slots m ++ rest) n) ≡ lookup k m)
  unfolding place has set_val insert lookup
  place-some k v [] rest i h = cc
  place-some k v ((j, w) ∷ m) rest i h = elim (Bool-cases (strcmp j k)) [
    | inl e ↦ (0, ground arith, omega arith, rw e, rw e)
    | inr e ↦
        (let (n, p, l, q, r) = place-some k v m rest (i + 1) (rw e at h) in
          (
            suc n,
            ground arith,
            omega arith,
            rw e (ap (λ ts. record { key = some j; val = w } ∷ ts) q),
            rw e r,
          ))
  ]

  first_free-slots :
      (m : Bindings V) (n i : ℕ)
      → first_free (slots m ++ replicate (suc n) empty_tuple) i ≡ i + length m
  unfolding first_free
  first_free-slots [] n i = omega arith
  first_free-slots ((k, v) ∷ m) n i = first_free-slots m n (i + 1) ∙ omega arith

  pub length-slots : (m : Bindings V) → length (slots m) ≡ length m
  length-slots [] = refl
  length-slots (b ∷ m) = ap suc (length-slots m)

  pub slots-append : (m n : Bindings V) → slots (m ++ n) ≡ slots m ++ slots n
  slots-append [] n = refl
  slots-append ((k, v) ∷ m) n = ap (λ ts. record { key = some k; val = v } ∷ ts) (slots-append m n)

  -- The first free slot takes a new binding behind the others.
  set-slots :
      (k : Bytes) (v : Option V) (m : Bindings V) (n : ℕ)
      → set (slots m ++ replicate (suc n) empty_tuple) (length m) (record { key = some k; val = v })
        ≡ slots (m ++ (k, v) ∷ []) ++ replicate n empty_tuple
  set-slots k v m n =
      set-append_cons (slots m) _ _ (length m) _ (sym (length-slots m))
      ∙ rw (slots-append, append_assoc)

  -- A new dictionary holds nothing.
  pub init_dict-of_bindings : (size : ℕ) → init_dict true true size ≡ ok (of_bindings size [])
  unfolding init_dict
  init_dict-of_bindings size = ground (arith, sub-zero size)

  grow :
      (size : ℕ) (k : Bytes) (v : Option V) (m : Bindings V)
      → has k m ≡ false
      → length m < size
      → length m ≤ 2 ^ 31
      → store (of_bindings size m) (first_free (of_bindings size m).entries 0) (some k) v
        ≡ ok (success, of_bindings size (insert k v m))
  unfolding store
  grow size k v m h room small =
      let n : ℕ = size - suc (length m) in
      let e : size - length m ≡ suc n = omega arith in
      let at : first_free (slots m ++ replicate (suc n) empty_tuple) 0 ≡ length m =
        first_free-slots m n 0 ∙ omega arith in
      let more : length (m ++ (k, v) ∷ []) ≡ suc (length m) =
        omega (arith, length-append m ((k, v) ∷ [])) in
      let left : size - length (m ++ (k, v) ∷ []) ≡ n = omega arith in
      rw (e, at, lt→ltb _ _ room, insert-append k v m h, left, set-slots k v m n, more)
        (ap
          (λ c. ok (
            success,
            record {
              size = size;
              counter = c;
              entries = slots (m ++ (k, v) ∷ []) ++ replicate n empty_tuple;
            },
          ))
          (omega arith))

  -- Where `findKey` finds a key, the slot is that of its binding.
  found :
      (size : ℕ) (k : Bytes) (v : Option V) (m : Bindings V)
      → has k m ≡ true
      → length m ≤ 2 ^ 31
      → (n : ℕ) × (find_key (of_bindings size m) (some k) ≡ pos n)
        × (record (of_bindings size m) { entries = set_val (of_bindings size m).entries n v }
            ≡ of_bindings size (insert k v m))
        × (some (val_at (of_bindings size m).entries n) ≡ lookup k m)
  found size k v m e small =
      let rest = replicate (size - length m) empty_tuple in
      let (n, p, l, q, r) = place-some k v m rest 0 e in
      let same : length (insert k v m) ≡ length m = rw length-insert (rw e) in
      (
        n,
        find_key-placed size k m n (p ∙ ap some (omega arith)) (omega arith),
        rw same (ap (λ ts. record { size = size; counter = length m; entries = ts }) q),
        r,
      )

  -- `setTuple` with a key that is not NULL, on a dictionary that only grew, with at most 2^31 bindings
  -- so that an `int` holds the index of each: it binds the key if the
  -- key is there or a slot is left, and else fails and changes nothing.
  pub set_tuple_refines :
      (size : ℕ) (k : Bytes) (v : Option V) (m : Bindings V)
      → length m ≤ 2 ^ 31
      → set_tuple (of_bindings size m) (some k) v ≡ (
          if has k m
          then ok (success, of_bindings size (insert k v m))
          else if ltb (length m) size
          then ok (success, of_bindings size (insert k v m))
          else ok (failure, of_bindings size m))
  unfolding set_tuple
  set_tuple_refines size k v m small = elim (Bool-cases (has k m)) [
    | inl e ↦
        (let (n, p, q, r) = found size k v m e small in
          rw (e, p, set_tuple) (ap (λ d. ok (success, d)) q))
    | inr e ↦
        rw (e, find_key-not_placed size k m (place-none k m 0 e), set_tuple)
          (elim (Bool-cases (ltb (length m) size)) [
            | inl room ↦ rw room (grow size k v m e (ltb→lt _ _ room) small)
            | inr full ↦ rw full
          ])
  ]

  -- A key that is new goes behind the others.
  pub set_tuple-new :
      (size : ℕ) (k : Bytes) (v : Option V) (m : Bindings V)
      → length m ≤ 2 ^ 31
      → has k m ≡ false
      → length m < size
      → set_tuple (of_bindings size m) (some k) v
        ≡ ok (success, of_bindings size (m ++ (k, v) ∷ []))
  set_tuple-new size k v m small new room =
      rw
        (
          set_tuple_refines size k v m small,
          new,
          lt→ltb (length m) size room,
          insert-append k v m new,
        )
        refl

  -- A key that came last gets its new value.
  pub set_tuple-last :
      (size : ℕ) (k : Bytes) (v w : Option V) (m : Bindings V)
      → length m < 2 ^ 31
      → has k m ≡ false
      → set_tuple (of_bindings size (m ++ (k, v) ∷ [])) (some k) w
        ≡ ok (success, of_bindings size (m ++ (k, w) ∷ []))
  set_tuple-last size k v w m small new =
      let here : has k (m ++ (k, v) ∷ []) ≡ true =
        has-append k m ((k, v) ∷ []) ∙ (unfold has in ground (arith, strcmp_self k)) in
      let few : length (m ++ (k, v) ∷ []) ≤ 2 ^ 31 = omega (arith, length-append m ((k, v) ∷ [])) in
      rw (set_tuple_refines size k w (m ++ (k, v) ∷ []) few, here, insert-last k v w m new) refl

  -- `getTuple` reads the binding of its key, and reports a key that has none.
  pub get_tuple_refines :
      (size : ℕ) (k : Bytes) (m : Bindings V)
      → length m ≤ 2 ^ 31
      → get_tuple (of_bindings size m) (some k) ≡ ok (lookup k m)
  unfolding get_tuple
  get_tuple_refines size k m small = elim (Bool-cases (has k m)) [
    | inl e ↦ (let (n, p, q, r) = found size k none m e small in rw (p, get_tuple) (ap ok r))
    | inr e ↦
        rw (find_key-not_placed size k m (place-none k m 0 e), get_tuple)
          (ap ok (sym (lookup-none k m e)))
  ]

  -- What `get_index` looks at, slot by slot.
  index-slots :
      (m : Bindings V) (rest : List (Tuple V)) (i : ℕ)
      → (if ltb i (length m)
          then elim (key_at (slots m ++ rest) i) [
            | some key ↦ some (val_at (slots m ++ rest) i)
            | none ↦ none
          ]
          else none)
        ≡ Option.map (λ b. b.1) (get_elem? m i)
  index-slots [] rest i = ground arith
  index-slots ((k, v) ∷ m) rest zero = ground arith
  index-slots ((k, v) ∷ m) rest (suc i) = ground (arith, index-slots m rest i)

  -- `getIndex` reads the bindings in the order in which their keys first came.
  pub get_index_refines :
      (size index : ℕ) (m : Bindings V)
      → get_index (of_bindings size m) index ≡ Option.map (λ b. b.1) (get_elem? m index)
  unfolding get_index
  get_index_refines size index m = index-slots m (replicate (size - length m) empty_tuple) index
