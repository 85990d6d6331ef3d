-- ===== src/Dict/View.antt =====
-- What a dictionary that only grew shows to `getTuple`: the bindings, up to what cannot be looked up.
use mathlib.Core.Option
use mathlib.Core.Quot
use mathlib.Core.Quot.{Quot, Quot-set}
use pwdmanlib.Base.{
  ℕ, ◌+◌, ◌^◌, ◌≤◌, ◌<◌, ◌≡◌, ◌≢◌, refl, sym, ap, ◌∙◌, true, Option, some, List, [], ◌∷◌, ◌++◌,
  length, length-append, lt→ltb, if◌then◌else◌, strcmp, strcmp_iff, Bytes, Result, ok, ◌>>=◌,
  Bool-cases, inl, inr, arith,
}
use pwdmanlib.Dict.{Dict, success, init_dict, set_tuple, get_tuple}
use pwdmanlib.Dict.Assoc.{Bindings, has, lookup, insert, lookup-insert, length-insert}
use pwdmanlib.Dict.Refine.{of_bindings, init_dict-of_bindings, set_tuple_refines, get_tuple_refines}

-- Two lists of bindings that no look-up tells apart.
abbrev SameView {ℓ} : {V : Type ℓ} → Bindings V → Bindings V → Type ℓ
SameView m n = (k : Bytes) → lookup k m ≡ lookup k n

abbrev pub View {ℓ} : Type ℓ → Type ℓ
View V = Quot (SameView {V = V})

module _ {ℓ} {V : Type ℓ} where
  insert-SameView :
      (k : Bytes) (v : Option V) (m n : Bindings V)
      → SameView m n
      → SameView (insert k v m) (insert k v n)
  insert-SameView k v m n h j =
      lookup-insert k j v m
      ∙ ap (λ found. if strcmp k j then some v else found) (h j)
      ∙ sym (lookup-insert k j v n)

  insert_comm :
      (k j : Bytes) (v w : Option V) (m : Bindings V)
      → k ≢ j
      → SameView (insert k v (insert j w m)) (insert j w (insert k v m))
  insert_comm k j v w m ne i =
      rw
        (
          lookup-insert k i v (insert j w m),
          lookup-insert j i w m,
          lookup-insert j i w (insert k v m),
          lookup-insert k i v m,
        )
        (ground (arith, strcmp_iff k i, strcmp_iff j i, ne))

  pub bind : Bytes → Option V → View V → View V
  bind k v =
      Quot.lift Quot-set (λ m. Quot.mk (insert k v m))
        (λ m n h. Quot.sound (insert-SameView k v m n h))

  -- Binding two different keys is the same in either order.
  bind_comm :
      (k j : Bytes) (v w : Option V) (t : View V)
      → k ≢ j
      → bind k v (bind j w t) ≡ bind j w (bind k v t)
  unfolding bind
  bind_comm k j v w t ne =
      Quot.ind (λ t. Quot-set (bind k v (bind j w t)) (bind j w (bind k v t)))
        (λ m. Quot.sound (insert_comm k j v w m ne)) t

  -- What the calls of `setTuple` bind, one after the other.
  abbrev pub bind_all : List (Bytes × Option V) → View V → View V
  bind_all [] t = t
  bind_all ((k, v) ∷ kvs) t = bind_all kvs (bind k v t)

  bind_all-append :
      (xs ys : List (Bytes × Option V)) (t : View V)
      → bind_all (xs ++ ys) t ≡ bind_all ys (bind_all xs t)
  bind_all-append [] ys t = refl
  bind_all-append ((k, v) ∷ xs) ys t = bind_all-append xs ys (bind k v t)

  abbrev insert_all : List (Bytes × Option V) → Bindings V → Bindings V
  insert_all [] m = m
  insert_all ((k, v) ∷ kvs) m = insert_all kvs (insert k v m)

  bind_all-mk :
      (kvs : List (Bytes × Option V)) (m : Bindings V)
      → bind_all kvs (Quot.mk m) ≡ Quot.mk (insert_all kvs m)
  unfolding bind
  bind_all-mk [] m = refl
  bind_all-mk ((k, v) ∷ kvs) m = bind_all-mk kvs (insert k v m)

  -- The calls of `setTuple`, one after the other.
  abbrev pub set_all : List (Bytes × Option V) → Dict V → Result (Dict V)
  set_all [] d = ok d
  set_all ((k, v) ∷ kvs) d = set_tuple d (some k) v >>= λ r. set_all kvs r.1

  set_all-of_bindings :
      (size : ℕ) (kvs : List (Bytes × Option V)) (m : Bindings V)
      → size < 2 ^ 31
      → length m + length kvs ≤ size
      → set_all kvs (of_bindings size m) ≡ ok (of_bindings size (insert_all kvs m))
  set_all-of_bindings size [] m small fits = refl
  set_all-of_bindings size ((k, v) ∷ kvs) m small fits =
      let stored : set_tuple (of_bindings size m) (some k) v
          ≡ ok (success, of_bindings size (insert k v m)) =
        set_tuple_refines size k v m (omega (arith, fits))
        ∙ rw (lt→ltb (length m) size (omega (arith, fits)))
            (elim (Bool-cases (has k m)) [ inl e ↦ rw e refl | inr e ↦ rw e refl ]) in
      let room : length (insert k v m) + length kvs ≤ size = ground (arith, length-insert k v m) in
      ap (λ r. r >>= λ q. set_all kvs q.1) stored
      ∙ set_all-of_bindings size kvs (insert k v m) small room

  -- A look-up respects the view.
  unfoldable pub find : IsSet V → Bytes → View V → Option (Option V)
  find V_set k = Quot.lift (Option.is_set (Option.is_set V_set)) (lookup k) (λ m n h. h k)

  bind_all-swap :
      (xs ys : List (Bytes × Option V)) (k j : Bytes) (v w : Option V) (t : View V)
      → k ≢ j
      → bind_all (xs ++ (k, v) ∷ (j, w) ∷ ys) t ≡ bind_all (xs ++ (j, w) ∷ (k, v) ∷ ys) t
  bind_all-swap xs ys k j v w t ne =
      bind_all-append xs ((k, v) ∷ (j, w) ∷ ys) t
      ∙ ap (bind_all ys) (bind_comm j k w v (bind_all xs t) (λ e. ne (sym e)))
      ∙ sym (bind_all-append xs ((j, w) ∷ (k, v) ∷ ys) t)

  length-insert_all :
      (kvs : List (Bytes × Option V)) (m : Bindings V)
      → length (insert_all kvs m) ≤ length m + length kvs
  length-insert_all [] m = omega arith
  length-insert_all ((k, v) ∷ kvs) m =
      ground (arith, length-insert k v m, length-insert_all kvs (insert k v m))

  -- What `getTuple` finds after the calls is what the view of their bindings holds.
  get_tuple-set_all :
      (V_set : IsSet V) (size : ℕ) (kvs : List (Bytes × Option V)) (i : Bytes)
      → length kvs ≤ 2 ^ 31
      → get_tuple (of_bindings size (insert_all kvs [])) (some i)
        ≡ ok (find V_set i (bind_all kvs (Quot.mk [])))
  unfolding find
  get_tuple-set_all V_set size kvs i few =
      get_tuple_refines size i (insert_all kvs []) (omega (arith, length-insert_all kvs []))
      ∙ ap (λ t. ok (find V_set i t)) (sym (bind_all-mk kvs []))

  set_all-new :
      (size : ℕ) (kvs : List (Bytes × Option V))
      → size < 2 ^ 31
      → length kvs ≤ size
      → (init_dict true true size >>= set_all kvs) ≡ ok (of_bindings size (insert_all kvs []))
  set_all-new size kvs small fits =
      ap (λ d. d >>= set_all kvs) (init_dict-of_bindings size)
      ∙ set_all-of_bindings size kvs [] small (omega (arith, fits))

  -- Calls of `setTuple` for two different keys, one after the other among any others, that a dictionary
  -- of fewer than 2^31 slots has room for: made in either order they all return, and `getTuple` finds the same under
  -- every key.
  pub set_all_order :
      (V_set : IsSet V) (size : ℕ) (xs ys : List (Bytes × Option V)) (k j : Bytes) (v w : Option V)
      → k ≢ j
      → size < 2 ^ 31
      → length (xs ++ (k, v) ∷ (j, w) ∷ ys) ≤ size
      → (d e : Dict V) × ((init_dict true true size >>= set_all (xs ++ (k, v) ∷ (j, w) ∷ ys))
          ≡ ok d)
        × ((init_dict true true size >>= set_all (xs ++ (j, w) ∷ (k, v) ∷ ys)) ≡ ok e)
        × ((i : Bytes) → get_tuple d (some i) ≡ get_tuple e (some i))
  set_all_order V_set size xs ys k j v w ne small fits =
      let one = xs ++ (k, v) ∷ (j, w) ∷ ys in
      let other = xs ++ (j, w) ∷ (k, v) ∷ ys in
      let as_long : length other ≤ size =
        omega (
          arith,
          length-append xs ((k, v) ∷ (j, w) ∷ ys),
          length-append xs ((j, w) ∷ (k, v) ∷ ys),
        ) in
      (
        of_bindings size (insert_all one []),
        of_bindings size (insert_all other []),
        set_all-new size one small fits,
        set_all-new size other small as_long,
        λ i.
            get_tuple-set_all V_set size one i (omega arith)
            ∙ ap (λ t. ok (find V_set i t)) (bind_all-swap xs ys k j v w (Quot.mk []) ne)
            ∙ sym (get_tuple-set_all V_set size other i (omega arith)),
      )
