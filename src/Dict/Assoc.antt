-- ===== src/Dict/Assoc.antt =====
-- What a dictionary promises: a list of bindings, in the order in which the keys first came.
use pwdmanlib.Base.{
  suc, Bool, true, false, ◌||◌, strcmp_self, if◌then◌else◌, Option, none, some, List, [], ◌∷◌, ◌++◌,
  length, Bytes, strcmp, strcmp_iff, ◌≡◌, refl, arith,
}

abbrev pub Bindings {ℓ} : Type ℓ → Type ℓ
Bindings V = List (Bytes × Option V)

module _ {ℓ} {V : Type ℓ} where
  unfoldable pub has : Bytes → Bindings V → Bool
  has k [] = false
  has k ((j, v) ∷ m) = if strcmp j k then true else has k m

  unfoldable pub lookup : Bytes → Bindings V → Option (Option V)
  lookup k [] = none
  lookup k ((j, v) ∷ m) = if strcmp j k then some v else lookup k m

  unfoldable pub insert : Bytes → Option V → Bindings V → Bindings V
  insert k v [] = (k, v) ∷ []
  insert k v ((j, w) ∷ m) = if strcmp j k then (j, v) ∷ m else (j, w) ∷ insert k v m

  pub lookup-insert :
      (k j : Bytes) (v : Option V) (m : Bindings V)
      → lookup j (insert k v m) ≡ (if strcmp k j then some v else lookup j m)
  unfolding lookup insert
  lookup-insert k j v [] = refl
  lookup-insert k j v ((i, w) ∷ m) =
      ground (arith, strcmp_iff k j, strcmp_iff i k, strcmp_iff i j, lookup-insert k j v m)

  pub length-insert :
      (k : Bytes) (v : Option V) (m : Bindings V)
      → length (insert k v m) ≡ (if has k m then length m else suc (length m))
  unfolding has insert
  length-insert k v [] = refl
  length-insert k v ((j, w) ∷ m) = ground (arith, length-insert k v m)

  pub insert-append :
      (k : Bytes) (v : Option V) (m : Bindings V)
      → has k m ≡ false
      → insert k v m ≡ m ++ (k, v) ∷ []
  unfolding has insert
  insert-append k v [] h = refl
  insert-append k v ((j, w) ∷ m) h = ground (arith, insert-append k v m)

  pub lookup-none : (k : Bytes) (m : Bindings V) → has k m ≡ false → lookup k m ≡ none
  unfolding has lookup
  lookup-none k [] h = refl
  lookup-none k ((j, v) ∷ m) h = ground (arith, lookup-none k m)

  pub has-append : (k : Bytes) (m n : Bindings V) → has k (m ++ n) ≡ (has k m || has k n)
  unfolding has
  has-append k [] n = refl
  has-append k ((j, v) ∷ m) n = ground (arith, has-append k m n)

  -- A new value for the key that came last.
  pub insert-last :
      (k : Bytes) (v w : Option V) (m : Bindings V)
      → has k m ≡ false
      → insert k w (m ++ (k, v) ∷ []) ≡ m ++ (k, w) ∷ []
  unfolding has insert
  insert-last k v w [] h = rw (strcmp_self k) refl
  insert-last k v w ((j, u) ∷ m) h = ground (arith, insert-last k v w m)

  pub lookup-first :
      (k : Bytes) (v : Option V) (m n : Bindings V)
      → has k m ≡ false
      → lookup k (m ++ (k, v) ∷ n) ≡ some v
  unfolding has lookup
  lookup-first k v [] n h = rw (strcmp_self k) refl
  lookup-first k v ((j, u) ∷ m) n h = ground (arith, lookup-first k v m n)
