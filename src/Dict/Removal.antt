-- ===== src/Dict/Removal.antt =====
-- `removeTuple`. The searches look at the first `counter` slots only, and a removal lowers the
-- counter without closing the gap.
use pwdmanlib.Base.{
  ℕ, zero, suc, ◌+◌, ◌-◌, ◌%◌, ◌/◌, ◌^◌, ◌≤◌, ◌<◌, true, false, Option, none, some, List, [], ◌∷◌,
  ◌++◌, length, length-append, replicate, set, set-append_cons, Bytes, strcmp_self, ◌≡◌, ◌≢◌, refl,
  sym, ap, ap₂, ◌∙◌, arith, append_assoc, ok,
}
use pwdmanlib.Dict.{
  Tuple, Dict, success, empty_tuple, key_at, key_is, find_from, get_tuple, remove_tuple, clear_from,
  destroy_dict,
}
use pwdmanlib.Dict.Assoc.{Bindings, has}
use pwdmanlib.Dict.Refine.{
  slots, slots-append, length-slots, find_from-slots, place-none, place-some, of_bindings, place,
  find_key-placed, find_key-missing,
}

-- The counter of a dictionary that loses a binding.
decrement : (n : ℕ) → suc n < 2 ^ 32 → (suc n + 2 ^ 32 - 1) % 2 ^ 32 ≡ n
decrement n h = omega arith

module _ {ℓ} {V : Type ℓ} where
  place-last :
      (k : Bytes) (v : Option V) (m : Bindings V) (i : ℕ)
      → has k m ≡ false
      → place k (m ++ (k, v) ∷ []) i ≡ some (i + length m)
  unfolding place has
  place-last k v [] i h = ground (arith, strcmp_self k)
  place-last k v ((j, w) ∷ m) i h = ground (arith, place-last k v m (i + 1))

  length-concat : (b : Bytes × Option V) (m : Bindings V) → length (m ++ b ∷ []) ≡ suc (length m)
  length-concat b m = omega (arith, length-append m (b ∷ []))

  -- Removing the key that came last gives back the dictionary without it.
  pub remove_tuple_last :
      (size : ℕ) (k : Bytes) (v : Option V) (m : Bindings V)
      → has k m ≡ false
      → length m < size
      → length m < 2 ^ 31
      → remove_tuple (of_bindings size (m ++ (k, v) ∷ [])) (some k)
        ≡ ok (success, of_bindings size m)
  unfolding remove_tuple
  remove_tuple_last size k v m h room small =
      let n : ℕ = size - suc (length m) in
      let e : place k (m ++ (k, v) ∷ []) 0 ≡ some (length m) =
        place-last k v m 0 h ∙ ap some (omega arith) in
      let left : size - length m ≡ suc n = omega arith in
      let blank : set (slots (m ++ (k, v) ∷ []) ++ replicate n empty_tuple) (length m) empty_tuple
          ≡ slots m ++ replicate (suc n) empty_tuple =
        rw (slots-append, append_assoc)
          (set-append_cons (slots m) _ _ (length m) _ (sym (length-slots m))) in
      rw
        (
          find_key-placed size k (m ++ (k, v) ∷ []) (length m) e small,
          remove_tuple,
          length-concat,
          left,
        )
        (ap₂ (λ c ts. ok (success, record { size = size; counter = c; entries = ts }))
          (decrement (length m) (omega arith)) blank)

  find_from-blank :
      (k : Bytes) (m : Bindings V) (rest : List (Tuple V)) (n i : ℕ)
      → has k m ≡ false
      → find_from (set (slots m ++ rest) n empty_tuple) (length m) i (some k) ≡ none
  unfolding find_from has key_is
  find_from-blank k [] rest n i h = refl
  find_from-blank k ((j, w) ∷ m) rest zero i h =
      ground (arith, find_from-slots k m rest (i + 1), place-none k m (i + 1))
  find_from-blank k ((j, w) ∷ m) rest (suc n) i h =
      ground (arith, find_from-blank k m rest n (i + 1))

  lost :
      (d : Dict V) (k : Option Bytes)
      → find_from d.entries d.counter 0 k ≡ none
      → get_tuple d k ≡ ok none
  unfolding get_tuple
  lost d k h = rw (find_key-missing d k h, get_tuple) refl

  place-append :
      (j : Bytes) (m n : Bindings V) (i : ℕ) → has j m ≡ true → place j (m ++ n) i ≡ place j m i
  unfolding place has
  place-append j [] n i h = cc
  place-append j ((l, w) ∷ m) n i h = ground (arith, place-append j m n (i + 1))

  key_at-set_ne :
      (ts : List (Tuple V)) (t : Tuple V) (n p : ℕ) → n ≢ p → key_at (set ts n t) p ≡ key_at ts p
  key_at-set_ne [] t n p h = refl
  key_at-set_ne (x ∷ ts) t zero zero h = absurd (h refl)
  key_at-set_ne (x ∷ ts) t zero (suc p) h = refl
  key_at-set_ne (x ∷ ts) t (suc n) zero h = refl
  key_at-set_ne (x ∷ ts) t (suc n) (suc p) h = key_at-set_ne ts t n p (λ e. h (ap suc e))

  key_at-slots :
      (m : Bindings V) (t : Tuple V) (rest : List (Tuple V))
      → key_at (slots m ++ t ∷ rest) (length m) ≡ t.key
  key_at-slots [] t rest = refl
  key_at-slots (b ∷ m) t rest = key_at-slots m t rest

  -- In a dictionary of fewer than 2^31 slots, removing any other key of the dictionary loses the key that came last: its slot is still
  -- filled, and `getTuple` no longer finds it.
  pub remove_tuple_loses_last :
      (size : ℕ) (j k : Bytes) (v : Option V) (m : Bindings V)
      → has j m ≡ true
      → has k m ≡ false
      → length m < size
      → size < 2 ^ 31
      → (d : Dict V) × (remove_tuple (of_bindings size (m ++ (k, v) ∷ [])) (some j)
          ≡ ok (success, d))
        × (key_at d.entries (length m) ≡ some k)
        × (get_tuple d (some k) ≡ ok none)
  unfolding remove_tuple
  remove_tuple_loses_last size j k v m here new room small =
      let rest = replicate (size - suc (length m)) empty_tuple in
      let (n, p, l, _, _) = place-some j none m rest 0 here in
      let e : place j (m ++ (k, v) ∷ []) 0 ≡ some n =
        place-append j m _ 0 here ∙ p ∙ ap some (omega arith) in
      let last : List (Tuple V) = record { key = some k; val = v } ∷ rest in
      let d : Dict V = record {
        size = size;
        counter = length m;
        entries = set (slots m ++ last) n empty_tuple;
      } in
      (
        d,
        rw
            (
              find_key-placed size j (m ++ (k, v) ∷ []) n e (omega arith),
              remove_tuple,
              length-concat,
              slots-append,
              append_assoc,
              decrement (length m) (omega arith),
            )
            refl,
        key_at-set_ne (slots m ++ last) empty_tuple n (length m) (omega arith)
            ∙ key_at-slots m _ rest,
        lost d (some k) (find_from-blank k m last n 0 new),
      )

clear_from-eq :
    (fuel i counter : ℕ)
    → counter ≤ i + fuel
    → clear_from fuel i counter ≡ i + (counter - i + 1) / 2
unfolding clear_from
clear_from-eq zero i counter h = omega arith
clear_from-eq (suc fuel) i counter h = ground (arith, clear_from-eq fuel (i + 1) (counter - 1))

-- The loop of `destroyDict` sets half of the used pointers to NULL, rounded up: it lowers the
-- counter that bounds it.
destroy_dict-half {ℓ} : {V : Type ℓ} (d : Dict V) → destroy_dict d ≡ (d.counter + 1) / 2
unfolding destroy_dict
destroy_dict-half d = clear_from-eq d.counter 0 d.counter (omega arith) ∙ omega arith
