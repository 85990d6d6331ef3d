-- ===== src/Dict/Invariant/Slots.antt =====
-- The slots of a dictionary that are filled, and what its operations do to their number.
use pwdmanlib.Base.{
  ℕ, zero, suc, ◌+◌, ◌≤◌, ◌<◌, true, Option, none, some, List, [], ◌∷◌, length, set, replicate,
  Bytes, ◌≡◌, inl, inr, refl, ap, arith, Bool-cases,
}
use pwdmanlib.Dict.{Tuple, empty_tuple, key_is, find_from, first_free, set_val}

abbrev one_if : Option Bytes → ℕ
one_if none = 0
one_if (some key) = 1

one_if-bound : (k : Option Bytes) → one_if k ≤ 1
one_if-bound none = omega arith
one_if-bound (some key) = omega arith

free-here :
    (k : Option Bytes) (i n len rest : ℕ)
    → one_if k + n < suc len
    → (n < len → rest < i + 1 + len)
    → elim k [ none ↦ i | some key ↦ rest ] < i + suc len
free-here none i n len rest h f = omega arith
free-here (some key) i n len rest h f = omega (arith, f (omega arith))

module _ {ℓ} {V : Type ℓ} where
  -- The number of slots whose key is not NULL.
  abbrev pub filled : List (Tuple V) → ℕ
  filled [] = 0
  filled (t ∷ ts) = one_if t.key + filled ts

  -- A slot below the end is free where not all are filled.
  pub first_free-bound :
      (ts : List (Tuple V)) (i : ℕ) → filled ts < length ts → first_free ts i < i + length ts
  unfolding first_free
  first_free-bound [] i h = omega arith
  first_free-bound (t ∷ ts) i h =
      free-here t.key i (filled ts) (length ts) (first_free ts (i + 1)) h
        (first_free-bound ts (i + 1))

  pub filled-replicate : (n : ℕ) (t : Tuple V) → t.key ≡ none → filled (replicate n t) ≡ 0
  filled-replicate zero t h = refl
  filled-replicate (suc n) t h = omega (arith, filled-replicate n t h, ap one_if h)

  pub filled-set :
      (ts : List (Tuple V)) (i : ℕ) (t : Tuple V) → filled (set ts i t) ≤ suc (filled ts)
  filled-set [] i t = omega arith
  filled-set (x ∷ ts) zero t = omega (arith, one_if-bound t.key)
  filled-set (x ∷ ts) (suc i) t = omega (arith, filled-set ts i t)

  pub filled-set_val :
      (ts : List (Tuple V)) (i : ℕ) (v : Option V)
      → (filled (set_val ts i v) ≡ filled ts) × (length (set_val ts i v) ≡ length ts)
  unfolding set_val
  filled-set_val [] i v = (refl, refl)
  filled-set_val (t ∷ ts) zero v = (refl, refl)
  filled-set_val (t ∷ ts) (suc i) v =
      let (f, l) = filled-set_val ts i v in (ap (λ n. one_if t.key + n) f, ap suc l)

  -- What `findKey` finds lies below the counter, and blanking it leaves one filled slot fewer.
  unfoldable pub Found : List (Tuple V) → ℕ → ℕ → Option ℕ → Type 0
  Found ts left i none = Unit {0}
  Found ts left i (some n) =
      (p : ℕ) × (n ≡ i + p) × (p < left) × (suc (filled (set ts p empty_tuple)) ≡ filled ts)

  Found-later :
      (t : Tuple V) (ts : List (Tuple V)) (left i : ℕ) (r : Option ℕ)
      → Found ts left (i + 1) r
      → Found (t ∷ ts) (suc left) i r
  unfolding Found
  Found-later t ts left i none h = tt
  Found-later t ts left i (some n) (p, e, l, f) = (suc p, omega arith, omega arith, omega arith)

  Found-here :
      (t : Tuple V) (ts : List (Tuple V)) (left i : ℕ) (k check : Option Bytes)
      → t.key ≡ k
      → key_is k check ≡ true
      → Found (t ∷ ts) (suc left) i (some i)
  unfolding Found key_is
  Found-here t ts left i none check e h = cc
  Found-here t ts left i (some k) check e h =
      (0, omega arith, omega arith, omega (arith, ap one_if e))

  pub find_from-Found :
      (ts : List (Tuple V)) (left i : ℕ) (check : Option Bytes)
      → Found ts left i (find_from ts left i check)
  unfolding find_from
  find_from-Found ts zero i check = unfold Found in tt
  find_from-Found [] (suc left) i check = unfold Found in tt
  find_from-Found (t ∷ ts) (suc left) i check = elim (Bool-cases (key_is t.key check)) [
    | inl e ↦ rw e (Found-here t ts left i t.key check refl e)
    | inr e ↦ rw e (Found-later t ts left i _ (find_from-Found ts left (i + 1) check))
  ]
