-- ===== src/Vector/Growing.antt =====
-- What the two vectors of src/util/vector.c have in common: their operations as an interface, and the
-- laws that a client may rely on.
pub mod Agree
pub mod Runs
pub mod Sample
use pwdmanlib.Base.{
  ℕ, zero, suc, ◌-◌, ◌^◌, ◌≤◌, ◌<◌, ◌≡◌, Option, none, some, List, [], ◌∷◌, ◌++◌, length, get_elem?,
  Result, ok, stop, arith,
}
use pwdmanlib.Vector.{CInt, pos, negsuc, Vector, init, append, get, set_at}
use pwdmanlib.Vector.Refine.{Holds, init-Holds, append_refines, get_refines}
use pwdmanlib.Vector.Assign.{put, set_at_refines}
use pwdmanlib.Vector.Increment.{
  IncrementVector, increment_init, increment_append, increment_get, increment_set,
}

-- The operations on a type of vectors; the last takes the fuel of its loop.
pub record Operations (V : Type 0) : Type 0 where
  pub new : ℕ → V
  pub add : V → ℕ → Result V
  pub value_at : V → CInt → Result ℕ
  pub assign : ℕ → V → CInt → ℕ → Result V

abbrev pub Growing : Type 1
Growing = (V : Type 0) × Operations V

abbrev pub vectors : Growing
vectors = (Vector, record { new = init; add = append; value_at = get; assign = set_at })

abbrev pub increment_vectors : Growing
increment_vectors = (
  IncrementVector,
  record {
    new = increment_init;
    add = increment_append;
    value_at = increment_get;
    assign = increment_set;
  },
)

-- The vectors stand for lists, and each operation for that of lists.
pub record IsLawful (g : Growing) : Type 1 where
  pub Stands : g.0 → List ℕ → Type 0
  pub new-Stands : (n : ℕ) → 0 < n → n < 2 ^ 61 → Stands (g.1.new n) []
  pub add-Stands :
      (v : g.0) (xs : List ℕ) (x : ℕ)
      → Stands v xs
      → length xs < 2 ^ 60
      → (w : g.0) × (g.1.add v x ≡ ok w) × Stands w (xs ++ x ∷ [])
  pub value_at-Stands :
      (v : g.0) (xs : List ℕ) (i : ℕ)
      → Stands v xs
      → (g.1.value_at v (pos i) ≡ elim (get_elem? xs i) [ some x ↦ ok x | none ↦ stop 1 ])
        × (g.1.value_at v (negsuc i) ≡ stop 1)
  pub assign-Stands :
      (fuel : ℕ) (v : g.0) (xs : List ℕ) (i x : ℕ)
      → Stands v xs
      → i < 2 ^ 31
      → suc i - length xs < fuel
      → length xs < 2 ^ 60
      → (w : g.0) × (g.1.assign fuel v (pos i) x ≡ ok w) × Stands w (put xs i x)

pub vectors-IsLawful : IsLawful vectors
vectors-IsLawful = record {
  Stands = Holds;
  new-Stands = λ n h l. init-Holds n h (omega arith);
  add-Stands = append_refines;
  value_at-Stands = get_refines;
  assign-Stands = set_at_refines;
}
