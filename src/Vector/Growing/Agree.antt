-- ===== src/Vector/Growing/Agree.antt =====
-- The two vectors of src/util/vector.c are one: an equivalence of the structs that the operations
-- respect makes the two implementations equal, so what is proved of one holds of the other.
use std.Equiv.{◌≃◌, id_equiv, iso_to_equiv}
use std.Univalence.{equiv_j}
use pwdmanlib.Base.{ℕ, ◌≡◌, refl, sym, ap, subst, ◌∙◌, Result, ok, fault, stop, spin}
use pwdmanlib.Vector.{CInt, pos, Vector, append, set_at}
use pwdmanlib.Vector.Increment.{
  IncrementVector, increment_init-init, as_vector, of_vector, of_result, increment_simulates,
}
use pwdmanlib.Vector.Growing.{
  Operations, Growing, vectors, increment_vectors, IsLawful, vectors-IsLawful,
}

-- A result with its vector sent along a function.
map_result : {A B : Type 0} → (A → B) → Result A → Result B
map_result f (ok a) = ok (f a)
map_result f (fault e) = fault e
map_result f (stop n) = stop n
map_result f spin = spin

map_result-id : {A : Type 0} (r : Result A) → map_result (λ a. a) r ≡ r
unfolding map_result
map_result-id (ok a) = refl
map_result-id (fault e) = refl
map_result-id (stop n) = refl
map_result-id spin = refl

-- Each operation on the images is the image of the operation.
record Respects {A B : Type 0} (f : A → B) (a : Operations A) (b : Operations B) : Type 0 where
  new : (n : ℕ) → f (a.new n) ≡ b.new n
  add : (v : A) (x : ℕ) → map_result f (a.add v x) ≡ b.add (f v) x
  value_at : (v : A) (i : CInt) → a.value_at v i ≡ b.value_at (f v) i
  assign :
      (fuel : ℕ) (v : A) (i : CInt) (x : ℕ)
      → map_result f (a.assign fuel v i x) ≡ b.assign fuel (f v) i x

same_operations : {B : Type 0} (a b : Operations B) → Respects (λ v. v) a b → a ≡ b
same_operations a b h = λ i. record {
  new = λ n. h.new n i;
  add = λ v x. (sym (map_result-id (a.add v x)) ∙ h.add v x) i;
  value_at = λ v j. h.value_at v j i;
  assign = λ fuel v j x. (sym (map_result-id (a.assign fuel v j x)) ∙ h.assign fuel v j x) i;
}

-- Implementations that are equivalent are equal.
equal_Growing :
    {A B : Type 0} (e : A ≃ B) (a : Operations A) (b : Operations B)
    → Respects e.0 a b
    → Path Growing (A, a) (B, b)
unfolding id_equiv
equal_Growing {A = A} {B = B} e =
    equiv_j
      (λ A e. (a : Operations A) (b : Operations B) → Respects e.0 a b → Path Growing (A, a) (B, b))
      (λ a b h. ap (λ o. (B, o)) (same_operations a b h)) e

structs : Vector ≃ IncrementVector
structs =
    iso_to_equiv (record { fun = of_vector; inv = as_vector; rinv = λ v. refl; linv = λ v. refl })

map_result-of_vector : (r : Result Vector) → map_result of_vector r ≡ of_result r
unfolding map_result
map_result-of_vector (ok v) = refl
map_result-of_vector (fault e) = refl
map_result-of_vector (stop n) = refl
map_result-of_vector spin = refl

-- The two vectors of the file are equal as implementations of the one interface, by univalence: their
-- structs are equivalent, and the equivalence respects every operation.
vectors_agree : vectors ≡ increment_vectors
unfolding structs
vectors_agree = equal_Growing structs vectors.1 increment_vectors.1 (record {
  new = increment_init-init;
  add = λ v x.
      map_result-of_vector (append v x) ∙ sym (increment_simulates 0 (of_vector v) (pos 0) x).0;
  value_at = λ v i. sym (increment_simulates 0 (of_vector v) i 0).1;
  assign = λ fuel v i x.
      map_result-of_vector (set_at fuel v i x) ∙ sym (increment_simulates fuel (of_vector v) i x).2;
})

-- So the second vector is lawful because the first is.
pub increment_vectors-IsLawful : IsLawful increment_vectors
increment_vectors-IsLawful = subst IsLawful vectors_agree vectors-IsLawful
