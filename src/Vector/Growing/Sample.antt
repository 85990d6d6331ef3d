-- ===== src/Vector/Growing/Sample.antt =====
-- The test program src/test/vector-test.c, for either of the two vectors.
use pwdmanlib.Base.{
  ℕ, zero, suc, ◌+◌, ◌-◌, ◌%◌, ◌^◌, ◌<◌, ◌≡◌, List, [], ◌∷◌, ◌++◌, All, Result, ok, ◌>>=◌, arith,
}
use pwdmanlib.Vector.{pos}
use pwdmanlib.Vector.Assign.{put}
use pwdmanlib.Vector.Growing.{Growing, IsLawful}
use pwdmanlib.Vector.Growing.Runs.{Request, add, assign, replay, IsServed, run, run_reads}

-- The pattern of the `int` that is 50 less than this.
abbrev less_fifty : ℕ → ℕ
less_fifty left = (left + 2 ^ 32 - 50) % 2 ^ 32

-- `for (i = 200; i > -50; i--)`, by the rounds that are left: `i` is 50 less than they are.
abbrev fill : ℕ → List Request
fill zero = []
fill (suc left) = add (less_fifty (suc left)) ∷ fill left

abbrev requests : List Request
requests = fill 250 ++ assign 4452 21312984 ∷ []

module _ (g : Growing) where
  -- `main`, with the value that it prints.
  pub vector_test : ℕ → Result ℕ
  vector_test fuel = run g fuel requests (g.1.new 1000) >>= λ v. g.1.value_at v (pos 27)

  fill-IsServed :
      (fuel left : ℕ) → 4453 < fuel → All (IsServed fuel) (fill left ++ assign 4452 21312984 ∷ [])
  fill-IsServed fuel zero h = ((omega arith, omega arith), tt)
  fill-IsServed fuel (suc left) h = (tt, fill-IsServed fuel left h)

  -- The program ends, whichever vector it uses, once its loop has fuel for the index that it sets; it
  -- prints the value of the round with that index.
  pub vector_test_prints : (fuel : ℕ) → IsLawful g → 4453 < fuel → vector_test fuel ≡ ok 173
  unfolding vector_test replay put
  vector_test_prints fuel lawful h =
      run_reads g lawful fuel 1000 27 requests (omega arith) (omega arith)
        (fill-IsServed fuel 250 h) (omega arith)
