-- ===== src/Vector/Tests.antt =====
-- The vectors on concrete values.
use pwdmanlib.Base.{◌≡◌, refl, List, some, [], ◌∷◌, ok, arith, ◌>>=◌}
use pwdmanlib.Vector.{CInt, pos, negsuc, Vector, init, append, get, set_at}
use pwdmanlib.Vector.Refine.{Holds}
use pwdmanlib.Vector.Assign.{put, set_at_refines}
use pwdmanlib.Vector.Increment.{increment_init, increment_get}
use pwdmanlib.Vector.Growing.{vectors, increment_vectors, vectors-IsLawful}
use pwdmanlib.Vector.Growing.Agree.{increment_vectors-IsLawful}
use pwdmanlib.Vector.Growing.Runs.{Request, add, assign, replay, run, run_reads}
use pwdmanlib.Vector.Growing.Sample.{vector_test, vector_test_prints}

abbrev two : Vector
two = record { size = 2; capacity = 2; slots = some 5 ∷ some 6 ∷ [] }

two-Holds : Holds two (5 ∷ 6 ∷ [])
two-Holds = record {
  rest = [];
  slots = refl;
  size = refl;
  allocated = refl;
  positive = omega arith;
  bounded = omega arith;
}

append_test : (append two 7 >>= λ v. get v (pos 2)) ≡ ok 7
unfolding append get pwdmanlib.Vector.write pwdmanlib.Vector.resize
append_test = refl

set_at_refines_example :
    (w : Vector) × (set_at 4 two (pos 4) 9 ≡ ok w) × Holds w (put (5 ∷ 6 ∷ []) 4 9)
set_at_refines_example =
    set_at_refines 4 two (5 ∷ 6 ∷ []) 4 9 two-Holds (omega arith) (omega arith) (omega arith)

abbrev requests : List Request
requests = add 5 ∷ assign 3 9 ∷ add 6 ∷ []

run_reads_example :
    (run increment_vectors 6 requests (increment_init 1) >>= λ v. increment_get v (pos 3)) ≡ ok 9
unfolding replay put
run_reads_example =
    run_reads increment_vectors increment_vectors-IsLawful 6 1 3 requests (omega arith)
      (omega arith) (tt, ((omega arith, omega arith), (tt, tt))) (omega arith)

vector_test_runs : vector_test vectors 5000 ≡ ok 173
vector_test_runs = vector_test_prints vectors 5000 vectors-IsLawful (omega arith)
