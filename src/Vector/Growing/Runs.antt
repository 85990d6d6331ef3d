-- ===== src/Vector/Growing/Runs.antt =====
-- A client of a growing vector of src/util/vector.c, whichever of the two it takes, and the test
-- program src/test/vector-test.c as such a client.
use pwdmanlib.Base.{
  ℕ, ◌+◌, ◌^◌, ◌<◌, ◌≡◌, refl, none, some, List, [], ◌∷◌, ◌++◌, length, length-append, get_elem?,
  All, Result, ok, stop, ◌>>=◌, arith,
}
use pwdmanlib.Vector.{pos}
use pwdmanlib.Vector.Assign.{put, length-put}
use pwdmanlib.Vector.Growing.{Growing, IsLawful}

-- What a client asks of a vector.
pub data Request : Type 0 where
  add : ℕ → Request
  assign : ℕ → ℕ → Request

-- The list after a request.
abbrev after : Request → List ℕ → List ℕ
after (add x) xs = xs ++ x ∷ []
after (assign i x) xs = put xs i x

unfoldable pub replay : List Request → List ℕ → List ℕ
replay [] xs = xs
replay (r ∷ rs) xs = replay rs (after r xs)

-- An index is one of an `int`, and its loop has the fuel.
abbrev pub IsServed : ℕ → Request → Type 0
IsServed fuel (add x) = Unit
IsServed fuel (assign i x) = (i < 2 ^ 31) × (i + 1 < fuel)

module _ (g : Growing) where
  abbrev serve : ℕ → Request → g.0 → Result g.0
  serve fuel (add x) v = g.1.add v x
  serve fuel (assign i x) v = g.1.assign fuel v (pos i) x

  pub run : ℕ → List Request → g.0 → Result g.0
  run fuel [] v = ok v
  run fuel (r ∷ rs) v = serve fuel r v >>= λ w. run fuel rs w

  module _ (lawful : IsLawful g) where
    open lawful use {Stands, new-Stands, add-Stands, assign-Stands, value_at-Stands}

    -- What is left of the room: no list of the run gets to 2^60 values.
    Roomy : List ℕ → List Request → Type 0
    Roomy xs rs = (length xs + length rs < 2 ^ 60) × (length rs < 2 ^ 59)

    serve-Stands :
        (fuel : ℕ) (r : Request) (rs : List Request) (v : g.0) (xs : List ℕ)
        → Stands v xs
        → IsServed fuel r
        → Roomy xs (r ∷ rs)
        → (w : g.0) × (serve fuel r v ≡ ok w) × Stands w (after r xs) × Roomy (after r xs) rs
    unfolding Roomy
    serve-Stands fuel (add x) rs v xs h s (a, b) =
        let (w, e, k) = add-Stands v xs x h (omega arith) in
        (w, e, k, (omega (arith, length-append xs (x ∷ [])), omega arith))
    serve-Stands fuel (assign i x) rs v xs h (small, enough) (a, b) =
        let (w, e, k) = assign-Stands fuel v xs i x h small (omega arith) (omega arith) in
        (w, e, k, (omega (arith, length-put xs i x), omega arith))

    run-Stands :
        (fuel : ℕ) (rs : List Request) (v : g.0) (xs : List ℕ)
        → Stands v xs
        → All (IsServed fuel) rs
        → Roomy xs rs
        → (w : g.0) × (run fuel rs v ≡ ok w) × Stands w (replay rs xs)
    unfolding run replay
    run-Stands fuel [] v xs h s room = (v, refl, h)
    run-Stands fuel (r ∷ rs) v xs h (s, ss) room =
        let (w, e, k, room') = serve-Stands fuel r rs v xs h s room in
        let (u, f, l) = run-Stands fuel rs w (after r xs) k ss room' in (u, rw e f, l)

    -- On a new vector of positive capacity any requests with indices that are not negative, and fewer
    -- than 2^59 of them, come to the list that the same requests come to: reading it gives the
    -- value at an index, and exits where there is none.
    pub run_reads :
        (fuel n i : ℕ) (rs : List Request)
        → 0 < n
        → n < 2 ^ 61
        → All (IsServed fuel) rs
        → length rs < 2 ^ 59
        → (run fuel rs (g.1.new n) >>= λ v. g.1.value_at v (pos i))
          ≡ elim (get_elem? (replay rs []) i) [ some x ↦ ok x | none ↦ stop 1 ]
    unfolding Roomy
    run_reads fuel n i rs h l s few =
        let (w, e, k) = run-Stands fuel rs (g.1.new n) [] (new-Stands n h l) s (omega arith, few) in
        rw e (value_at-Stands w (replay rs []) i k).0
