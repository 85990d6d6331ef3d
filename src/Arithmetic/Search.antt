-- ===== src/Arithmetic/Search.antt =====
-- `findPrimeGreaterThan` finds an odd number that passes the test, and no greater than the next prime.
use pwdmanlib.Base.{
  ℕ, zero, suc, ◌+◌, ◌*◌, ◌-◌, ◌/◌, ◌%◌, ◌==◌, ◌≤◌, ◌<◌, ◌≡◌, ◌≢◌, refl, ap, ◌∙◌, true, false,
  arith, inl, inr, ok, Bool-cases, ◌>>=◌, if◌then◌else◌,
}
use pwdmanlib.Arithmetic.{int_of, find_loop, find_prime_greater_than}
use pwdmanlib.Arithmetic.Binomial.{IsPrime}
use pwdmanlib.Arithmetic.Fermat.{fermat, int_of-ok, is_prime-fermat, fermat-IsPrime}

-- The first number that the search tries.
abbrev first_odd : ℕ → ℕ
first_odd val = (val + 1) / 2 * 2 + 1

module _ (rand : ℕ → ℕ) where
  -- An odd number, no less than `low` and no greater than `high`, that passed the test.
  Passing : ℕ → ℕ → ℕ → Type 0
  Passing low high q =
      (low ≤ q) × (q ≤ high) × (q % 2 ≡ 1) × ((j : ℕ) × ((fermat rand q 9 j).0 ≡ true))

  find_loop-passed :
      (fuel val k : ℕ)
      → 5 ≤ val
      → val ≤ 46341
      → (fermat rand val 9 k).0 ≡ true
      → find_loop rand (suc fuel) val k ≡ ok val
  unfolding find_loop
  find_loop-passed fuel val k h l e = rw (is_prime-fermat rand val k h l, e) refl

  find_loop-failed :
      (fuel val k : ℕ)
      → 5 ≤ val
      → val ≤ 46341
      → (fermat rand val 9 k).0 ≡ false
      → find_loop rand (suc fuel) val k ≡ find_loop rand fuel (val + 2) (fermat rand val 9 k).1
  unfolding find_loop
  find_loop-failed fuel val k h l e =
      rw (is_prime-fermat rand val k h l, e, int_of-ok (val + 2) (omega arith)) refl

  find_loop-finds :
      (fuel val k i : ℕ)
      → i < fuel
      → 5 ≤ val
      → val % 2 ≡ 1
      → val + 2 * i ≤ 46341
      → ((j : ℕ) → (fermat rand (val + 2 * i) 9 j).0 ≡ true)
      → (q : ℕ) × (find_loop rand fuel val k ≡ ok q) × Passing val (val + 2 * i) q
  unfolding Passing
  find_loop-finds zero val k i f h o l t = absurd (omega arith)
  find_loop-finds (suc fuel) val k zero f h o l t =
      let e : (fermat rand val 9 k).0 ≡ true =
        ap (λ n. (fermat rand n 9 k).0) {x = val} {y = val + 2 * 0} (omega arith) ∙ t k in
      (val, find_loop-passed fuel val k h (omega arith) e, (omega arith, omega arith, o, (k, e)))
  find_loop-finds (suc fuel) val k (suc m) f h o l t = elim (Bool-cases (fermat rand val 9 k).0) [
    | inl e ↦
        (val, find_loop-passed fuel val k h (omega arith) e, (omega arith, omega arith, o, (k, e)))
    | inr e ↦
        (let same : val + 2 + 2 * m ≡ val + 2 * suc m = omega arith in
          let (q, p, (low, high, odd, passed)) =
            find_loop-finds fuel (val + 2) (fermat rand val 9 k).1 m (omega arith) (omega arith)
              (omega arith) (omega arith) (λ j. ap (λ n. (fermat rand n 9 j).0) same ∙ t j) in
          (
            q,
            find_loop-failed fuel val k h (omega arith) e ∙ p,
            (omega arith, omega arith, odd, passed),
          ))
  ]

  find_prime_greater_than-Passing :
      (fuel val k i : ℕ)
      → i < fuel
      → 3 ≤ val
      → first_odd val + 2 * i ≤ 46341
      → ((j : ℕ) → (fermat rand (first_odd val + 2 * i) 9 j).0 ≡ true)
      → (q : ℕ) × (find_prime_greater_than rand fuel val k ≡ ok q)
        × Passing (first_odd val) (first_odd val + 2 * i) q
  unfolding find_prime_greater_than
  find_prime_greater_than-Passing fuel val k i f h l t =
      let start = first_odd val in
      let e : (if val % 2 == 1 then val + 2 else val + 1) ≡ start = ground arith in
      let (q, p, passing) = find_loop-finds fuel start k i f (omega arith) (omega arith) l t in
      (
        q,
        ap (λ n. int_of n >>= λ s. find_loop rand fuel s k) e
            ∙ ap (λ r. r >>= λ s. find_loop rand fuel s k) (int_of-ok start (omega arith))
            ∙ p,
        passing,
      )

  -- From 3 on, if some number up to 46341 that is `2 * i` above the first odd number passes every
  -- test, as a prime does, then `findPrimeGreaterThan` returns within i + 1 rounds an odd number
  -- above its argument, and no greater than that one, which passed the test.
  find_prime_greater_than_finds :
      (val k i : ℕ)
      → 3 ≤ val
      → first_odd val + 2 * i ≤ 46341
      → ((j : ℕ) → (fermat rand (first_odd val + 2 * i) 9 j).0 ≡ true)
      → (q : ℕ) × (find_prime_greater_than rand (suc i) val k ≡ ok q)
        × (val < q)
        × (q ≤ first_odd val + 2 * i)
        × (q % 2 ≡ 1)
        × ((j : ℕ) × ((fermat rand q 9 j).0 ≡ true))
  unfolding Passing
  find_prime_greater_than_finds val k i h l t =
      let (q, e, (low, high, odd, passed)) =
        find_prime_greater_than-Passing (suc i) val k i (omega arith) h l t in
      (q, e, omega (arith, low), high, odd, passed)

  -- From 3 on, and with a prime up to 46341 above the argument, `findPrimeGreaterThan` returns, as
  -- soon as the fuel is half of the distance to that prime, an odd number above its argument, and no
  -- greater than that prime, which passed the test.
  pub find_prime_greater_than-IsPrime :
      (fuel val p k : ℕ)
      → 3 ≤ val
      → val < p
      → p ≤ 46341
      → p ≤ val + 2 * fuel
      → IsPrime p
      → (q : ℕ) × (find_prime_greater_than rand fuel val k ≡ ok q)
        × (val < q)
        × (q ≤ p)
        × (q % 2 ≡ 1)
        × ((j : ℕ) × ((fermat rand q 9 j).0 ≡ true))
  unfolding Passing
  find_prime_greater_than-IsPrime fuel val p k h a l f prime =
      let odd : p % 2 ≢ 0 = prime.undivided 2 (omega arith) (omega arith) in
      let i = (p - first_odd val) / 2 in
      let same : first_odd val + 2 * i ≡ p = omega (arith, odd) in
      let (q, e, (low, high, one, passed)) =
        find_prime_greater_than-Passing fuel val k i (omega (arith, odd)) h (omega (arith, same))
          (λ j.
            ap (λ n. (fermat rand n 9 j).0) same
            ∙ ap (λ r. r.0) (fermat-IsPrime rand p 9 j (omega arith) prime)) in
      (q, e, omega (arith, low), omega (arith, same, high), one, passed)
