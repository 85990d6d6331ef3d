-- ===== src/Arithmetic/Tests.antt =====
-- The arithmetic on concrete numbers.
use pwdmanlib.Base.{
  ℕ, zero, suc, ◌*◌, ◌%◌, ◌^◌, ◌≤◌, ◌<◌, ◌≡◌, ◌≢◌, refl, true, arith, ok, fault, div_by_zero,
  overflow,
}
use pwdmanlib.Arithmetic.{power_loop, is_prime, find_prime_greater_than}
use pwdmanlib.Arithmetic.Power.{power_loop-pow}
use pwdmanlib.Arithmetic.Binomial.{IsPrime}
use pwdmanlib.Arithmetic.Fermat.{fermat, is_prime-fermat, is_prime-IsPrime}
use pwdmanlib.Arithmetic.Search.{find_prime_greater_than-IsPrime}

-- The stream 0, 1, 2, …
abbrev counting : ℕ → ℕ
counting k = k

abbrev zeros : ℕ → ℕ
zeros k = 0

power_loop-pow_example : power_loop 5 1000 13 1 7 ≡ ok ((1 * 7 ^ 13) % 1000)
power_loop-pow_example =
    power_loop-pow 5 1000 13 1 7 (omega arith) (omega arith) (omega arith) (omega arith)

is_prime-fermat_example : is_prime counting 91 0 ≡ ok (fermat counting 91 9 0)
is_prime-fermat_example = is_prime-fermat counting 91 0 (omega arith) (omega arith)

-- 1 passes for a prime.
is_prime-one : is_prime counting 1 0 ≡ ok (true, 9)
unfolding is_prime
is_prime-one = refl

is_prime-four : is_prime counting 4 0 ≡ fault div_by_zero
unfolding is_prime
is_prime-four = refl

-- A prime that is large enough for the product to overflow.
is_prime-large : is_prime (λ k. 50000) 65537 0 ≡ fault overflow
unfolding is_prime
is_prime-large = refl

seven-IsPrime : IsPrime 7
seven-IsPrime = record { above_one = omega arith; undivided = undivided }
  where
    undivided : (d : ℕ) → 1 < d → d < 7 → 7 % d ≢ 0
    undivided zero h l = absurd (omega arith)
    undivided (suc zero) h l = absurd (omega arith)
    undivided (suc (suc zero)) h l = omega arith
    undivided (suc (suc (suc zero))) h l = omega arith
    undivided (suc (suc (suc (suc zero)))) h l = omega arith
    undivided (suc (suc (suc (suc (suc zero))))) h l = omega arith
    undivided (suc (suc (suc (suc (suc (suc zero)))))) h l = omega arith
    undivided (suc (suc (suc (suc (suc (suc (suc d))))))) h l = absurd (omega arith)

is_prime-IsPrime_example : is_prime counting 7 3 ≡ ok (true, 12)
is_prime-IsPrime_example = is_prime-IsPrime counting 7 3 (omega arith) (omega arith) seven-IsPrime

find_prime_greater_than-IsPrime_example :
    (q : ℕ) × (find_prime_greater_than zeros 2 4 0 ≡ ok q)
    × (4 < q)
    × (q ≤ 7)
    × (q % 2 ≡ 1)
    × ((j : ℕ) × ((fermat zeros q 9 j).0 ≡ true))
find_prime_greater_than-IsPrime_example =
    find_prime_greater_than-IsPrime zeros 2 4 7 0 (omega arith) (omega arith) (omega arith)
      (omega arith) seven-IsPrime
