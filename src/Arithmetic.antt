-- ===== src/Arithmetic.antt =====
-- src/util/arithmetic.h. The calls of `rand` give the numbers of a stream, read from a position on.
mod Tests
pub mod Power
pub mod Binomial
pub mod Fermat
pub mod Search
use pwdmanlib.Base.{
  ℕ, zero, suc, ◌+◌, ◌-◌, ◌*◌, ◌/◌, ◌%◌, ◌^◌, ◌==◌, ltb, Bool, true, false, if◌then◌else◌, Result,
  ok, fault, spin, div_by_zero, overflow, ◌>>=◌,
}

-- INT_MAX
abbrev int_max : ℕ
int_max = 2147483647

-- A value that an `int` takes; one beyond INT_MAX overflows it.
pub int_of : ℕ → Result ℕ
int_of n = if ltb int_max n then fault overflow else ok n

-- `if (exp & 1) p = (p*a)%val;`
pub take_bit : ℕ → ℕ → ℕ → ℕ → Result ℕ
unfolding int_of
take_bit val exp p a = if exp % 2 == 1 then (int_of (p * a) >>= λ q. ok (q % val)) else ok p

-- The loop over the bits of the exponent, on fuel.
pub power_loop : ℕ → ℕ → ℕ → ℕ → ℕ → Result ℕ
unfolding take_bit int_of
power_loop fuel val zero p a = ok p
power_loop zero val (suc e) p a = spin
power_loop (suc fuel) val (suc e) p a = take_bit val (suc e) p a >>= λ q.
    int_of (a * a) >>= λ s. power_loop fuel val (suc e / 2) q (s % val)

-- `(rand() % (val-4)) + 2`, in `unsigned long`, which an `int` takes.
pub base : ℕ → ℕ → Result ℕ
unfolding int_of
base r val =
    let d = (val + 2 ^ 64 - 4) % 2 ^ 64 in if d == 0 then fault div_by_zero else int_of (r % d + 2)

module _ (rand : ℕ → ℕ) where
  -- The rounds that are left, from a position of the stream on: the answer and the new position.
  -- `exp` starts as `val-1`; its 31 bits are fewer than the fuel.
  pub rounds : ℕ → ℕ → ℕ → Result (Bool × ℕ)
  unfolding base power_loop
  rounds val zero k = ok (true, k)
  rounds val (suc left) k = base (rand k) val >>= λ a. power_loop 32 val (val - 1) 1 a >>= λ p.
      elim (p == 1) [ true ↦ rounds val left (k + 1) | false ↦ ok (false, k + 1) ]

  -- For a `val` of at most 2^31, as an `int` gives it. For 0 the exponent is -1, which is odd, and
  -- the first round divides by `val`.
  pub is_prime : ℕ → ℕ → Result (Bool × ℕ)
  unfolding rounds
  is_prime zero k = fault div_by_zero
  is_prime (suc v) k = rounds (suc v) 9 k

  -- The loop of `findPrimeGreaterThan`, on fuel.
  pub find_loop : ℕ → ℕ → ℕ → Result ℕ
  unfolding is_prime int_of
  find_loop zero val k = spin
  find_loop (suc fuel) val k = is_prime val k >>= λ (prime, j). elim prime [
    | true ↦ ok val
    | false ↦ int_of (val + 2) >>= λ next. find_loop fuel next j
  ]

  -- For an argument that is not negative.
  pub find_prime_greater_than : ℕ → ℕ → ℕ → Result ℕ
  unfolding find_loop int_of
  find_prime_greater_than fuel val k =
      int_of (if val % 2 == 1 then val + 2 else val + 1) >>= λ start. find_loop fuel start k
