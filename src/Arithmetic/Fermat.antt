-- ===== src/Arithmetic/Fermat.antt =====
-- `isPrime` is nine rounds of Fermat's test, which every prime passes.
use native.Mathlib.Nat.{mod-lt}
use pwdmanlib.Base.{
  ℕ, zero, suc, ◌+◌, ◌*◌, ◌-◌, ◌%◌, ◌^◌, ◌==◌, ◌≤◌, ◌<◌, ◌≡◌, refl, ap, ◌∙◌, Bool, true, false,
  arith, ok,
}
use pwdmanlib.Arithmetic.{int_of, base, power_loop, rounds, is_prime}
use pwdmanlib.Arithmetic.Binomial.{IsPrime, pow-prime_remainder}
use pwdmanlib.Arithmetic.Power.{power_loop-pow}

pub int_of-ok : (n : ℕ) → n ≤ 2147483647 → int_of n ≡ ok n
unfolding int_of
int_of-ok n h = ground arith

base-ok :
    (r val : ℕ)
    → 5 ≤ val
    → val ≤ 46341
    → (base r val ≡ ok (r % (val - 4) + 2)) × (r % (val - 4) + 2 < val)
unfolding base
base-ok r val h l =
    let d : (val + 2 ^ 64 - 4) % 2 ^ 64 ≡ val - 4 = omega arith in
    let e : (val - 4 == 0) ≡ false = ground arith in
    let b : r % (val - 4) < val - 4 = mod-lt r (omega arith) in
    (rw (d, e) (int_of-ok _ (omega arith)), omega arith)

module _ (rand : ℕ → ℕ) where
  -- Fermat's test of `val` for so many bases, from a position of the stream on.
  unfoldable pub fermat : ℕ → ℕ → ℕ → Bool × ℕ
  fermat val zero k = (true, k)
  fermat val (suc left) k = elim ((rand k % (val - 4) + 2) ^ (val - 1) % val == 1) [
    | true ↦ fermat val left (k + 1)
    | false ↦ (false, k + 1)
  ]

  rounds-fermat :
      (val left k : ℕ) → 5 ≤ val → val ≤ 46341 → rounds rand val left k ≡ ok (fermat val left k)
  unfolding rounds fermat
  rounds-fermat val zero k h l = refl
  rounds-fermat val (suc left) k h l =
      let (b, small) = base-ok (rand k) val h l in
      let a = rand k % (val - 4) + 2 in
      let e : power_loop 32 val (val - 1) 1 a ≡ ok (a ^ (val - 1) % val) =
        power_loop-pow 32 val (val - 1) 1 a (omega arith) small l (omega arith)
        ∙ ap (λ n. ok (n % val)) {x = 1 * a ^ (val - 1)} {y = a ^ (val - 1)} (omega arith) in
      rw (b, e) (both (a ^ (val - 1) % val == 1) (rounds-fermat val left (k + 1) h l))
    where
      both :
          (passed : Bool)
          → rounds rand val left (k + 1) ≡ ok (fermat val left (k + 1))
          → elim passed [ true ↦ rounds rand val left (k + 1) | false ↦ ok (false, k + 1) ] ≡ (
              let answer : Bool × ℕ = elim passed [
                | true ↦ fermat val left (k + 1)
                | false ↦ (false, k + 1)
              ] in
              ok answer)
      both true p = p
      both false p = refl

  -- For a number from 5 to 46341, `isPrime` ends, no product overflows, and its answer is
  -- that of nine rounds of Fermat's test, up to the first that fails.
  pub is_prime-fermat :
      (val k : ℕ) → 5 ≤ val → val ≤ 46341 → is_prime rand val k ≡ ok (fermat val 9 k)
  unfolding is_prime
  is_prime-fermat zero k h l = absurd (omega arith)
  is_prime-fermat (suc v) k h l = rounds-fermat (suc v) 9 k h l

  pub fermat-IsPrime :
      (val left k : ℕ) → 5 ≤ val → IsPrime val → fermat val left k ≡ (true, k + left)
  unfolding fermat
  fermat-IsPrime val zero k h prime = ap (λ j. (true, j)) {x = k} {y = k + 0} (omega arith)
  fermat-IsPrime val (suc left) k h prime =
      let b : rand k % (val - 4) < val - 4 = mod-lt (rand k) (omega arith) in
      let e : (rand k % (val - 4) + 2) ^ (val - 1) % val ≡ 1 =
        pow-prime_remainder (rand k % (val - 4) + 2) val prime (omega arith) (omega arith) in
      rw (e, fermat)
        (fermat-IsPrime val left (k + 1) h prime
          ∙ ap (λ j. (true, j)) {x = k + 1 + left} {y = k + suc left} (omega arith))

  -- `isPrime` accepts every prime from 5 to 46341, after nine calls of `rand`, whatever numbers
  -- those give.
  pub is_prime-IsPrime :
      (val k : ℕ) → 5 ≤ val → val ≤ 46341 → IsPrime val → is_prime rand val k ≡ ok (true, k + 9)
  is_prime-IsPrime val k h l prime =
      is_prime-fermat val k h l ∙ ap (λ r. ok r) (fermat-IsPrime val 9 k h prime)
