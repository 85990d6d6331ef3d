-- ===== src/Arithmetic/Power.antt =====
-- The loop of `isPrime` over the bits of the exponent is the power, modulo `val`.
use native.Mathlib.Nat.{
  div-add-mod, add-mul-mod_self_left, mul_assoc, mul_comm, mul-add, mul-one, pow-zero, mul-le-mul,
  pow-suc, mod-eq_of_lt, mod-lt,
}
use pwdmanlib.Base.{
  ℕ, zero, suc, ◌+◌, ◌*◌, ◌/◌, ◌%◌, ◌^◌, ◌==◌, ◌≤◌, ◌<◌, ◌≡◌, sym, ap, ◌∙◌, arith, inl, inr, ok,
  Bool-cases,
}
use pwdmanlib.Arithmetic.{int_of, take_bit, power_loop}

-- A factor may be reduced before the product is.
mul-mod : (a b m : ℕ) → (a * (b % m)) % m ≡ (a * b) % m
mul-mod a b m =
    sym (add-mul-mod_self_left (a * (b % m)) m (a * (b / m)))
    ∙ ap (λ n. n % m) {x = a * (b % m) + m * (a * (b / m))} {y = a * b} (sum (div-add-mod b m))
  where
    sum : m * (b / m) + b % m ≡ b → a * (b % m) + m * (a * (b / m)) ≡ a * b
    sum h = omega (
      arith,
      ap (λ n. a * n) h,
      mul-add a (m * (b / m)) (b % m),
      mul_assoc a m (b / m),
      mul_assoc m a (b / m),
      ap (λ n. n * (b / m)) (mul_comm a m),
    )

mod-mul : (a b m : ℕ) → ((a % m) * b) % m ≡ (a * b) % m
mod-mul a b m =
    ap (λ n. n % m) (mul_comm (a % m) b) ∙ mul-mod b a m ∙ ap (λ n. n % m) (mul_comm b a)

pow-mod : (a n m : ℕ) → ((a % m) ^ n) % m ≡ (a ^ n) % m
pow-mod a zero m = ap (λ k. k % m) (pow-zero (a % m) ∙ sym (pow-zero a))
pow-mod a (suc n) m =
    ap (λ k. k % m) (pow-suc (a % m) n)
    ∙ mul-mod ((a % m) ^ n) a m
    ∙ sym (mod-mul ((a % m) ^ n) a m)
    ∙ ap (λ k. (k * a) % m) (pow-mod a n m)
    ∙ mod-mul (a ^ n) a m
    ∙ ap (λ k. k % m) (sym (pow-suc a n))

pow-add : (a m n : ℕ) → a ^ (m + n) ≡ a ^ m * a ^ n
pow-add a m zero =
    ap (λ k. a ^ k) {x = m + 0} {y = m} (omega arith)
    ∙ sym (mul-one (a ^ m))
    ∙ ap (λ k. a ^ m * k) (sym (pow-zero a))
pow-add a m (suc n) =
    ap (λ k. a ^ k) {x = m + suc n} {y = suc (m + n)} (omega arith)
    ∙ pow-suc a (m + n)
    ∙ ap (λ k. k * a) (pow-add a m n)
    ∙ mul_assoc (a ^ m) (a ^ n) a
    ∙ ap (λ k. a ^ m * k) (sym (pow-suc a n))

square-pow : (a n : ℕ) → (a * a) ^ n ≡ a ^ (n + n)
square-pow a zero =
    pow-zero (a * a) ∙ sym (pow-zero a) ∙ ap (λ k. a ^ k) {x = 0} {y = 0 + 0} (omega arith)
square-pow a (suc n) =
    pow-suc (a * a) n
    ∙ ap (λ k. k * (a * a)) (square-pow a n)
    ∙ sym (mul_assoc (a ^ (n + n)) a a)
    ∙ ap (λ k. k * a) (sym (pow-suc a (n + n)))
    ∙ sym (pow-suc a (suc (n + n)))
    ∙ ap (λ k. a ^ k) {x = suc (suc (n + n))} {y = suc n + suc n} (omega arith)

-- One round of the loop leaves the power modulo `m` as it was.
halve : (p a e m : ℕ) → (((p * a ^ (e % 2)) % m) * ((a * a) % m) ^ (e / 2)) % m ≡ (p * a ^ e) % m
halve p a e m =
    mod-mul (p * a ^ (e % 2)) (((a * a) % m) ^ (e / 2)) m
    ∙ sym (mul-mod (p * a ^ (e % 2)) (((a * a) % m) ^ (e / 2)) m)
    ∙ ap (λ k. ((p * a ^ (e % 2)) * k) % m) (pow-mod (a * a) (e / 2) m)
    ∙ mul-mod (p * a ^ (e % 2)) ((a * a) ^ (e / 2)) m
    ∙ ap (λ k. ((p * a ^ (e % 2)) * k) % m) (square-pow a (e / 2))
    ∙ ap (λ k. k % m) (mul_assoc p (a ^ (e % 2)) (a ^ (e / 2 + e / 2)))
    ∙ ap (λ k. (p * k) % m) (sym (pow-add a (e % 2) (e / 2 + e / 2)))
    ∙ ap (λ k. (p * a ^ k) % m) {x = e % 2 + (e / 2 + e / 2)} {y = e} (omega arith)

-- The product of two numbers below `val` fits an `int`.
int_of-product : (a b val : ℕ) → a < val → b < val → val ≤ 46341 → int_of (a * b) ≡ ok (a * b)
unfolding int_of
int_of-product a b val h k l =
    ground
      (arith, mul-le-mul {n₁ = a} {m₁ = b} {n₂ = 46340} {m₂ = 46340} (omega arith) (omega arith))

take_bit-ok :
    (val e p a : ℕ)
    → p < val
    → a < val
    → val ≤ 46341
    → take_bit val e p a ≡ ok ((p * a ^ (e % 2)) % val)
unfolding take_bit
take_bit-ok val e p a h k l = elim (Bool-cases (e % 2 == 1)) [
  | inl odd ↦
      rw (odd, int_of-product p a val h k l)
        (ap (λ n. ok (n % val)) {x = p * a} {y = p * a ^ (e % 2)}
          (ap (λ n. p * n)
            (sym (mul_comm 1 a ∙ mul-one a)
              ∙ ap (λ n. n * a) (sym (pow-zero a))
              ∙ sym (pow-suc a 0)
              ∙ ap (λ n. a ^ n) {x = 1} {y = e % 2} (ground arith))))
  | inr even ↦ rw even (
      ap ok (
        sym (mod-eq_of_lt h)
        ∙ ap (λ n. n % val) {x = p} {y = p * a ^ (e % 2)}
            (sym (mul-one p)
              ∙ ap (λ n. p * n)
                  (sym (pow-zero a) ∙ ap (λ n. a ^ n) {x = 0} {y = e % 2} (ground arith)))))
]

-- With `val` at most 46341 no product overflows, and within as many rounds as the exponent has bits
-- the loop ends with `p` times the power of `a`, modulo `val`.
pub power_loop-pow :
    (fuel val e p a : ℕ)
    → p < val
    → a < val
    → val ≤ 46341
    → e < 2 ^ fuel
    → power_loop fuel val e p a ≡ ok ((p * a ^ e) % val)
unfolding power_loop
power_loop-pow fuel val zero p a h k l b = ap ok (
    sym (
      ap (λ n. n % val) {x = p * a ^ 0} {y = p} (ap (λ n. p * n) (pow-zero a) ∙ mul-one p)
      ∙ mod-eq_of_lt h))
power_loop-pow zero val (suc e) p a h k l b = absurd (omega arith)
power_loop-pow (suc fuel) val (suc e) p a h k l b =
    rw (take_bit-ok val (suc e) p a h k l, int_of-product a a val k k l)
      (power_loop-pow fuel val (suc e / 2) ((p * a ^ (suc e % 2)) % val) ((a * a) % val)
          (mod-lt _ (omega arith)) (mod-lt _ (omega arith)) l (omega (arith, pow-suc 2 fuel))
        ∙ ap ok (halve p a (suc e) val))
