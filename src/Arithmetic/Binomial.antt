-- ===== src/Arithmetic/Binomial.antt =====
-- What the test of src/util/arithmetic.h rests on: the binomial theorem for a + 1, and that a prime
-- divides the coefficients inside of its row.
use native.Mathlib.Nat.{div-add-mod, mod-lt, pow-zero, pow-suc, add-mul-mod_self_left, mod-eq_of_lt}
use pwdmanlib.Base.{
  ℕ, zero, suc, ◌+◌, ◌*◌, ◌-◌, ◌/◌, ◌%◌, ◌^◌, ◌≤◌, ◌<◌, ◌≡◌, ◌≢◌, refl, sym, ap, ◌∙◌, arith, inl,
  inr, ◌⊎◌,
}

-- A prime: no number between 1 and it leaves no remainder.
pub record IsPrime (p : ℕ) : Type 0 where
  pub above_one : 1 < p
  pub undivided : (d : ℕ) → 1 < d → d < p → p % d ≢ 0

abbrev Divides : ℕ → ℕ → Type 0
Divides p n = (q : ℕ) × (n ≡ p * q)

compare : (m n : ℕ) → ((c : ℕ) × (m ≡ n + c)) ⊎ ((c : ℕ) × (n ≡ m + suc c))
compare zero zero = inl (0, omega arith)
compare zero (suc n) = inr (n, omega arith)
compare (suc m) zero = inl (suc m, omega arith)
compare (suc m) (suc n) = elim (compare m n) [
  | inl (c, e) ↦ inl (c, omega (arith, e))
  | inr (c, e) ↦ inr (c, omega (arith, e))
]

-- If `p` divides the sum of a multiple and of `n`, it divides `n`.
rest-Divides : (p q s n : ℕ) → 0 < p → p * s ≡ p * q + n → Divides p n
rest-Divides p q s n h e = elim (compare s q) [
  | inl (c, f) ↦ (c, omega (arith, e, ap (λ k. p * k) f))
  | inr (c, f) ↦ absurd (omega (arith, e, h, ap (λ k. p * k) f))
]

-- A prime that divides a product whose first factor is smaller divides the other. The fuel bounds
-- that factor.
euclid : (fuel p a b : ℕ) → IsPrime p → a ≤ fuel → 0 < a → a < p → Divides p (a * b) → Divides p b
euclid zero p a b h f z l d = absurd (omega arith)
euclid (suc fuel) p zero b h f z l d = absurd (omega arith)
euclid (suc fuel) p (suc zero) b h f z l (q, e) = (q, omega (arith, e))
euclid (suc fuel) p (suc (suc a)) b h f z l (q, e) =
    let n = suc (suc a) in
    let small : p % n < n = mod-lt p (omega arith) in
    let left : p % n ≢ 0 = h.undivided n (omega arith) l in
    euclid fuel p (p % n) b h (omega arith) (omega arith) (omega arith) (
      rest-Divides p (q * (p / n)) b (p % n * b) (omega (arith, h.above_one))
        (omega (arith, ap (λ k. k * b) (div-add-mod p n), ap (λ k. k * (p / n)) e)))

-- Pascal's triangle.
unfoldable pub binomial : ℕ → ℕ → ℕ
binomial n zero = 1
binomial zero (suc k) = 0
binomial (suc n) (suc k) = binomial n k + binomial n (suc k)

-- The sum of the first `m` terms of the row `n` at `a`.
unfoldable pub terms : ℕ → ℕ → ℕ → ℕ
unfolding binomial
terms a n zero = 0
terms a n (suc m) = terms a n m + binomial n m * a ^ m

binomial-beyond : (n c : ℕ) → binomial n (suc (n + c)) ≡ 0
unfolding binomial
binomial-beyond zero c = refl
binomial-beyond (suc n) c =
    let s : binomial n (suc (suc (n + c))) ≡ binomial n (suc (n + suc c)) =
      ap (binomial n) {x = suc (suc (n + c))} {y = suc (n + suc c)} (omega arith) in
    let t : binomial n (suc (n + c)) + binomial n (suc (suc (n + c))) ≡ 0 =
      omega (arith, s, binomial-beyond n c, binomial-beyond n (suc c)) in
    ap (binomial (suc n)) {x = suc (suc n + c)} {y = suc (suc (n + c))} (omega arith) ∙ t

binomial-next : (n : ℕ) → binomial n (suc n) ≡ 0
binomial-next n = ap (binomial n) {x = suc n} {y = suc (n + 0)} (omega arith) ∙ binomial-beyond n 0

binomial-diagonal : (n : ℕ) → binomial n n ≡ 1
unfolding binomial
binomial-diagonal zero = refl
binomial-diagonal (suc n) = omega (arith, binomial-next n, binomial-diagonal n)

binomial-absorb : (n k : ℕ) → suc k * binomial (suc n) (suc k) ≡ suc n * binomial n k
unfolding binomial
binomial-absorb zero zero = refl
binomial-absorb zero (suc k) = omega arith
binomial-absorb (suc n) zero = omega (arith, binomial-absorb n zero)
binomial-absorb (suc n) (suc k) = omega (arith, binomial-absorb n k, binomial-absorb n (suc k))

terms-next : (a n m : ℕ) → terms a (suc n) (suc m) ≡ terms a n (suc m) + a * terms a n m
unfolding terms binomial
terms-next a n zero = omega arith
terms-next a n (suc m) = omega (
  arith,
  terms-next a n m,
  ap (λ k. (binomial n m + binomial n (suc m)) * k) (pow-suc a m),
  ap (λ k. binomial n (suc m) * k) (pow-suc a m),
)

-- The binomial theorem for `a + 1`.
terms-pow : (a n : ℕ) → terms a n (suc n) ≡ suc a ^ n
unfolding terms binomial
terms-pow a zero = omega (arith, pow-zero a, pow-zero (suc a))
terms-pow a (suc n) =
    let z : binomial n (suc n) * a ^ suc n ≡ 0 =
      ap (λ k. k * a ^ suc n) (binomial-next n) ∙ omega arith in
    terms-next a n (suc n)
    ∙ omega (arith, z, ap (λ k. suc a * k) (terms-pow a n), pow-suc (suc a) n)

-- Inside of its row a prime divides, so only the first term is left, up to a multiple of it.
terms-inside : (a p m : ℕ) → IsPrime p → m < p → (s : ℕ) × (terms a p (suc m) ≡ 1 + p * s)
unfolding terms binomial
terms-inside a p zero h l = (0, omega (arith, pow-zero a))
terms-inside a zero (suc m) h l = absurd (omega arith)
terms-inside a (suc p) (suc m) h l =
    let (s, e) = terms-inside a (suc p) m h (omega arith) in
    let (q, d) =
      euclid (suc m) (suc p) (suc m) (binomial (suc p) (suc m)) h (omega arith) (omega arith) l
        (binomial p m, binomial-absorb p m) in
    (s + q * a ^ suc m, omega (arith, e, ap (λ k. k * a ^ suc m) d))

-- Fermat's little theorem.
pow-prime : (a p : ℕ) → IsPrime p → (q : ℕ) × (a ^ p ≡ a + p * q)
unfolding terms
pow-prime a zero h = absurd (omega (arith, h.above_one))
pow-prime zero (suc p) h = (0, pow-suc 0 p ∙ omega arith)
pow-prime (suc a) (suc p) h =
    let (q, e) = pow-prime a (suc p) h in
    let (s, f) = terms-inside a (suc p) p h (omega arith) in
    (
      s + q,
      sym (terms-pow a (suc p))
          ∙ omega (arith, f, e, ap (λ k. k * a ^ suc p) (binomial-diagonal (suc p))),
    )

pow-below : (a p : ℕ) → IsPrime (suc p) → 0 < a → a < suc p → a ^ p % suc p ≡ 1
pow-below a p h z l =
    let (q, e) = pow-prime a (suc p) h in
    let d = a ^ p - 1 in
    let full : a * a ^ p ≡ a + suc p * q = omega (arith, sym (pow-suc a p), e) in
    let some_left : a ^ p ≢ 0 = λ n. omega (arith, full, z, ap (λ k. a * k) n) in
    let (r, f) = euclid a (suc p) a d h (omega arith) z l (
      q,
      omega (arith, full, ap (λ k. a * k) {x = a ^ p} {y = 1 + d} (omega (arith, some_left))),
    ) in
    ap (λ k. k % suc p) {x = a ^ p} {y = 1 + suc p * r} (omega (arith, f, some_left))
    ∙ add-mul-mod_self_left 1 (suc p) r
    ∙ mod-eq_of_lt h.above_one

-- For a base that is smaller than the prime, the power that the test takes leaves 1.
pub pow-prime_remainder : (a p : ℕ) → IsPrime p → 0 < a → a < p → a ^ (p - 1) % p ≡ 1
pow-prime_remainder a zero h z l = absurd (omega arith)
pow-prime_remainder a (suc p) h z l =
    ap (λ k. a ^ k % suc p) {x = suc p - 1} {y = p} (omega arith) ∙ pow-below a p h z l
