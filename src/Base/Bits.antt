-- ===== src/Base/Bits.antt =====
-- The bit operations on native numbers, digit by digit: disjoint `or`, complements, and the lowest bit.
use Prim.Native.Nat.{
  ℕ, zero, suc, ◌+◌, ◌-◌, ◌*◌, ◌/◌, ◌%◌, ◌^◌, ◌≤◌, ◌<◌, min, max, bit_and, bit_or, digits,
  bit_and-bitwise, bit_or-bitwise,
}
use mathlib.Core.Path.{◌≡◌, refl, ap, sym}
use mathlib.Core.Logic.{◌⊎◌, inl, inr}
use native.Mathlib.Nat.{pow-suc}
use native.Mathlib.Omega.{arith}

-- The recursion that the native operations stand for.
module _ (z : ℕ → ℕ) (op : ℕ → ℕ → ℕ) where
  -- Any fuel that suffices gives what the number itself gives as fuel.
  digits_any : (k n a b : ℕ) → a ≤ k → a ≤ n → digits z op n a b ≡ digits z op a a b
  digits_any k zero zero b le fuel = refl
  digits_any k (suc n) zero b le fuel = refl
  digits_any zero n (suc a) b le fuel = absurd (omega arith)
  digits_any (suc k) zero (suc a) b le fuel = absurd (omega arith)
  digits_any (suc k) (suc n) (suc a) b le fuel =
      let h = suc a / 2 in
      let left = digits_any k n h (b / 2) (omega arith) (omega arith) in
      let right = digits_any k a h (b / 2) (omega arith) (omega arith) in omega (arith, left, right)

  digits_halve :
      (a b : ℕ)
      → digits z op (suc a) (suc a) b
        ≡ digits z op (suc a / 2) (suc a / 2) (b / 2) * 2 + op (suc a % 2) (b % 2)
  digits_halve a b = omega (arith, digits_any a a (suc a / 2) (b / 2) (omega arith) (omega arith))

pub zero-bit_and : (n : ℕ) → 0 ≡ bit_and 0 n
zero-bit_and n = sym (bit_and-bitwise 0 n)

pub zero-bit_or : (b : ℕ) → bit_or 0 b ≡ b
zero-bit_or b = bit_or-bitwise 0 b

pub bit_and_halve : (m n : ℕ) → bit_and m n ≡ min (m % 2) (n % 2) + 2 * bit_and (m / 2) (n / 2)
bit_and_halve zero b = omega (arith, zero-bit_and b, zero-bit_and (b / 2))
bit_and_halve (suc a) b =
    let whole = bit_and-bitwise (suc a) b in
    let half = bit_and-bitwise (suc a / 2) (b / 2) in
    omega (arith, digits_halve (λ _. 0) min a b, whole, half)

bit_or_halve : (m n : ℕ) → bit_or m n ≡ max (m % 2) (n % 2) + 2 * bit_or (m / 2) (n / 2)
bit_or_halve zero b = omega (arith, zero-bit_or b, zero-bit_or (b / 2))
bit_or_halve (suc a) b =
    let whole = bit_or-bitwise (suc a) b in
    let half = bit_or-bitwise (suc a / 2) (b / 2) in
    omega (arith, digits_halve (λ m. m) max a b, whole, half)

-- A number below 2 ^ k and a multiple of 2 ^ k have no bit in common.
pub bit_or-disjoint : (k a b : ℕ) → a < 2 ^ k → bit_or a (2 ^ k * b) ≡ a + 2 ^ k * b
bit_or-disjoint zero a b h =
    omega (arith, ap (λ n. bit_or n (1 * b)) {x = a} {y = 0} (omega arith), zero-bit_or (1 * b))
bit_or-disjoint (suc k) a b h =
    let e : 2 ^ suc k * b ≡ 2 * (2 ^ k * b) =
      omega (arith, pow-suc 2 k, ap (λ (p : ℕ). p * b) (pow-suc 2 k)) in
    let half = bit_or-disjoint k (a / 2) b (omega (arith, pow-suc 2 k)) in
    let d : 2 * (2 ^ k * b) / 2 ≡ 2 ^ k * b = omega arith in
    rw e (omega (arith, bit_or_halve a (2 * (2 ^ k * b)), half, ap (bit_or (a / 2)) d))

-- A number and its complement have no bit in common.
bit_and-complement : (n a : ℕ) → a < 2 ^ n → bit_and a (2 ^ n - 1 - a) ≡ 0
bit_and-complement zero a h = ap (λ k. bit_and k (1 - 1 - k)) {x = a} {y = 0} (omega arith)
bit_and-complement (suc n) a h =
    let p = pow-suc 2 n in
    let d : (2 ^ suc n - 1 - a) / 2 ≡ 2 ^ n - 1 - a / 2 = omega arith in
    omega (
      arith,
      bit_and_halve a (2 ^ suc n - 1 - a),
      bit_and-complement n (a / 2) (omega arith),
      ap (bit_and (a / 2)) d,
    )

-- The lowest bit of an odd number by `a & -a`.
pub lowest-odd : (n a : ℕ) → a < 2 ^ suc n → a % 2 ≡ 1 → bit_and a (2 ^ suc n - a) ≡ 1
lowest-odd n a h odd =
    let p = pow-suc 2 n in
    let d : (2 ^ suc n - a) / 2 ≡ 2 ^ n - 1 - a / 2 = omega arith in
    omega (
      arith,
      bit_and_halve a (2 ^ suc n - a),
      bit_and-complement n (a / 2) (omega arith),
      ap (bit_and (a / 2)) d,
    )

-- An even number has the lowest bit of its half, one place up.
lowest-even :
    (n a : ℕ)
    → a < 2 ^ suc n
    → a % 2 ≡ 0
    → bit_and a (2 ^ suc n - a) ≡ 2 * bit_and (a / 2) (2 ^ n - a / 2)
lowest-even n a h even =
    let p = pow-suc 2 n in
    let d : (2 ^ suc n - a) / 2 ≡ 2 ^ n - a / 2 = omega arith in
    omega (arith, bit_and_halve a (2 ^ suc n - a), ap (bit_and (a / 2)) d)

ℕ-cases : (n : ℕ) → (n ≡ 0) ⊎ ((j : ℕ) × (n ≡ suc j))
ℕ-cases zero = inl refl
ℕ-cases (suc j) = inr (j, refl)

-- The lowest bit of any number above 0 by `a & -a`.
pub lowest_bit :
    (k n m a : ℕ)
    → a ≡ 2 ^ k * (2 * m + 1)
    → 0 < a
    → a < 2 ^ suc n
    → bit_and a (2 ^ suc n - a) ≡ 2 ^ k
lowest_bit zero n m a e pos h = lowest-odd n a h (omega (arith, e))
lowest_bit (suc k) n m a e pos h =
    let p = pow-suc 2 n in
    let q : 2 ^ suc k * (2 * m + 1) ≡ 2 * (2 ^ k * (2 * m + 1)) =
      omega (arith, pow-suc 2 k, ap (λ (p : ℕ). p * (2 * m + 1)) (pow-suc 2 k)) in
    let half : a / 2 ≡ 2 ^ k * (2 * m + 1) = omega (arith, e, q) in
    let even : a % 2 ≡ 0 = omega (arith, e, q) in
    let step = lowest-even n a h even in
    elim (ℕ-cases n) [
      | inl nil ↦ absurd (omega (arith, nil, p, ap (λ j. 2 ^ j) nil))
      | inr (j, s) ↦
          let here : 2 ^ n ≡ 2 ^ suc j = ap (λ i. 2 ^ i) s in
          let ih = lowest_bit k j m (a / 2) half (omega arith) (omega (arith, here, p, h)) in
          omega (arith, step, pow-suc 2 k, ih, ap (λ x. bit_and (a / 2) (x - a / 2)) here)
    ]
