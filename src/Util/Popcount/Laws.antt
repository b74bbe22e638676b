-- ===== src/Util/Popcount/Laws.antt =====
-- xcb_popcount counts the bits that are set.
use Prim.Native.Nat.{bit_and}
use native.Mathlib.Omega.{pow_step}
use androix_xcb_libxcb.Base.{
  ℕ, zero, suc, ◌+◌, ◌-◌, ◌*◌, ◌/◌, ◌%◌, ◌^◌, ◌≤◌, ◌<◌, ◌≡◌, refl, sym, ap, ◌∙◌, arith,
}
use androix_xcb_libxcb.Base.Bits.{bit_and_halve, zero-bit_and}
use androix_xcb_libxcb.Sequence.{u32, diff32}
use androix_xcb_libxcb.Util.Popcount.{xcb_popcount}

-- The number of ones among the lowest `k` bits.
abbrev pub ones : ℕ → ℕ → ℕ
ones zero n = 0
ones (suc k) n = n % 2 + ones k (n / 2)

bit_and-zero : (k n : ℕ) → n ≤ k → bit_and n 0 ≡ 0
bit_and-zero zero n h = ap (λ i. bit_and i 0) {x = n} {y = 0} (omega arith) ∙ sym (zero-bit_and 0)
bit_and-zero (suc k) n h = omega (arith, bit_and_halve n 0, bit_and-zero k (n / 2) (omega arith))

-- The last octal digit of a mask is 3, 7 or 0.
bit_and-three : (x c : ℕ) → bit_and x (3 + 8 * c) ≡ x % 4 + 8 * bit_and (x / 8) c
bit_and-three x c = omega (
  arith,
  bit_and_halve x (3 + 8 * c),
  ap (bit_and (x / 2)) {x = (3 + 8 * c) / 2} {y = 1 + 4 * c} (omega arith),
  bit_and_halve (x / 2) (1 + 4 * c),
  ap (bit_and (x / 2 / 2)) {x = (1 + 4 * c) / 2} {y = 2 * c} (omega arith),
  bit_and_halve (x / 2 / 2) (2 * c),
  ap (bit_and (x / 2 / 2 / 2)) {x = 2 * c / 2} {y = c} (omega arith),
  ap (λ i. bit_and i c) {x = x / 2 / 2 / 2} {y = x / 8} (omega arith),
)

bit_and-seven : (x c : ℕ) → bit_and x (7 + 64 * c) ≡ x % 8 + 64 * bit_and (x / 64) c
bit_and-seven x c = omega (
  arith,
  bit_and_halve x (7 + 64 * c),
  ap (bit_and (x / 2)) {x = (7 + 64 * c) / 2} {y = 3 + 8 * (4 * c)} (omega arith),
  bit_and-three (x / 2) (4 * c),
  bit_and_halve (x / 2 / 8) (4 * c),
  ap (bit_and (x / 2 / 8 / 2)) {x = 4 * c / 2} {y = 2 * c} (omega arith),
  bit_and_halve (x / 2 / 8 / 2) (2 * c),
  ap (bit_and (x / 2 / 8 / 2 / 2)) {x = 2 * c / 2} {y = c} (omega arith),
  ap (λ i. bit_and i c) {x = x / 2 / 8 / 2 / 2} {y = x / 64} (omega arith),
)

-- The mask with `k` octal digits 3, and the half of each octal digit.
abbrev threes : ℕ → ℕ
threes zero = 0
threes (suc k) = 3 + 8 * threes k

abbrev halves : ℕ → ℕ → ℕ
halves zero x = 0
halves (suc k) x = x % 8 / 2 + 8 * halves k (x / 8)

bit_and-threes : (k x : ℕ) → bit_and (x / 2) (threes k) ≡ halves k x
bit_and-threes zero x = bit_and-zero (x / 2) (x / 2) (omega arith)
bit_and-threes (suc k) x = omega (
  arith,
  bit_and-three (x / 2) (threes k),
  ap (λ i. bit_and i (threes k)) {x = x / 2 / 8} {y = x / 8 / 2} (omega arith),
  bit_and-threes k (x / 8),
)

abbrev triple : ℕ → ℕ
triple zero = zero
triple (suc k) = suc (suc (suc (triple k)))

-- The bits that are set in an octal digit; the numbers of bits of all octal digits, as octal digits, and
-- as a sum.
abbrev count : ℕ → ℕ
count d = d - d / 2 - d / 2 / 2

abbrev spread : ℕ → ℕ → ℕ
spread zero x = 0
spread (suc k) x = count (x % 8) + 8 * spread k (x / 8)

abbrev total : ℕ → ℕ → ℕ
total zero x = 0
total (suc k) x = count (x % 8) + total k (x / 8)

spread_lem : (k x : ℕ) → x < 8 ^ k → spread k x + halves k x + halves k (halves k x) ≡ x
spread_lem zero x h = omega (arith, h)
spread_lem (suc k) x h =
    let half : ℕ = halves (suc k) x in
    let next : half / 8 ≡ halves k (x / 8) = omega arith in
    omega (arith, spread_lem k (x / 8) (omega (arith, h, pow_step 8 k)), ap (halves k) next)

count_le : (x : ℕ) → count (x % 8) ≤ 3
count_le x = omega arith

-- The mask with `j` octal digits 7 at the even places, below a 3.
abbrev sevens : ℕ → ℕ
sevens zero = 3
sevens (suc j) = 7 + 64 * sevens j

-- One octal digit more than twice as many.
abbrev twice : ℕ → ℕ
twice zero = 1
twice (suc j) = suc (suc (twice j))

spread-last : (j x : ℕ) → spread (twice j) x % 8 ≤ 3
spread-last zero x = omega (arith, count_le x)
spread-last (suc j) x = omega (arith, count_le x)

-- The two halves of the sum of an octal digit and the next do not run over.
sum_lem :
    (j x : ℕ)
    → let s = spread (twice j) x in bit_and (s + s / 8) (sevens j) % 63 ≡ total (twice j) x % 63
sum_lem zero x =
    let s = spread 1 x in
    omega (
      arith,
      count_le x,
      ap (bit_and (s + s / 8)) {x = 3} {y = 3 + 8 * 0} refl,
      bit_and-three (s + s / 8) 0,
      bit_and-zero ((s + s / 8) / 8) ((s + s / 8) / 8) (omega arith),
    )
sum_lem (suc j) x =
    let s = spread (twice (suc j)) x in
    let s' = spread (twice j) (x / 8 / 8) in
    let up : (s + s / 8) / 64 ≡ s' + s' / 8 =
      omega (arith, count_le x, count_le (x / 8), spread-last j (x / 8 / 8)) in
    omega (
      arith,
      count_le x,
      count_le (x / 8),
      bit_and-seven (s + s / 8) (sevens j),
      ap (λ i. bit_and i (sevens j)) up,
      sum_lem j (x / 8 / 8),
    )

total-ones : (k x : ℕ) → total k x ≡ ones (triple k) x
total-ones zero x = refl
total-ones (suc k) x = omega (
  arith,
  total-ones k (x / 8),
  ap (ones (triple k)) {x = x / 8} {y = x / 2 / 2 / 2} (omega arith),
)

ones_le : (k x : ℕ) → ones k x ≤ k
ones_le zero x = omega arith
ones_le (suc k) x = omega (arith, ones_le k (x / 2))

ones-above : (k x : ℕ) → x < 2 ^ k → ones (suc k) x ≡ ones k x
ones-above zero x h = omega (arith, h)
ones-above (suc k) x h = omega (arith, ones-above k (x / 2) (omega (arith, h, pow_step 2 k)))

spread_le : (k x : ℕ) → spread k x ≤ threes k
spread_le zero x = omega arith
spread_le (suc k) x = omega (arith, count_le x, spread_le k (x / 8))

-- The two masked halves `a` and `b`, and the rest `s`.
popcount_steps :
    (mask a b s t : ℕ)
    → mask < 2 ^ 32
    → bit_and (mask / 2) 0o33333333333 ≡ a
    → bit_and (a / 2) 0o33333333333 ≡ b
    → s + a + b ≡ mask
    → s ≤ 0o33333333333
    → bit_and (s + s / 8) 0o30707070707 % 63 ≡ t % 63
    → t < 63
    → xcb_popcount mask ≡ t
unfolding xcb_popcount
popcount_steps mask a b s t h first second sum small rest fits =
    let m : ℕ = 0o33333333333 in
    let y' : ℕ =
      diff32 (diff32 mask (bit_and (mask / 2) m)) (bit_and (bit_and (mask / 2) m / 2) m) in
    let third : bit_and (bit_and (mask / 2) m / 2) m ≡ b =
      ap (λ i. bit_and (i / 2) m) first ∙ second in
    let all : y' ≡ s = omega (arith, h, first, third, sum) in
    let plain : (y' + y' / 8) % u32 ≡ s + s / 8 = omega (arith, all, small) in
    omega (arith, ap (λ i. bit_and i 0o30707070707) plain, rest, fits)

-- xcb_popcount of 32 bits is the number of those that are set.
pub xcb_popcount-ones : (mask : ℕ) → mask < 2 ^ 32 → xcb_popcount mask ≡ ones 32 mask
xcb_popcount-ones mask h =
    let a = halves 11 mask in
    let same = total-ones 11 mask ∙ ones-above 32 mask h in
    popcount_steps mask a (halves 11 a) (spread 11 mask) (ones 32 mask) h (bit_and-threes 11 mask)
      (bit_and-threes 11 a) (spread_lem 11 mask (omega (arith, h))) (spread_le 11 mask)
      (sum_lem 5 mask ∙ ap (λ i. i % 63) same) (omega (arith, ones_le 32 mask))
