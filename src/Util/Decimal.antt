-- ===== src/Util/Decimal.antt =====
-- The decimal numbers that snprintf writes.
use androix_xcb_libxcb.Base.{
  ℕ, zero, suc, ◌+◌, ◌-◌, ◌/◌, ◌%◌, ◌^◌, ◌<◌, ◌≤◌, ◌≡◌, sym, ap, ◌∙◌, true, List, [], ◌∷◌, ltb,
  length, if◌then◌else◌, arith, inl, inr, Bool-cases, List-cases, lt→ltb, some, append-nil, ltb→lt,
}
use native.Mathlib.Omega.{pow_step}
use androix_xcb_libxcb.Sequence.{u32, u64}
use androix_xcb_libxcb.Util.Strings.{is_digit, value_from, Digits, strtoul, strtoul-value}

-- The digits of a number in front of those of the lower places, with fuel.
unfoldable pub digits : ℕ → ℕ → List ℕ → List ℕ
digits zero n low = low
digits (suc fuel) n low =
    let d : ℕ = b'0' + n % 10 in
    let rest = digits fuel (n / 10) (d ∷ low) in if ltb n 10 then d ∷ low else rest

-- "%u" for a number of at most 64 bits, which has at most 20 digits.
unfoldable pub print_unsigned : ℕ → List ℕ
print_unsigned n = digits 20 n []

-- "%d" for the 32 bits of an int.
unfoldable pub print_int : ℕ → List ℕ
print_int n = if ltb n (2 ^ 31) then print_unsigned n else b'-' ∷ print_unsigned (u32 - n)

-- Lower places, in place of a value of their own.
digits-value :
    (fuel n : ℕ) (low : List ℕ)
    → n < 10 ^ suc fuel
    → value_from 0 (digits (suc fuel) n low) ≡ value_from n low
unfolding digits
digits-value zero n low h = ground (arith, h)
digits-value (suc fuel) n low h = elim (Bool-cases (ltb n 10)) [
  | inl small ↦ rw small (ap (λ x. value_from x low) (omega (arith, ltb→lt _ _ small)))
  | inr large ↦
      let fits : n / 10 < 10 ^ suc fuel = omega (arith, h, pow_step 10 (suc fuel)) in
      rw large (
        digits-value fuel (n / 10) ((b'0' + n % 10) ∷ low) fits
        ∙ ap (λ x. value_from x low) (omega arith))
]

pub digits-Digits : (fuel n : ℕ) (low : List ℕ) → Digits low → Digits (digits fuel n low)
unfolding digits
digits-Digits zero n low h = h
digits-Digits (suc fuel) n low h =
    let d : ℕ = b'0' + n % 10 in
    let ok : is_digit d ≡ true = ground arith in
    ground (arith, digits-Digits fuel (n / 10) (d ∷ low) (ok, h))

-- A number below 10 ^ m has at most m digits, and one at least.
digits-length :
    (m fuel n : ℕ) (low : List ℕ)
    → n < 10 ^ suc m
    → m ≤ fuel
    → (length low < length (digits (suc fuel) n low))
      × (length (digits (suc fuel) n low) ≤ suc m + length low)
unfolding digits
digits-length zero fuel n low h f = rw (lt→ltb n 10 (omega (arith, h))) (omega arith, omega arith)
digits-length (suc m) zero n low h f = absurd (omega arith)
digits-length (suc m) (suc fuel) n low h f = elim (Bool-cases (ltb n 10)) [
  | inl small ↦ rw small (omega arith, omega arith)
  | inr large ↦
      let fits : n / 10 < 10 ^ suc m = omega (arith, h, pow_step 10 (suc m)) in
      let ih = digits-length m fuel (n / 10) ((b'0' + n % 10) ∷ low) fits (omega arith) in
      rw large (omega (arith, ih.0), omega (arith, ih.1))
]

pub print_unsigned-length :
    (n : ℕ) → n < 10 ^ 10 → (0 < length (print_unsigned n)) × (length (print_unsigned n) ≤ 10)
unfolding print_unsigned
print_unsigned-length n h = digits-length 9 19 n [] h (omega arith)

-- strtoul reads the number back that "%u" writes.
pub strtoul-print_unsigned : (n : ℕ) → n < u64 → strtoul (print_unsigned n) ≡ some (n, [])
unfolding print_unsigned
strtoul-print_unsigned n h =
    let l = digits-length 19 19 n [] (omega (arith, h)) (omega arith) in
    let v = digits-value 19 n [] (omega (arith, h)) in
    let d = digits-Digits 20 n [] tt in
    elim (List-cases (digits 20 n [])) [
      | inl e ↦ absurd (omega (arith, l.0, ap length e))
      | inr (x, ds, e) ↦
          let value : value_from 0 (x ∷ ds) ≡ n = ap (value_from 0) (sym e) ∙ v in
          ap strtoul (e ∙ sym (append-nil (x ∷ ds)))
          ∙ (strtoul-value x ds [] (rw e at d) tt (omega (arith, h, value))
              ∙ ap (λ y. some (y, [])) value)
    ]
