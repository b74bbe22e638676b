-- ===== src/Util/Strings.antt =====
-- The functions of the C library that _xcb_parse_display calls, on the bytes of a string before its
-- final zero: strrchr and strtoul.
use androix_xcb_libxcb.Base.{
  ℕ, ◌+◌, ◌-◌, ◌*◌, ◌%◌, ◌<◌, ◌≡◌, refl, Bool, true, false, Option, none, some, List, [], ◌∷◌, ◌++◌,
  leb, ltb, ◌==◌, if◌then◌else◌, ◌&&◌, ◌||◌, arith, All,
}
use androix_xcb_libxcb.Sequence.{u64}

-- strrchr: the text before and after the last `c`.
unfoldable pub split_last : ℕ → List ℕ → Option (List ℕ × List ℕ)
split_last c [] = none
split_last c (x ∷ xs) = elim (split_last c xs) [
  | some (before, after) ↦ some (x ∷ before, after)
  | none ↦ if x == c then some ([], xs) else none
]

abbrev pub is_digit : ℕ → Bool
is_digit x = leb b'0' x && leb x b'9'

abbrev pub is_space : ℕ → Bool
is_space x = x == b' ' || (leb 9 x && leb x 13)

-- The digits at the head of a text: the value so far, and the text behind them.
unfoldable pub scan_digits : ℕ → List ℕ → ℕ × List ℕ
scan_digits acc [] = (acc, [])
scan_digits acc (x ∷ xs) =
    let more = scan_digits (acc * 10 + (x - b'0')) xs in if is_digit x then more else (acc, x ∷ xs)

-- Digits with their sign: none if there is no digit. A value that does not fit is ULONG_MAX, and
-- a minus sign negates in 64 bits.
unfoldable pub convert : Bool → List ℕ → Option (ℕ × List ℕ)
convert negative [] = none
convert negative (x ∷ xs) =
    let (value, rest) = scan_digits 0 (x ∷ xs) in
    let signed : ℕ = if negative then (u64 - value) % u64 else value in
    if is_digit x then some (if ltb value u64 then signed else u64 - 1, rest) else none

unfoldable pub convert_signed : List ℕ → Option (ℕ × List ℕ)
unfolding convert
convert_signed [] = none
convert_signed (x ∷ xs) =
    if x == b'-'
    then convert true xs
    else (if x == b'+' then convert false xs else convert false (x ∷ xs))

-- strtoul in base 10; none if the end pointer is left at the start.
unfoldable pub strtoul : List ℕ → Option (ℕ × List ℕ)
unfolding convert_signed
strtoul [] = none
strtoul (x ∷ xs) = let rest = strtoul xs in if is_space x then rest else convert_signed (x ∷ xs)

-- The number that a list of digits stands for.
abbrev pub value_from : ℕ → List ℕ → ℕ
value_from acc [] = acc
value_from acc (x ∷ xs) = value_from (acc * 10 + (x - b'0')) xs

abbrev pub Digits : List ℕ → Type 0
Digits l = All (λ x. is_digit x ≡ true) l

-- `c` is not in the text.
abbrev pub Without : ℕ → List ℕ → Type 0
Without c l = All (λ x. (x == c) ≡ false) l

pub split_last-Without : (c : ℕ) (l : List ℕ) → Without c l → split_last c l ≡ none
unfolding split_last
split_last-Without c [] h = refl
split_last-Without c (x ∷ xs) h = rw (split_last-Without c xs h.1, h.0)

pub split_last-append :
    (c : ℕ) (a b : List ℕ) → Without c b → split_last c (a ++ (c ∷ b)) ≡ some (a, b)
unfolding split_last
split_last-append c [] b h = rw (split_last-Without c b h) (ground arith)
split_last-append c (x ∷ a) b h = rw (split_last-append c a b h)

-- A text that does not go on with a digit.
abbrev pub Ends : List ℕ → Type 0
Ends [] = Unit
Ends (x ∷ xs) = is_digit x ≡ false

scan_digits-value :
    (acc : ℕ) (ds rest : List ℕ)
    → Digits ds
    → Ends rest
    → scan_digits acc (ds ++ rest) ≡ (value_from acc ds, rest)
unfolding scan_digits
scan_digits-value acc [] [] d e = refl
scan_digits-value acc [] (x ∷ xs) d e = rw e
scan_digits-value acc (x ∷ xs) rest d e =
    rw d.0 (scan_digits-value (acc * 10 + (x - b'0')) xs rest d.1 e)

-- strtoul reads a number that fits 64 bits up to the first byte that is no digit.
pub strtoul-value :
    (x : ℕ) (ds rest : List ℕ)
    → Digits (x ∷ ds)
    → Ends rest
    → value_from 0 (x ∷ ds) < u64
    → strtoul ((x ∷ ds) ++ rest) ≡ some (value_from 0 (x ∷ ds), rest)
unfolding strtoul convert
strtoul-value x ds rest d e fits =
    let s = scan_digits-value 0 (x ∷ ds) rest d e in ground (arith, d.0, s, fits)
