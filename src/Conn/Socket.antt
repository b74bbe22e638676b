-- ===== src/Conn/Socket.antt =====
-- The socket as xcb_in.c sees it: the results of the coming calls of recv, and read_block.
use androix_xcb_libxcb.Base.{
  ℕ, zero, suc, ◌-◌, ◌≤◌, ◌<◌, ◌≡◌, refl, ap, Bool, true, false, List, [], ◌∷◌, ◌++◌, Option, none,
  some, take, drop, length, arith, leb, if◌then◌else◌, length-append, length-drop, take-plus,
  drop-plus, take-part, drop-part, Bool-cases, leb→le, leb→lt, le→leb, sym, ◌∙◌, inl, inr,
}

-- One call of recv: a positive result with the bytes that have come (those past the buffer's end stay
-- for the next call), 0 at the end of the stream (no bytes), EAGAIN with whether the poll after it
-- succeeds, or another error.
pub data Recv : Type 0 where
  got : List ℕ → Recv
  would_block : Bool → Recv
  failed : Recv

-- After the last result listed, the peer has closed the connection. The result `none` stands for a
-- return value of 0 or less.
unfoldable pub read_block : List Recv → ℕ → Option (List ℕ) × List Recv
read_block s zero = (some [], s)
read_block [] (suc n) = (none, [])
read_block (got [] ∷ s) (suc n) = (none, s)
read_block (got (b ∷ bs) ∷ s) (suc n) =
    let more : Option (List ℕ) × List Recv = read_block s (n - length bs) in
    if leb (length bs) n
    then (elim more.0 [ none ↦ none | some l ↦ some ((b ∷ bs) ++ l) ], more.1)
    else (some (b ∷ take n bs), got (drop n bs) ∷ s)
read_block (would_block polled ∷ s) (suc n) =
    let more : Option (List ℕ) × List Recv = read_block s (suc n) in
    if polled then more else (none, s)
read_block (failed ∷ s) (suc n) = (none, s)

-- The bytes that arrive before the stream ends or fails.
abbrev pub arriving : List Recv → List ℕ
arriving [] = []
arriving (got [] ∷ s) = []
arriving (got (b ∷ bs) ∷ s) = (b ∷ bs) ++ arriving s
arriving (would_block true ∷ s) = arriving s
arriving (would_block false ∷ s) = []
arriving (failed ∷ s) = []

-- A list that is left over after a partial read is not empty.
arriving-got : (l : List ℕ) (s : List Recv) → 0 < length l → arriving (got l ∷ s) ≡ l ++ arriving s
arriving-got [] s h = absurd (omega arith)
arriving-got (b ∷ bs) s h = refl

-- `read_block` returns the next `n` bytes if that many arrive, however they are cut up and whatever
-- EAGAIN comes between, and leaves the bytes after them.
pub read_block-stream :
    (s : List Recv) (n : ℕ)
    → n ≤ length (arriving s)
    → ((read_block s n).0 ≡ some (take n (arriving s)))
      × (arriving (read_block s n).1 ≡ drop n (arriving s))
unfolding read_block
read_block-stream s zero h = (refl, refl)
read_block-stream [] (suc n) h = absurd (omega arith)
read_block-stream (got [] ∷ s) (suc n) h = absurd (omega arith)
read_block-stream (got (b ∷ bs) ∷ s) (suc n) h = elim (Bool-cases (leb (length bs) n)) [
  | inl all ↦
      let p = leb→le _ _ all in
      let ih = read_block-stream s (n - length bs) (omega (arith, length-append bs (arriving s))) in
      rw (all, ih.0)
        (
          ap (λ l. some (b ∷ l)) (sym (take-plus bs (arriving s) n p)),
          rw (ih.1) (sym (drop-plus bs (arriving s) n p)),
        )
  | inr part ↦
      let p = leb→lt _ _ part in
      rw part (
        ap (λ l. some (b ∷ l)) (sym (take-part bs (arriving s) n (omega arith))),
        arriving-got (drop n bs) s (omega (arith, length-drop n bs))
            ∙ sym (drop-part bs (arriving s) n (omega arith)),
      )
]
read_block-stream (would_block true ∷ s) (suc n) h = read_block-stream s (suc n) h
read_block-stream (would_block false ∷ s) (suc n) h = absurd (omega arith)
read_block-stream (failed ∷ s) (suc n) h = absurd (omega arith)

pub read_block-short : (s : List Recv) (n : ℕ) → length (arriving s) < n → (read_block s n).0 ≡ none
unfolding read_block
read_block-short s zero h = absurd (omega arith)
read_block-short [] (suc n) h = refl
read_block-short (got [] ∷ s) (suc n) h = refl
read_block-short (got (b ∷ bs) ∷ s) (suc n) h = rw (
  le→leb (length bs) n (omega (arith, length-append bs (arriving s))),
  read_block-short s (n - length bs) (omega (arith, length-append bs (arriving s))),
)
read_block-short (would_block true ∷ s) (suc n) h = read_block-short s (suc n) h
read_block-short (would_block false ∷ s) (suc n) h = refl
read_block-short (failed ∷ s) (suc n) h = refl
