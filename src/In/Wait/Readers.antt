-- ===== src/In/Wait/Readers.antt =====
-- The list of readers: who is signalled, and that a reader that leaves takes only itself out.
use androix_xcb_libxcb.Base.{
  ℕ, ◌^◌, ◌≤◌, ◌<◌, ◌≡◌, refl, sym, ap, ◌∙◌, inl, inr, true, false, List, [], ◌∷◌, ◌++◌, Option,
  Option-cases, none, some, leb, leb→le, leb→lt, ◌==◌, ==_refl, if◌then◌else◌, arith, Bool-cases,
  All,
}
use androix_xcb_libxcb.Sequence.{diff32, seq_le32, seq_eq32}
use androix_xcb_libxcb.Conn.{Conn, Wake, Reader, PendingReply, reader}
use androix_xcb_libxcb.In.Read.{find_reader, wake_reader, is_answer, discards, deliver}
use androix_xcb_libxcb.In.Wait.{insert_reader, remove_reader}

-- The readers' requests lie within 2 ^ 31 numbers from `base` on, and grow from `low` on.
abbrev pub IsSorted : ℕ → ℕ → List Reader → Type 0
IsSorted base low [] = Unit
IsSorted base low (r ∷ rs) =
    (low ≤ diff32 r.request base)
    × (diff32 r.request base < 2 ^ 31)
    × IsSorted base (diff32 r.request base) rs

-- The first reader that waits for a request, by a search of the whole list.
abbrev pub first_waiting : List Reader → ℕ → Option ℕ
first_waiting [] request = none
first_waiting (r ∷ rs) request =
    let rest = first_waiting rs request in if seq_eq32 r.request request then some r.cond else rest

-- Within the window the 32-bit tests compare the distances from its base.
le32-window :
    (base a b : ℕ)
    → diff32 a base < 2 ^ 31
    → diff32 b base < 2 ^ 31
    → seq_le32 a b ≡ leb (diff32 a base) (diff32 b base)
unfolding seq_le32
le32-window base a b ha hb = ground arith

eq32-window : (base a b : ℕ) → seq_eq32 a b ≡ true → diff32 a base ≡ diff32 b base
unfolding seq_eq32
eq32-window base a b e = ground (arith, e)

first_waiting-none :
    (base low request : ℕ) (l : List Reader)
    → IsSorted base low l
    → diff32 request base < low
    → first_waiting l request ≡ none
first_waiting-none base low request [] s h = refl
first_waiting-none base low request (r ∷ rs) s h = elim (Bool-cases (seq_eq32 r.request request)) [
  | inl same ↦ absurd (omega (arith, s.0, eq32-window base r.request request same))
  | inr other ↦
      rw other (first_waiting-none base (diff32 r.request base) request rs s.2 (omega (arith, s.0)))
]

-- In a sorted list of readers, within a window of 2 ^ 31 numbers that also holds the request, the walk
-- that stops at the first reader of a later request finds what a walk of the whole list finds: the
-- first reader of this request.
pub find_reader-first :
    (base low request : ℕ) (l : List Reader)
    → IsSorted base low l
    → diff32 request base < 2 ^ 31
    → find_reader l request ≡ first_waiting l request
unfolding find_reader
find_reader-first base low request [] s h = refl
find_reader-first base low request (r ∷ rs) s h =
    let w = le32-window base r.request request s.1 h in
    elim (Bool-cases (leb (diff32 r.request base) (diff32 request base))) [
      | inl le ↦ rw (w ∙ le) (
          ap (λ (x : Option ℕ). if seq_eq32 r.request request then some r.cond else x)
            (find_reader-first base (diff32 r.request base) request rs s.2 h))
      | inr gt ↦ elim (Bool-cases (seq_eq32 r.request request)) [
        | inl same ↦ absurd (omega (arith, leb→lt _ _ gt, eq32-window base r.request request same))
        | inr other ↦
            rw (w ∙ gt, other)
              (sym (first_waiting-none base (diff32 r.request base) request rs s.2 (leb→lt _ _ gt)))
      ]
    ]

-- A new reader keeps the list sorted.
pub insert_reader-IsSorted :
    (base low : ℕ) (l : List Reader) (r : Reader)
    → IsSorted base low l
    → low ≤ diff32 r.request base
    → diff32 r.request base < 2 ^ 31
    → IsSorted base low (insert_reader l r)
unfolding insert_reader
insert_reader-IsSorted base low [] r s lo hi = (lo, hi, tt)
insert_reader-IsSorted base low (p ∷ ps) r s lo hi =
    let w = le32-window base p.request r.request s.1 hi in
    elim (Bool-cases (leb (diff32 p.request base) (diff32 r.request base))) [
      | inl le ↦ rw (w ∙ le) (
        s.0,
        s.1,
        insert_reader-IsSorted base (diff32 p.request base) ps r s.2 (leb→le _ _ le) hi,
      )
      | inr gt ↦ rw (w ∙ gt) (lo, hi, (omega (arith, leb→lt _ _ gt), s.1, s.2))
    ]

seq_le32_refl : (a : ℕ) → seq_le32 a a ≡ true
unfolding seq_le32
seq_le32_refl a = ground arith

-- A reader that goes in and out again leaves the list as it was, if no other reader has its condition
-- variable.
pub remove_reader-insert_reader :
    (l : List Reader) (r : Reader)
    → All (λ p. (p.cond == r.cond) ≡ false) l
    → remove_reader (insert_reader l r) r ≡ l
unfolding remove_reader insert_reader
remove_reader-insert_reader [] r a = rw (seq_le32_refl r.request, ==_refl r.cond) refl
remove_reader-insert_reader (p ∷ ps) r a = elim (Bool-cases (seq_le32 p.request r.request)) [
  | inl le ↦ rw (le, le, a.0) (ap (◌∷◌ p) (remove_reader-insert_reader ps r a.1))
  | inr gt ↦ rw (gt, seq_le32_refl r.request, ==_refl r.cond) refl
]

-- The request of the first reader of the list, if there is one, is after the given one.
abbrev pub IsLater : ℕ → List Reader → Type 0
IsLater request [] = Unit
IsLater request (p ∷ ps) = seq_le32 p.request request ≡ false

-- A new reader goes between the ones whose requests are not after its own and the first one after.
pub insert_reader-append :
    (before after : List Reader) (r : Reader)
    → All (λ p. seq_le32 p.request r.request ≡ true) before
    → IsLater r.request after
    → insert_reader (before ++ after) r ≡ before ++ r ∷ after
unfolding insert_reader
insert_reader-append [] [] r a l = refl
insert_reader-append [] (p ∷ ps) r a l = rw l refl
insert_reader-append (p ∷ before) after r a l =
    rw (a.0) (ap (◌∷◌ p) (insert_reader-append before after r a.1 l))

-- A reader that no other stands in front of with its condition variable or a later request is taken out.
pub remove_reader-append :
    (before after : List Reader) (r : Reader)
    → All (λ p. (seq_le32 p.request r.request ≡ true) × ((p.cond == r.cond) ≡ false)) before
    → remove_reader (before ++ r ∷ after) r ≡ before ++ after
unfolding remove_reader
remove_reader-append [] after r a = rw (seq_le32_refl r.request, ==_refl r.cond) refl
remove_reader-append (p ∷ before) after r a =
    rw (a.0.0, a.0.1) (ap (◌∷◌ p) (remove_reader-append before after r a.1))

-- The signal for a reader, if there is one.
abbrev pub signals : Option ℕ → List Wake
signals none = []
signals (some cond) = reader cond ∷ []

-- A reply or a checked error that is kept wakes the first of the readers that wait for its request, and
-- gives no other signal; it gives none if no reader waits for the request. The list of readers is sorted, the window of 2 ^ 31 numbers
-- that holds their requests also holds the number read, and malloc succeeds.
pub deliver-wakes :
    (c : Conn) (pend : Option PendingReply) (response_type : ℕ) (bytes extra : List ℕ)
    (base low : ℕ)
    → IsSorted base low c.input.readers
    → diff32 c.input.request_read base < 2 ^ 31
    → discards pend ≡ false
    → is_answer response_type pend ≡ true
    → (deliver c pend response_type bytes extra true).1.input.wakes
      ≡ signals (first_waiting c.input.readers c.input.request_read) ++ c.input.wakes
unfolding deliver wake_reader
deliver-wakes c pend response_type bytes extra base low s window kept is_reply =
    let f = find_reader-first base low c.input.request_read c.input.readers s window in
    elim (Option-cases (first_waiting c.input.readers c.input.request_read)) [
      | inl nobody ↦ ground (arith, kept, is_reply, f, nobody)
      | inr (cond, first) ↦ ground (arith, kept, is_reply, f, first)
    ]
