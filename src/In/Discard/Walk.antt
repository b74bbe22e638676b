-- ===== src/In/Discard/Walk.antt =====
-- The walk over the pending replies: the entry that it marks or puts in.
use androix_xcb_libxcb.Base.{
  ℕ, suc, ◌≡◌, inl, inr, refl, Bool, true, false, List, [], ◌∷◌, ◌++◌, some, get_elem?, arith,
  Bool-cases, drop, take,
}
use androix_xcb_libxcb.Sequence.{seq_le32, seq_eq32}
use androix_xcb_libxcb.Conn.{PendingReply}
use androix_xcb_libxcb.In.Discard.{find_pending, mark_at, mark_discard}

-- The walk over the pending replies finds one for the request, and its reply is to be discarded.
pub record Marked (l : List PendingReply) (request : ℕ) : Type 0 where
  pub slot : ℕ
  pub reply : PendingReply
  pub found : find_pending l request 0 ≡ (true, slot)
  pub there : get_elem? l slot ≡ some reply
  pub marked : reply.flags.discard_reply ≡ true

-- The list after the walk, with its first match marked or with a new entry at the slot.
abbrev pub after_walk : PendingReply → Bool × ℕ → List PendingReply → List PendingReply
after_walk x (true, i) l = mark_at l i
after_walk x (false, i) l = take i l ++ (x ∷ drop i l)

-- A walk from slot `cur` on counts from there.
find_pending-shift :
    (l : List PendingReply) (request cur : ℕ)
    → find_pending l request (suc cur)
      ≡ ((find_pending l request cur).0, suc (find_pending l request cur).1)
unfolding find_pending
find_pending-shift [] request cur = refl
find_pending-shift (p ∷ ps) request cur = ground (arith, find_pending-shift ps request (suc cur))

after_walk-cons :
    (x p : PendingReply) (f : Bool × ℕ) (l : List PendingReply)
    → after_walk x (f.0, suc f.1) (p ∷ l) ≡ p ∷ after_walk x f l
unfolding mark_at
after_walk-cons x p (true, i) l = refl
after_walk-cons x p (false, i) l = refl

Marked-cons :
    (p : PendingReply) (l : List PendingReply) (request : ℕ)
    → seq_eq32 p.first_request request ≡ false
    → seq_le32 p.first_request request ≡ true
    → Marked l request
    → Marked (p ∷ l) request
unfolding find_pending
Marked-cons p l request miss before m = record {
  slot = suc m.slot;
  reply = m.reply;
  found = rw (miss, before, find_pending-shift l request 0, m.found);
  there = m.there;
  marked = m.marked;
}

pub after_walk-Marked :
    (x : PendingReply) (l : List PendingReply) (request : ℕ)
    → seq_eq32 x.first_request request ≡ true
    → x.flags.discard_reply ≡ true
    → Marked (after_walk x (find_pending l request 0) l) request
unfolding find_pending mark_at
after_walk-Marked x [] request e d = record {
  slot = 0;
  reply = x;
  found = rw e;
  there = refl;
  marked = d;
}
after_walk-Marked x (p ∷ ps) request e d = elim (Bool-cases (seq_eq32 p.first_request request)) [
  | inl hit ↦
      rw hit
        (record { slot = 0; reply = mark_discard p; found = rw hit; there = refl; marked = refl })
  | inr miss ↦ elim (Bool-cases (seq_le32 p.first_request request)) [
    | inl before ↦
        rw
          (
            miss,
            before,
            find_pending-shift ps request 0,
            after_walk-cons x p (find_pending ps request 0) ps,
          )
          (Marked-cons p _ request miss before (after_walk-Marked x ps request e d))
    | inr beyond ↦
        rw (miss, beyond) (record { slot = 0; reply = x; found = rw e; there = refl; marked = d })
  ]
]
