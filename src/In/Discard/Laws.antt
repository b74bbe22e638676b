-- ===== src/In/Discard/Laws.antt =====
-- After a discard, no reply for the request is kept or will be kept.
use androix_xcb_libxcb.Base.{
  ℕ, zero, suc, ◌+◌, ◌≤◌, ◌≡◌, inl, inr, refl, ap, Bool, List, [], ◌∷◌, length, arith, ◌&&◌,
  Bool-cases, drop, ==_refl,
}
use androix_xcb_libxcb.Sequence.{seq_lt32, seq_eq32, widen32}
use androix_xcb_libxcb.Chain.{new}
use androix_xcb_libxcb.Chain.Laws.{insert_at-IsLinked}
use androix_xcb_libxcb.Map.Laws.{values, map_remove-values}
use androix_xcb_libxcb.Conn.{Conn, In, Packet, PendingReply, no_workaround, set_input}
use androix_xcb_libxcb.In.Number.Laws.{IsValid}
use androix_xcb_libxcb.In.Poll.{has_current}
use androix_xcb_libxcb.In.Poll.Laws.{waiting, concat, OneList, Pollable}
use androix_xcb_libxcb.In.Discard.{
  only_discard, insert_pending_discard, find_pending, mark_at, discard_reply,
}

length-mark_at : (l : List PendingReply) (i : ℕ) → length (mark_at l i) ≡ length l
unfolding mark_at
length-mark_at [] i = refl
length-mark_at (p ∷ ps) zero = refl
length-mark_at (p ∷ ps) (suc i) = ap suc (length-mark_at ps i)

find_pending-le :
    (l : List PendingReply) (request cur : ℕ) → (find_pending l request cur).1 ≤ cur + length l
unfolding find_pending
find_pending-le [] request cur = omega arith
find_pending-le (p ∷ ps) request cur = ground (arith, find_pending-le ps request (suc cur))

insert_pending_discard-IsValid :
    (c : Conn) (slot seq : ℕ) (m : Bool)
    → IsValid c.input
    → slot ≤ length c.input.pending_replies.nodes
    → IsValid (insert_pending_discard c slot seq m).input
unfolding insert_pending_discard
insert_pending_discard-IsValid c slot seq m v h =
    let pend : PendingReply = record {
      first_request = seq;
      last_request = seq;
      workaround = no_workaround;
      flags = only_discard;
    } in
    ground (arith, insert_at-IsLinked c.input.pending_replies slot pend v.pending h)

-- discard_reply keeps every tail pointer of the input state at its last link, also if malloc fails.
pub discard_reply-IsValid :
    (c : Conn) (request : ℕ) (m : Bool)
    → IsValid c.input
    → IsValid (discard_reply c request m).input
unfolding discard_reply
discard_reply-IsValid c request m v =
    let freed = set_input c (record c.input { current_reply = new }) in
    let f = find_pending c.input.pending_replies.nodes request 0 in
    ground (
      arith,
      map_remove-values c.input.replies request request v.stored,
      length-mark_at c.input.pending_replies.nodes 0,
      length-mark_at c.input.pending_replies.nodes f.1,
      insert_pending_discard-IsValid freed 0 c.input.request_read m,
      insert_pending_discard-IsValid c f.1 (widen32 c.output.request request) m v,
      find_pending-le c.input.pending_replies.nodes request 0,
    )

concat-drop : (ls : List (List Packet)) → OneList ls → concat (drop 1 ls) ≡ []
concat-drop [] o = refl
concat-drop ([] ∷ ls) o = absurd o
concat-drop ((q ∷ qs) ∷ []) o = refl
concat-drop ((q ∷ qs) ∷ l ∷ ls) o = absurd o

-- After a discard in a valid state no packet waits for the request, whether malloc succeeds or not.
pub discard_reply-waiting :
    (c : Conn) (request : ℕ) (m : Bool)
    → Pollable c.input request
    → waiting (discard_reply c request m).input request ≡ []
unfolding discard_reply insert_pending_discard
discard_reply-waiting c request m v = elim (Bool-cases (seq_lt32 request c.input.request_read)) [
  | inl past ↦
      let r = map_remove-values c.input.replies request request v.valid.stored in
      let left = rw (==_refl request) at r.1 in
      rw (past, past, left) (concat-drop (values request c.input.replies) v.one)
  | inr now ↦ elim (Bool-cases (seq_eq32 request c.input.request_read && has_current c.input)) [
    | inl here ↦ ground (arith, now, here)
    | inr other ↦ ground (arith, now, other)
  ]
]
