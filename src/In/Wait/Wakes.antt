-- ===== src/In/Wait/Wakes.antt =====
-- A thread that is done with the socket wakes the next.
use androix_xcb_libxcb.Base.{
  ℕ, ◌≡◌, inl, inr, Bool, true, false, List, [], ◌∷◌, Option, some, arith, Bool-cases, Option-cases,
  List-cases, if◌then◌else◌,
}
use mathlib.Core.Path.{subst}
use androix_xcb_libxcb.Conn.{Conn, Packet, Reader, Wake, reader, event, writers, signal, set_input}
use androix_xcb_libxcb.In.Expect.{wake_up_next_reader}
use androix_xcb_libxcb.In.Poll.{Answer}
use androix_xcb_libxcb.In.Wait.{wait_as_reader, wake_up, wait_for_reply, event_loop, wait_for_event}
use androix_xcb_libxcb.Out.Send.{flush_to, send_loop, finish_send, out_send}
use androix_xcb_libxcb.Out.Vector.{Iovec}
use androix_xcb_libxcb.Sequence.{widen32}
use androix_xcb_libxcb.Wait.{Turn, is_some}

-- The ways in which a thread is done with the socket: it has waited for a reply or for an event, or it
-- has sent.
pub data Done (k : ℕ) (c c' : Conn) : Type 0 where
  replied :
      (turns left : List Turn) (request cond : ℕ) (error allocated : Bool) (a : Answer)
      → wait_for_reply k turns c request cond error allocated ≡ some (a, c', left)
      → Done k c c'
  got_event :
      (turns left : List Turn) (ret : Option Packet)
      → wait_for_event k turns c ≡ some (ret, c', left)
      → Done k c c'
  sent :
      (turns left : List Turn) (vector : List Iovec) (r : Bool)
      → out_send k turns c vector ≡ some (r, c', left)
      → Done k c c'

-- The signal for the first of the readers, or for a thread that waits for events if there is none.
abbrev pub next_wake : List Reader → Wake
next_wake [] = event
next_wake (r ∷ rs) = reader r.cond

-- The last signal is for the next reader.
abbrev pub IsPassedOn : Conn → Type 0
IsPassedOn c = (earlier : List Wake) × (c.input.wakes ≡ next_wake c.input.readers ∷ earlier)

wake_up-IsPassedOn : (c : Conn) → IsPassedOn (wake_up c)
unfolding wake_up_next_reader
wake_up-IsPassedOn c = elim (List-cases c.input.readers) [
  | inl e ↦ (c.input.wakes, ground (arith, e))
  | inr (r, rs, e) ↦ (c.input.wakes, ground (arith, e))
]

out_send-IsPassedOn :
    (k : ℕ) (turns : List Turn) (c : Conn) (v : List Iovec) (r : Bool) (c' : Conn)
    (left : List Turn)
    → out_send k turns c v ≡ some (r, c', left)
    → IsPassedOn c'
unfolding out_send finish_send
out_send-IsPassedOn k turns c v r c' left e = elim (Option-cases (send_loop k turns c v)) [
  | inl short ↦ absurd (ground (arith, e, short))
  | inr ((b, d, l), found) ↦
      let q : finish_send d ≡ c' = ground (arith, e, found) in
      let w = wake_up-IsPassedOn (set_input d (signal d.input writers)) in subst IsPassedOn q w
]

wait_for_event-IsPassedOn :
    (k : ℕ) (turns : List Turn) (c : Conn) (ret : Option Packet) (c' : Conn) (left : List Turn)
    → c.has_error ≡ false
    → wait_for_event k turns c ≡ some (ret, c', left)
    → IsPassedOn c'
unfolding wait_for_event
wait_for_event-IsPassedOn k turns c ret c' left ok e = elim (Option-cases (event_loop k turns c)) [
  | inl short ↦ absurd (ground (arith, e, ok, short))
  | inr ((b, d, l), found) ↦
      let q : wake_up d ≡ c' = ground (arith, e, ok, found) in
      subst IsPassedOn q (wake_up-IsPassedOn d)
]

wait_for_reply-IsPassedOn :
    (k : ℕ) (turns : List Turn) (c : Conn) (request cond : ℕ) (error m : Bool) (a : Answer)
    (c' : Conn) (left : List Turn)
    → c.has_error ≡ false
    → wait_for_reply k turns c request cond error m ≡ some (a, c', left)
    → IsPassedOn c'
unfolding wait_for_reply
wait_for_reply-IsPassedOn k turns c request cond error m a c' left ok e =
    let n : ℕ = widen32 c.output.request request in
    let written : Option (Bool × Conn × List Turn) =
      if is_some c.output.return_socket then some (true, c, turns) else flush_to k turns c n in
    elim (Option-cases written) [
      | inl short ↦ absurd (ground (arith, e, ok, short))
      | inr ((b, d, l), flushed) ↦ elim (Bool-cases b) [
        | inr lost ↦
            let q : wake_up d ≡ c' = ground (arith, e, ok, flushed, lost) in
            subst IsPassedOn q (wake_up-IsPassedOn d)
        | inl fine ↦ elim (Option-cases (wait_as_reader k l d request cond error m)) [
          | inl short ↦ absurd (ground (arith, e, ok, flushed, fine, short))
          | inr ((x, y, ts), waited) ↦
              let q : wake_up y ≡ c' = ground (arith, e, ok, flushed, fine, waited) in
              subst IsPassedOn q (wake_up-IsPassedOn y)
        ]
      ]
    ]

-- A thread that is done with the socket, on a connection that had no error when it began, has given its
-- last signal to the first of the readers that are left, or to those who wait for events if there is
-- none: be it that it got a reply or an event, that it sent, or that it failed.
pub Done-IsPassedOn : (k : ℕ) (c c' : Conn) → c.has_error ≡ false → Done k c c' → IsPassedOn c'
Done-IsPassedOn k c c' ok (replied turns left request cond error m a e) =
    wait_for_reply-IsPassedOn k turns c request cond error m a c' left ok e
Done-IsPassedOn k c c' ok (got_event turns left ret e) =
    wait_for_event-IsPassedOn k turns c ret c' left ok e
Done-IsPassedOn k c c' ok (sent turns left vector r e) =
    out_send-IsPassedOn k turns c vector r c' left e
