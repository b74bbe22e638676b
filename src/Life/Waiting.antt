-- ===== src/Life/Waiting.antt =====
-- Waiting for replies.

use androix_xcb_libxcb.Base.{
  ℕ, ◌≡◌, inl, inr, Bool, true, List, [], ◌∷◌, Option, none, some, arith, All, Bool-cases,
  Option-cases, if◌then◌else◌,
}
use androix_xcb_libxcb.Conn.{Conn, Reader, set_input}
use androix_xcb_libxcb.In.Poll.{Answer, poll_for_reply}
use androix_xcb_libxcb.In.Wait.{
  insert_reader, remove_reader, set_readers, wait_loop, wait_as_reader, wake_up, wait_for_reply,
}
use androix_xcb_libxcb.Out.Send.{flush_to}
use androix_xcb_libxcb.Sequence.{widen32}
use androix_xcb_libxcb.Wait.{Turn, is_some, conn_wait}
use androix_xcb_libxcb.Life.Evolves.{Evolves, Evolves-refl, Evolves-trans, set_input-Evolves}
use androix_xcb_libxcb.Life.Sending.{
  Ended, ended, and_then, flush_to-Evolves, wake_up_next_reader-InputKept,
}
use androix_xcb_libxcb.Life.Rounds.{IsFair, conn_wait-Evolves}
use androix_xcb_libxcb.Life.Polling.{poll_for_reply-Evolves}

pub set_readers-Evolves : (size : ℕ) (c : Conn) (l : List Reader) → Evolves size c (set_readers c l)
set_readers-Evolves size c l = set_input-Evolves size c (set_readers c l).input (record {
  bounded = λ b. b;
  valid = λ v. record {
    current = v.current;
    stored = v.stored;
    events = v.events;
    pending = v.pending;
  };
  queue = omega arith;
})

pub wake_up-Evolves : (size : ℕ) (c : Conn) → Evolves size c (wake_up c)
wake_up-Evolves size c =
    set_input-Evolves size c (wake_up c).input (wake_up_next_reader-InputKept size c)

wait_loop-Evolves :
    (size k : ℕ) (turns : List Turn) (c : Conn) (request : ℕ) (error m : Bool) (a : Answer)
    (c' : Conn) (left : List Turn)
    → All (IsFair size) turns
    → wait_loop k turns c request error m ≡ some (a, c', left)
    → Ended size c c' left
unfolding wait_loop
wait_loop-Evolves size k [] c request error m a c' left f e =
    let p = poll_for_reply c.input request error m in
    let d = set_input c p.1 in
    let v = poll_for_reply-Evolves size c request error m in
    elim (Option-cases p.0) [
      | inl nothing ↦ absurd (ground (arith, e, nothing))
      | inr (b, found) ↦
          let q : d ≡ c' = ground (arith, e, found) in
          let q' : ◌≡◌ {A = List Turn} [] left = ground (arith, e, found) in
          ended size c d c' [] left q q' (v, f)
    ]
wait_loop-Evolves size k (t ∷ turns) c request error m a c' left f e =
    let p = poll_for_reply c.input request error m in
    let d = set_input c p.1 in
    let v = poll_for_reply-Evolves size c request error m in
    let w = conn_wait k d none t in
    let u = Evolves-trans size c d w.2 v (conn_wait-Evolves size k d none t f.0) in
    elim (Option-cases p.0) [
      | inr (b, found) ↦
          let q : d ≡ c' = ground (arith, e, found) in
          let q' : t ∷ turns ≡ left = ground (arith, e, found) in
          ended size c d c' (t ∷ turns) left q q' (v, f)
      | inl nothing ↦ elim (Bool-cases w.0) [
        | inl go ↦
            let again : wait_loop k turns w.2 request error m ≡ some (a, c', left) =
              ground (arith, e, nothing, go) in
            and_then size c w.2 c' left u
              (wait_loop-Evolves size k turns w.2 request error m a c' left f.1 again)
        | inr stop ↦
            let q : w.2 ≡ c' = ground (arith, e, nothing, stop) in
            let q' : turns ≡ left = ground (arith, e, nothing, stop) in
            ended size c w.2 c' turns left q q' (u, f.1)
      ]
    ]

wait_as_reader-Evolves :
    (size k : ℕ) (turns : List Turn) (c : Conn) (request cond : ℕ) (error m : Bool) (a : Answer)
    (c' : Conn) (left : List Turn)
    → All (IsFair size) turns
    → wait_as_reader k turns c request cond error m ≡ some (a, c', left)
    → Ended size c c' left
unfolding wait_as_reader
wait_as_reader-Evolves size k turns c request cond error m a c' left f e =
    let r : Reader = record { request = request; cond = cond } in
    let d = set_readers c (insert_reader c.input.readers r) in
    let b = set_readers-Evolves size c (insert_reader c.input.readers r) in
    elim (Option-cases (wait_loop k turns d request error m)) [
      | inl short ↦ absurd (ground (arith, e, short))
      | inr ((x, y, l), found) ↦
          let s = wait_loop-Evolves size k turns d request error m x y l f found in
          let z = set_readers y (remove_reader y.input.readers r) in
          let q : z ≡ c' = ground (arith, e, found) in
          let q' : l ≡ left = ground (arith, e, found) in
          ended size c z c' l left q q' (
            Evolves-trans size c d z b (
                Evolves-trans size d y z s.0
                  (set_readers-Evolves size y (remove_reader y.input.readers r))),
            s.1,
          )
    ]

pub wait_for_reply-Evolves :
    (size k : ℕ) (turns : List Turn) (c : Conn) (request cond : ℕ) (error m : Bool) (a : Answer)
    (c' : Conn) (left : List Turn)
    → All (IsFair size) turns
    → wait_for_reply k turns c request cond error m ≡ some (a, c', left)
    → Ended size c c' left
unfolding wait_for_reply
wait_for_reply-Evolves size k turns c request cond error m a c' left f e =
    let n : ℕ = widen32 c.output.request request in
    let written : Option (Bool × Conn × List Turn) =
      if is_some c.output.return_socket then some (true, c, turns) else flush_to k turns c n in
    let wrote : (b : Bool) (d : Conn) (l : List Turn)
        → written ≡ some (b, d, l)
        → Ended size c d l =
      λ b d l h. elim (Bool-cases (is_some c.output.return_socket)) [
        | inl lent ↦
            let q : c ≡ d = ground (arith, h, lent) in
            let q' : turns ≡ l = ground (arith, h, lent) in
            ended size c c d turns l q q' (Evolves-refl size c, f)
        | inr ours ↦ flush_to-Evolves size k turns c n b d l f (ground (arith, h, ours))
      ] in
    elim (Bool-cases c.has_error) [
      | inl bad ↦
          let q : c ≡ c' = ground (arith, e, bad) in
          let q' : turns ≡ left = ground (arith, e, bad) in
          ended size c c c' turns left q q' (Evolves-refl size c, f)
      | inr good ↦ elim (Option-cases written) [
        | inl short ↦ absurd (ground (arith, e, good, short))
        | inr ((b, d, l), flushed) ↦
            let s = wrote b d l flushed in
            elim (Bool-cases b) [
              | inr lost ↦
                  let q : wake_up d ≡ c' = ground (arith, e, good, flushed, lost) in
                  let q' : l ≡ left = ground (arith, e, good, flushed, lost) in
                  ended size c (wake_up d) c' l left q q'
                    (Evolves-trans size c d (wake_up d) s.0 (wake_up-Evolves size d), s.1)
              | inl fine ↦ elim (Option-cases (wait_as_reader k l d request cond error m)) [
                | inl short ↦ absurd (ground (arith, e, good, flushed, fine, short))
                | inr ((x, y, ts), waited) ↦
                    let z =
                      wait_as_reader-Evolves size k l d request cond error m x y ts s.1 waited in
                    let q : wake_up y ≡ c' = ground (arith, e, good, flushed, fine, waited) in
                    let q' : ts ≡ left = ground (arith, e, good, flushed, fine, waited) in
                    ended size c (wake_up y) c' ts left q q' (
                      Evolves-trans size c d (wake_up y) s.0
                          (Evolves-trans size d y (wake_up y) z.0 (wake_up-Evolves size y)),
                      z.1,
                    )
              ]
            ]
      ]
    ]
