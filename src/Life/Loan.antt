-- ===== src/Life/Loan.antt =====
-- The loan of the socket.
use mathlib.Core.Path.{subst}
use androix_xcb_libxcb.Base.{
  ℕ, ◌-◌, ◌≡◌, inl, inr, Bool, true, false, List, [], ◌∷◌, Option, none, some, get_elem?,
  length-set, arith, All, Bool-cases, Option-cases, List-cases, if◌then◌else◌, ◌&&◌,
}
use androix_xcb_libxcb.Conn.{Conn, Flags, external_socket_owner, set_input, signal, socket_owners}
use androix_xcb_libxcb.In.Expect.{expect_reply, replies_done, finish_external}
use androix_xcb_libxcb.Out.Request.{
  wait_moving, set_moving, socket_back, get_socket_back, hand_over, take_socket,
}
use androix_xcb_libxcb.Out.Send.{flush_to}
use androix_xcb_libxcb.Wait.{Turn, is_some}
use androix_xcb_libxcb.Life.Evolves.{
  Evolves, Evolves-refl, Evolves-trans, Evolves-eq, InputKept, set_input-Evolves,
  set_output-Evolves,
}
use androix_xcb_libxcb.Life.Numbering.{expect_reply-Evolves}
use androix_xcb_libxcb.Life.Sending.{Ended, ended, and_then, flush_to-Evolves}
use androix_xcb_libxcb.Life.Rounds.{IsFair}

replies_done-InputKept : (c : Conn) → InputKept c.input (replies_done c).input
unfolding replies_done
replies_done-InputKept c =
    let p = c.input.pending_replies in
    elim (Option-cases (get_elem? p.nodes (p.tail - 1))) [
      | inl beyond ↦ record {
        valid = λ v. ground (arith, beyond, v);
        bounded = λ b. ground (arith, beyond, b);
        queue = ground (arith, beyond);
      }
      | inr (pend, found) ↦
          let l = length-set p.nodes (p.tail - 1) (finish_external pend c.output.request) in
          record {
            valid = λ v. ground (arith, found, l, v);
            bounded = λ b. ground (arith, found, b);
            queue = ground (arith, found);
          }
    ]

replies_done-Evolves : (size : ℕ) (c : Conn) → Evolves size c (replies_done c)
unfolding replies_done
replies_done-Evolves size c =
    let k = replies_done-InputKept c in
    let a = set_input-Evolves size c (replies_done c).input k in
    let q : set_input c (replies_done c).input ≡ replies_done c = ground arith in
    Evolves-eq size c (set_input c (replies_done c).input) (replies_done c) q a

pub set_moving-Evolves :
    (size : ℕ) (c : Conn) (moving : Bool) → Evolves size c (set_moving c moving)
set_moving-Evolves size c moving =
    set_output-Evolves size c (set_moving c moving).output
      (record { queue = λ h. h; request = λ h. h; written = λ h h'. h' })

pub socket_back-Evolves : (size : ℕ) (c : Conn) → Evolves size c (socket_back c)
unfolding socket_back
socket_back-Evolves size c =
    let i = signal c.input socket_owners in
    let d = set_input c i in
    let e = record d {
      output = record c.output {
        socket_moving = false;
        return_socket = none;
        socket_closure = none;
      };
    } in
    let a = set_input-Evolves size c i (record {
      bounded = λ b. b;
      valid = λ v. record {
        current = v.current;
        stored = v.stored;
        events = v.events;
        pending = v.pending;
      };
      queue = omega arith;
    }) in
    let b =
      set_output-Evolves size d e.output
        (record { queue = λ h. h; request = λ h. h; written = λ h h'. h' }) in
    Evolves-trans size c d (socket_back c) a
      (Evolves-trans size d e (socket_back c) b (replies_done-Evolves size e))

wait_moving-Evolves :
    (size : ℕ) (turns : List Turn) (c c' : Conn) (left : List Turn)
    → All (IsFair size) turns
    → wait_moving turns c ≡ some (c', left)
    → Ended size c c' left
unfolding wait_moving
wait_moving-Evolves size [] c c' left f e =
    let q : c ≡ c' = ground (arith, e) in
    let q' : ◌≡◌ {A = List Turn} [] left = ground (arith, e) in
    ended size c c c' [] left q q' (Evolves-refl size c, f)
wait_moving-Evolves size (t ∷ turns) c c' left f e =
    elim (Bool-cases (is_some c.output.return_socket && c.output.socket_moving)) [
      | inr still ↦
          let q : c ≡ c' = ground (arith, e, still) in
          let q' : t ∷ turns ≡ left = ground (arith, e, still) in
          ended size c c c' (t ∷ turns) left q q' (Evolves-refl size c, f)
      | inl moving ↦
          let ih =
            wait_moving-Evolves size turns (t.others c) c' left f.1 (ground (arith, e, moving)) in
          and_then size c (t.others c) c' left (f.0.others c) ih
    ]

pub get_socket_back-Evolves :
    (size : ℕ) (turns : List Turn) (c c' : Conn) (left : List Turn)
    → All (IsFair size) turns
    → get_socket_back turns c ≡ some (c', left)
    → Ended size c c' left
unfolding get_socket_back
get_socket_back-Evolves size turns c c' left f e = elim (Option-cases (wait_moving turns c)) [
  | inl short ↦ absurd (ground (arith, e, short))
  | inr ((d, l), found) ↦
      let s = wait_moving-Evolves size turns c d l f found in
      elim (Option-cases d.output.return_socket) [
        | inl ours ↦
            let q : d ≡ c' = ground (arith, e, found, ours) in
            let q' : l ≡ left = ground (arith, e, found, ours) in ended size c d c' l left q q' s
        | inr (r, lent) ↦ elim (List-cases l) [
          | inl none_left ↦ absurd (ground (arith, e, found, lent, none_left))
          | inr (t, ts, more) ↦
              let m = set_moving d true in
              let o = t.others m in
              let all : All (IsFair size) (t ∷ ts) = subst (All (IsFair size)) more s.1 in
              let q : socket_back o ≡ c' = ground (arith, e, found, lent, more) in
              let q' : ts ≡ left = ground (arith, e, found, lent, more) in
              let b = Evolves-trans size d m (socket_back o) (set_moving-Evolves size d true) (
                Evolves-trans size m o (socket_back o) (all.0.others m)
                  (socket_back-Evolves size o)) in
              ended size c (socket_back o) c' ts left q q'
                (Evolves-trans size c d (socket_back o) s.0 b, all.1)
        ]
      ]
]

pub hand_over-Evolves :
    (size : ℕ) (c : Conn) (r closure : ℕ) (flags : Flags) (m : Bool)
    → Evolves size c (hand_over c r closure flags m)
unfolding hand_over
hand_over-Evolves size c r closure flags m =
    let d = record c {
      output = record c.output { return_socket = some r; socket_closure = some closure };
    } in
    let a =
      set_output-Evolves size c d.output
        (record { queue = λ h. h; request = λ h. h; written = λ h h'. h' }) in
    let e = (expect_reply d d.output.request external_socket_owner flags m).1 in
    let b =
      Evolves-trans size c d e a
        (expect_reply-Evolves size d d.output.request external_socket_owner flags m) in
    ground (arith, a, b)

pub take_socket-Evolves :
    (size k : ℕ) (turns : List Turn) (c : Conn) (r closure : ℕ) (flags : Flags) (m ret : Bool)
    (number : Option ℕ) (c' : Conn) (left : List Turn)
    → All (IsFair size) turns
    → take_socket k turns c r closure flags m ≡ some (ret, number, c', left)
    → Ended size c c' left
unfolding take_socket
take_socket-Evolves size k turns c r closure flags m ret number c' left f e =
    elim (Bool-cases c.has_error) [
      | inl bad ↦
          let q : c ≡ c' = ground (arith, e, bad) in
          let q' : turns ≡ left = ground (arith, e, bad) in
          ended size c c c' turns left q q' (Evolves-refl size c, f)
      | inr good ↦ elim (Option-cases (get_socket_back turns c)) [
        | inl short ↦ absurd (ground (arith, e, good, short))
        | inr ((d, l), back) ↦
            let s = get_socket_back-Evolves size turns c d l f back in
            elim (Option-cases (flush_to k l d d.output.request)) [
              | inl short ↦ absurd (ground (arith, e, good, back, short))
              | inr ((b, x, ts), flushed) ↦
                  let w = flush_to-Evolves size k l d d.output.request b x ts s.1 flushed in
                  let h = hand_over x r closure flags m in
                  let q : (if b then h else x) ≡ c' = ground (arith, e, good, back, flushed) in
                  let q' : ts ≡ left = ground (arith, e, good, back, flushed) in
                  let z : Evolves size x (if b then h else x) =
                    ground
                      (arith, Evolves-refl size x, hand_over-Evolves size x r closure flags m) in
                  ended size c (if b then h else x) c' ts left q q' (
                    Evolves-trans size c d (if b then h else x) s.0
                        (Evolves-trans size d x (if b then h else x) w.0 z),
                    w.1,
                  )
            ]
      ]
    ]
