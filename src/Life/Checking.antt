-- ===== src/Life/Checking.antt =====
-- Waiting for events, and checking requests.
use androix_xcb_libxcb.Base.{
  ℕ, ◌≡◌, inl, inr, Bool, true, List, [], ◌∷◌, Option, none, some, arith, All, Bool-cases,
  Option-cases, if◌then◌else◌, ◌&&◌, not,
}
use androix_xcb_libxcb.Conn.{Conn, Packet, set_input}
use androix_xcb_libxcb.In.Poll.{get_event}
use androix_xcb_libxcb.In.Wait.{wake_up, wait_for_reply, event_loop, wait_for_event, request_check}
use androix_xcb_libxcb.Sequence.{seq_lt32, seq_le32}
use androix_xcb_libxcb.Wait.{Turn, conn_wait}
use androix_xcb_libxcb.Life.Evolves.{Evolves, Evolves-refl, Evolves-trans}
use androix_xcb_libxcb.Life.Polling.{get_event-Evolves}
use androix_xcb_libxcb.Life.Rounds.{IsFair, conn_wait-Evolves}
use androix_xcb_libxcb.Life.Sending.{Ended, ended, and_then}
use androix_xcb_libxcb.Life.Waiting.{wait_for_reply-Evolves, wake_up-Evolves}

event_loop-Evolves :
    (size k : ℕ) (turns : List Turn) (c : Conn) (ret : Option Packet) (c' : Conn) (left : List Turn)
    → All (IsFair size) turns
    → event_loop k turns c ≡ some (ret, c', left)
    → Ended size c c' left
unfolding event_loop
event_loop-Evolves size k [] c ret c' left f e =
    let p = get_event c.input in
    let d = set_input c p.1 in
    elim (Option-cases p.0) [
      | inl nothing ↦ absurd (ground (arith, e, nothing))
      | inr (b, found) ↦
          let q : d ≡ c' = ground (arith, e, found) in
          let q' : ◌≡◌ {A = List Turn} [] left = ground (arith, e, found) in
          ended size c d c' [] left q q' (get_event-Evolves size c, f)
    ]
event_loop-Evolves size k (t ∷ turns) c ret c' left f e =
    let p = get_event c.input in
    let d = set_input c p.1 in
    let v = get_event-Evolves size c in
    let w = conn_wait k d none t in
    let u = Evolves-trans size c d w.2 v (conn_wait-Evolves size k d none t f.0) in
    elim (Option-cases p.0) [
      | inr (b, found) ↦
          let q : d ≡ c' = ground (arith, e, found) in
          let q' : t ∷ turns ≡ left = ground (arith, e, found) in
          ended size c d c' (t ∷ turns) left q q' (v, f)
      | inl nothing ↦ elim (Bool-cases w.0) [
        | inl go ↦
            let again : event_loop k turns w.2 ≡ some (ret, c', left) =
              ground (arith, e, nothing, go) in
            and_then size c w.2 c' left u
              (event_loop-Evolves size k turns w.2 ret c' left f.1 again)
        | inr stop ↦
            let q : w.2 ≡ c' = ground (arith, e, nothing, stop) in
            let q' : turns ≡ left = ground (arith, e, nothing, stop) in
            ended size c w.2 c' turns left q q' (u, f.1)
      ]
    ]

pub wait_for_event-Evolves :
    (size k : ℕ) (turns : List Turn) (c : Conn) (ret : Option Packet) (c' : Conn) (left : List Turn)
    → All (IsFair size) turns
    → wait_for_event k turns c ≡ some (ret, c', left)
    → Ended size c c' left
unfolding wait_for_event
wait_for_event-Evolves size k turns c ret c' left f e = elim (Bool-cases c.has_error) [
  | inl bad ↦
      let q : c ≡ c' = ground (arith, e, bad) in
      let q' : turns ≡ left = ground (arith, e, bad) in
      ended size c c c' turns left q q' (Evolves-refl size c, f)
  | inr good ↦ elim (Option-cases (event_loop k turns c)) [
    | inl short ↦ absurd (ground (arith, e, good, short))
    | inr ((b, d, l), found) ↦
        let s = event_loop-Evolves size k turns c b d l f found in
        let q : wake_up d ≡ c' = ground (arith, e, good, found) in
        let q' : l ≡ left = ground (arith, e, good, found) in
        ended size c (wake_up d) c' l left q q'
          (Evolves-trans size c d (wake_up d) s.0 (wake_up-Evolves size d), s.1)
  ]
]

pub request_check-Evolves :
    (size k : ℕ) (focus : Conn → Conn) (turns : List Turn) (c : Conn) (sequence cond : ℕ) (m : Bool)
    (error : Option Packet) (c' : Conn) (left : List Turn)
    → ((d : Conn) → Evolves size d (focus d))
    → All (IsFair size) turns
    → request_check k focus turns c sequence cond m ≡ some (error, c', left)
    → Ended size c c' left
unfolding request_check
request_check-Evolves size k focus turns c sequence cond m error c' left fo f e =
    let unanswered : Bool =
      not (seq_lt32 sequence c.input.request_expected)
      && not (seq_le32 sequence c.input.request_completed) in
    let d : Conn = if unanswered then focus c else c in
    let a : Evolves size c d = ground (arith, Evolves-refl size c, fo c) in
    elim (Bool-cases c.has_error) [
      | inl bad ↦
          let q : c ≡ c' = ground (arith, e, bad) in
          let q' : turns ≡ left = ground (arith, e, bad) in
          ended size c c c' turns left q q' (Evolves-refl size c, f)
      | inr good ↦ elim (Option-cases (wait_for_reply k turns d sequence cond true m)) [
        | inl short ↦ absurd (ground (arith, e, good, short))
        | inr ((b, x, l), found) ↦
            let s = wait_for_reply-Evolves size k turns d sequence cond true m b x l f found in
            let q : x ≡ c' = ground (arith, e, good, found) in
            let q' : l ≡ left = ground (arith, e, good, found) in
            ended size c x c' l left q q' (Evolves-trans size c d x a s.0, s.1)
      ]
    ]
