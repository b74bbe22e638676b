-- ===== src/Life/Sending.antt =====
-- Sending what is queued.
use mathlib.Core.Path.{subst}
use androix_xcb_libxcb.Base.{
  ℕ, ◌≡◌, inl, inr, Bool, List, [], ◌∷◌, some, get_option, arith, All, Bool-cases, Option-cases,
  List-cases, ◌==◌,
}
use androix_xcb_libxcb.Sequence.{seq_lt}
use androix_xcb_libxcb.Conn.{Conn, Out, set_input, signal, writers}
use androix_xcb_libxcb.In.Expect.{wake_up_next_reader}
use androix_xcb_libxcb.Out.Send.{send_loop, finish_send, out_send, wait_writing, flush_to}
use androix_xcb_libxcb.Out.Vector.{Iovec, set_queue}
use androix_xcb_libxcb.Wait.{Turn, conn_wait}
use androix_xcb_libxcb.Life.Evolves.{
  Evolves, Evolves-refl, Evolves-trans, Evolves-eq, InputKept, set_input-Evolves,
  set_output-Evolves,
}
use androix_xcb_libxcb.Life.Rounds.{IsFair, conn_wait-Evolves}

-- A call has ended, and the rounds that are left are still fair.
abbrev pub Ended : ℕ → Conn → Conn → List Turn → Type 0
Ended size c c' left = Evolves size c c' × All (IsFair size) left

pub ended :
    (size : ℕ) (c d c' : Conn) (l left : List Turn)
    → d ≡ c'
    → l ≡ left
    → Ended size c d l
    → Ended size c c' left
ended size c d c' l left q q' s = (Evolves-eq size c d c' q s.0, subst (All (IsFair size)) q' s.1)

-- One call after another.
pub and_then :
    (size : ℕ) (c d c' : Conn) (left : List Turn)
    → Evolves size c d
    → Ended size d c' left
    → Ended size c c' left
and_then size c d c' left a s = (Evolves-trans size c d c' a s.0, s.1)

pub send_loop-Evolves :
    (size k : ℕ) (turns : List Turn) (c : Conn) (v : List Iovec) (r : Bool) (c' : Conn)
    (left : List Turn)
    → All (IsFair size) turns
    → send_loop k turns c v ≡ some (r, c', left)
    → Ended size c c' left
unfolding send_loop
send_loop-Evolves size k turns c [] r c' left f e =
    let q : c ≡ c' = ground (arith, e) in
    let q' : turns ≡ left = ground (arith, e) in
    ended size c c c' turns left q q' (Evolves-refl size c, f)
send_loop-Evolves size k [] c (v ∷ vs) r c' left f e = absurd (ground (arith, e))
send_loop-Evolves size k (t ∷ turns) c (v ∷ vs) r c' left f e =
    let w = conn_wait k c (some (v ∷ vs)) t in
    let a = conn_wait-Evolves size k c (some (v ∷ vs)) t f.0 in
    elim (Bool-cases w.0) [
      | inl go ↦
          let e' : send_loop k turns w.2 (get_option w.1 []) ≡ some (r, c', left) =
            ground (arith, e, go) in
          let ih = send_loop-Evolves size k turns w.2 (get_option w.1 []) r c' left f.1 e' in
          and_then size c w.2 c' left a ih
      | inr stop ↦
          let q : w.2 ≡ c' = ground (arith, e, stop) in
          let q' : turns ≡ left = ground (arith, e, stop) in
          ended size c w.2 c' turns left q q' (a, f.1)
    ]

pub wake_up_next_reader-InputKept :
    (size : ℕ) (c : Conn) → InputKept c.input (wake_up_next_reader c.input)
unfolding wake_up_next_reader
wake_up_next_reader-InputKept size c = record {
  valid = λ v. ground (arith, v);
  bounded = λ b. ground (arith, b);
  queue = ground arith;
}

pub finish_send-Evolves : (size : ℕ) (c : Conn) → Evolves size c (finish_send c)
unfolding finish_send
finish_send-Evolves size c =
    let d = set_input c (signal c.input writers) in
    let o : Out = record c.output { request_written = c.output.request } in
    let a = set_input-Evolves size c (signal c.input writers) (record {
      bounded = λ b. b;
      valid = λ v. record {
        current = v.current;
        stored = v.stored;
        events = v.events;
        pending = v.pending;
      };
      queue = omega arith;
    }) in
    let e = set_input d (wake_up_next_reader d.input) in
    let b =
      set_input-Evolves size d (wake_up_next_reader d.input)
        (wake_up_next_reader-InputKept size d) in
    let g =
      set_output-Evolves size e o
        (record { queue = λ h. h; request = λ h. h; written = λ h h'. h }) in
    Evolves-trans size c d (finish_send c) a (Evolves-trans size d e (finish_send c) b g)

pub out_send-Evolves :
    (size k : ℕ) (turns : List Turn) (c : Conn) (v : List Iovec) (r : Bool) (c' : Conn)
    (left : List Turn)
    → All (IsFair size) turns
    → out_send k turns c v ≡ some (r, c', left)
    → Ended size c c' left
unfolding out_send
out_send-Evolves size k turns c v r c' left f e = elim (Option-cases (send_loop k turns c v)) [
  | inl short ↦ absurd (ground (arith, e, short))
  | inr ((b, d, l), found) ↦
      let q : finish_send d ≡ c' = ground (arith, e, found) in
      let q' : l ≡ left = ground (arith, e, found) in
      let s = send_loop-Evolves size k turns c v b d l f found in
      ended size c (finish_send d) c' l left q q'
        (Evolves-trans size c d (finish_send d) s.0 (finish_send-Evolves size d), s.1)
]

-- A thread that waits for its turn.
pub wait_writing-Evolves :
    (size : ℕ) (turns : List Turn) (c c' : Conn) (left : List Turn)
    → All (IsFair size) turns
    → wait_writing turns c ≡ some (c', left)
    → Ended size c c' left
unfolding wait_writing
wait_writing-Evolves size [] c c' left f e =
    let q : c ≡ c' = ground (arith, e) in
    let q' : ◌≡◌ {A = List Turn} [] left = ground (arith, e) in
    ended size c c c' [] left q q' (Evolves-refl size c, f)
wait_writing-Evolves size (t ∷ turns) c c' left f e = elim (Bool-cases (c.output.writing == 0)) [
  | inl idle ↦
      let q : c ≡ c' = ground (arith, e, idle) in
      let q' : t ∷ turns ≡ left = ground (arith, e, idle) in
      ended size c c c' (t ∷ turns) left q q' (Evolves-refl size c, f)
  | inr busy ↦
      let ih = wait_writing-Evolves size turns (t.others c) c' left f.1 (ground (arith, e, busy)) in
      and_then size c (t.others c) c' left (f.0.others c) ih
]

-- The queue is handed to a thread that sends it.
pub clear-Evolves : (size : ℕ) (c : Conn) → Evolves size c (set_queue c [])
clear-Evolves size c =
    set_output-Evolves size c (record c.output { queue = [] })
      (record { queue = λ h. omega arith; request = λ h. h; written = λ h h'. h' })

pub flush_to-Evolves :
    (size k : ℕ) (turns : List Turn) (c : Conn) (request : ℕ) (r : Bool) (c' : Conn)
    (left : List Turn)
    → All (IsFair size) turns
    → flush_to k turns c request ≡ some (r, c', left)
    → Ended size c c' left
unfolding flush_to
flush_to-Evolves size k turns c request r c' left f e =
    elim (Bool-cases (seq_lt c.output.request_written request)) [
      | inr done ↦
          let q : c ≡ c' = ground (arith, e, done) in
          let q' : turns ≡ left = ground (arith, e, done) in
          ended size c c c' turns left q q' (Evolves-refl size c, f)
      | inl behind ↦ elim (List-cases c.output.queue) [
        | inl empty ↦ elim (Option-cases (wait_writing turns c)) [
          | inl short ↦ absurd (ground (arith, e, behind, empty, short))
          | inr ((d, l), found) ↦
              let q : d ≡ c' = ground (arith, e, behind, empty, found) in
              let q' : l ≡ left = ground (arith, e, behind, empty, found) in
              let s = wait_writing-Evolves size turns c d l f found in
              ended size c d c' l left q q' s
        ]
        | inr (b, bs, some_bytes) ↦
            let d = set_queue c [] in
            let sent : out_send k turns d (c.output.queue ∷ []) ≡ some (r, c', left) =
              ground (arith, e, behind, some_bytes) in
            let s = out_send-Evolves size k turns d (c.output.queue ∷ []) r c' left f sent in
            and_then size c d c' left (clear-Evolves size c) s
      ]
    ]
