-- ===== src/Life/Polling.antt =====
-- Taking what has come, and dropping what is not wanted.

use androix_xcb_libxcb.Base.{
  ℕ, ◌≡◌, ap, inl, inr, Bool, Option, some, length, arith, Bool-cases, Option-cases,
}
use androix_xcb_libxcb.Conn.{Conn, In, Packet, set_input}
use androix_xcb_libxcb.In.Discard.{discard_reply, xcb_discard_reply, insert_pending_discard}
use androix_xcb_libxcb.In.Discard.Laws.{discard_reply-IsValid}
use androix_xcb_libxcb.In.Poll.{
  get_event, take_stored, take_current, poll_for_reply, xcb_poll_for_reply, xcb_poll_for_event,
}
use androix_xcb_libxcb.In.Poll.Events.{get_event_lem, poll_for_reply-IsValid}
use androix_xcb_libxcb.In.Read.{Mallocs, in_read}
use androix_xcb_libxcb.Life.Evolves.{
  Evolves, Evolves-refl, Evolves-trans, Evolves-eq, IsBounded, InputKept, set_input-Evolves,
  ReadKept, ReadKept-Evolves,
}
use androix_xcb_libxcb.Life.Reading.{in_read-Evolves}

take_stored_queue : (i : In) (request : ℕ) (m : Bool) → (take_stored i request m).1.queue ≡ i.queue
unfolding take_stored
take_stored_queue i request m = ground arith

take_current_queue : (i : In) → (take_current i).1.queue ≡ i.queue
unfolding take_current
take_current_queue i = ground arith

take_stored_numbers :
    (i : In) (request : ℕ) (m : Bool) → IsBounded i → IsBounded (take_stored i request m).1
unfolding take_stored
take_stored_numbers i request m b = ground (arith, b)

take_current_numbers : (i : In) → IsBounded i → IsBounded (take_current i).1
unfolding take_current
take_current_numbers i b = ground (arith, b)

poll_for_reply-InputKept :
    (i : In) (request : ℕ) (error m : Bool) → InputKept i (poll_for_reply i request error m).1
unfolding poll_for_reply
poll_for_reply-InputKept i request error m = record {
  valid = poll_for_reply-IsValid i request error m;
  bounded = λ b. ground (arith, b, take_stored_numbers i request m, take_current_numbers i);
  queue =
      ground (arith, ap length (take_stored_queue i request m), ap length (take_current_queue i));
}

pub poll_for_reply-Evolves :
    (size : ℕ) (c : Conn) (request : ℕ) (error m : Bool)
    → Evolves size c (set_input c (poll_for_reply c.input request error m).1)
poll_for_reply-Evolves size c request error m =
    set_input-Evolves size c (poll_for_reply c.input request error m).1
      (poll_for_reply-InputKept c.input request error m)

pub xcb_poll_for_reply-Evolves :
    (size : ℕ) (c : Conn) (request : ℕ) (error m : Bool)
    → Evolves size c (xcb_poll_for_reply c request error m).1
unfolding xcb_poll_for_reply
xcb_poll_for_reply-Evolves size c request error m =
    ground (arith, Evolves-refl size c, poll_for_reply-Evolves size c request error m)

pub get_event-Evolves : (size : ℕ) (c : Conn) → Evolves size c (set_input c (get_event c.input).1)
unfolding get_event
get_event-Evolves size c = set_input-Evolves size c (get_event c.input).1 (record {
  valid = λ v. (get_event_lem c.input v).3;
  bounded = λ b. ground (arith, b);
  queue = ground arith;
})

pub xcb_poll_for_event-Evolves :
    (size fuel k : ℕ) (c : Conn) (m : ℕ → Mallocs) (e : Option Packet) (c' : Conn)
    → xcb_poll_for_event fuel k c m ≡ some (e, c')
    → Evolves size c c'
unfolding xcb_poll_for_event
xcb_poll_for_event-Evolves size fuel k c m e c' h =
    let g = get_event c.input in
    let d = set_input c g.1 in
    let a = get_event-Evolves size c in
    elim (Bool-cases c.has_error) [
      | inl bad ↦
          let q : c ≡ c' = ground (arith, h, bad) in Evolves-eq size c c c' q (Evolves-refl size c)
      | inr good ↦ elim (Option-cases g.0) [
        | inr (ret, found) ↦
            let q : d ≡ c' = ground (arith, h, good, found) in Evolves-eq size c d c' q a
        | inl empty ↦ elim (Option-cases (in_read fuel k d m)) [
          | inl short ↦ absurd (ground (arith, h, good, empty, short))
          | inr ((ok, x), read) ↦
              let b = Evolves-trans size c d x a (in_read-Evolves size fuel k d m (ok, x) read) in
              let y = set_input x (get_event x.input).1 in
              let z = Evolves-trans size c x y b (get_event-Evolves size x) in
              elim (Bool-cases ok) [
                | inl fine ↦
                    let q : y ≡ c' = ground (arith, h, good, empty, read, fine) in
                    Evolves-eq size c y c' q z
                | inr lost ↦
                    let q : x ≡ c' = ground (arith, h, good, empty, read, lost) in
                    Evolves-eq size c x c' q b
              ]
        ]
      ]
    ]

discard_reply-ReadKept :
    (c : Conn) (request : ℕ) (m : Bool) → ReadKept c (discard_reply c request m)
unfolding discard_reply insert_pending_discard
discard_reply-ReadKept c request m = record {
  input = record {
    valid = discard_reply-IsValid c request m;
    bounded = λ b. ground (arith, b);
    queue = ground arith;
  };
  output = ground arith;
  socket = λ h. ground (arith, h);
  sent = ground arith;
  setup = ground arith;
  shut = λ e. ground (arith, e);
}

pub xcb_discard_reply-Evolves :
    (size : ℕ) (c : Conn) (sequence : ℕ) (m : Bool)
    → Evolves size c (xcb_discard_reply c sequence m)
unfolding xcb_discard_reply
xcb_discard_reply-Evolves size c sequence m = ground (
  arith,
  Evolves-refl size c,
  ReadKept-Evolves size c (discard_reply c sequence m) (discard_reply-ReadKept c sequence m),
)
