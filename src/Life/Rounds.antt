-- ===== src/Life/Rounds.antt =====
-- A round of waiting for the socket.

use androix_xcb_libxcb.Base.{
  ℕ, zero, suc, refl, inl, inr, Bool, true, List, ◌++◌, Option, none, some, take, arith, Bool-cases,
  Option-cases, if◌then◌else◌, ◌&&◌,
}
use androix_xcb_libxcb.Conn.{Conn}
use androix_xcb_libxcb.Out.Vector.{Iovec, joined, Writev, wrote, again, broken, write_vec}
use androix_xcb_libxcb.Wait.{
  Turn, taken, read_input, is_some, count_up, count_down, write_ready, polled, conn_wait,
}
use androix_xcb_libxcb.Life.Evolves.{
  Extends-refl, Evolves, Evolves-refl, Evolves-trans, conn_shutdown-Evolves,
}
use androix_xcb_libxcb.Life.Reading.{read_input-Evolves}

-- What the other threads do in a round keeps the connection in order.
pub record IsFair (size : ℕ) (t : Turn) : Type 0 where
  pub others : (c : Conn) → Evolves size c (t.others c)

-- Bytes that are sent.
sent-Evolves : (size : ℕ) (c : Conn) (l : List ℕ) → Evolves size c (record c { sent = c.sent ++ l })
sent-Evolves size c l = record {
  sound = λ s. record {
    valid = s.valid;
    bounded = s.bounded;
    socket = s.socket;
    arrived = s.arrived;
    queued = s.queued;
    request = s.request;
    written = s.written;
  };
  shut = λ e. e;
  setup = refl;
  sent = (l, refl);
}

write_vec-Evolves :
    (size : ℕ) (c : Conn) (v : List Iovec) (w : Writev) → Evolves size c (write_vec c v w).2
unfolding write_vec
write_vec-Evolves size c v again = Evolves-refl size c
write_vec-Evolves size c v broken = conn_shutdown-Evolves size c
write_vec-Evolves size c v (wrote zero) = conn_shutdown-Evolves size c
write_vec-Evolves size c v (wrote (suc n)) = sent-Evolves size c (take (suc n) (joined v))

write_ready-Evolves :
    (size : ℕ) (c : Conn) (v : Option (List Iovec)) (w : Writev)
    → Evolves size c (write_ready c v w).2
unfolding write_ready
write_ready-Evolves size c none w = Evolves-refl size c
write_ready-Evolves size c (some v) w = write_vec-Evolves size c v (taken w v)

pub polled-Evolves :
    (size k : ℕ) (c : Conn) (v : Option (List Iovec)) (t : Turn) → Evolves size c (polled k c v t).2
unfolding polled
polled-Evolves size k c v t = elim (Option-cases t.ready) [
  | inl lost ↦ rw (lost, polled) (conn_shutdown-Evolves size c)
  | inr (r, found) ↦
      let read : Bool × Conn = if r.0 then read_input k c t.mallocs else (true, c) in
      let a : Evolves size c read.1 =
        ground (arith, Evolves-refl size c, read_input-Evolves size k c t.mallocs) in
      let w = write_ready read.1 v t.written in
      let b = Evolves-trans size c read.1 w.2 a (write_ready-Evolves size read.1 v t.written) in
      elim (Bool-cases (read.0 && r.1)) [
        | inl go ↦ rw (found, polled, go) b
        | inr stay ↦ rw (found, polled, stay) a
      ]
]

-- The counters of threads that poll.
pub count_up-Evolves : (size : ℕ) (c : Conn) (w : Bool) → Evolves size c (count_up c w)
count_up-Evolves size c w = record {
  sound = λ s. record {
    bounded = s.bounded;
    socket = s.socket;
    valid = record {
      current = s.valid.current;
      stored = s.valid.stored;
      events = s.valid.events;
      pending = s.valid.pending;
    };
    arrived = s.arrived;
    queued = s.queued;
    request = s.request;
    written = s.written;
  };
  shut = λ e. e;
  setup = refl;
  sent = Extends-refl c.sent;
}

pub count_down-Evolves : (size : ℕ) (c : Conn) (w : Bool) → Evolves size c (count_down c w)
count_down-Evolves size c w = record {
  sound = λ s. record {
    bounded = s.bounded;
    socket = s.socket;
    valid = record {
      current = s.valid.current;
      stored = s.valid.stored;
      events = s.valid.events;
      pending = s.valid.pending;
    };
    arrived = s.arrived;
    queued = s.queued;
    request = s.request;
    written = s.written;
  };
  shut = λ e. e;
  setup = refl;
  sent = Extends-refl c.sent;
}

pub conn_wait-Evolves :
    (size k : ℕ) (c : Conn) (v : Option (List Iovec)) (t : Turn)
    → IsFair size t
    → Evolves size c (conn_wait k c v t).2
unfolding conn_wait
conn_wait-Evolves size k c v t fair =
    let w : Bool = is_some v in
    let up = count_up c w in
    let d = t.others up in
    let p = polled k d v t in
    let whole = Evolves-trans size c up (count_down p.2 w) (count_up-Evolves size c w) (
      Evolves-trans size up d (count_down p.2 w) (fair.others up) (
        Evolves-trans size d p.2 (count_down p.2 w) (polled-Evolves size k d v t)
          (count_down-Evolves size p.2 w))) in
    ground (arith, fair.others c, whole)
