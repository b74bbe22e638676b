-- ===== src/Wait/Failure.antt =====
-- A round of waiting that fails has shut the connection down.
use androix_xcb_libxcb.Base.{
  ℕ, suc, ◌≡◌, refl, inl, inr, Bool, true, false, List, Option, none, some, length, if◌then◌else◌,
  arith, Option-cases,
}
use androix_xcb_libxcb.Conn.{Conn}
use androix_xcb_libxcb.In.Block.{stream}
use androix_xcb_libxcb.In.Read.{Mallocs, fill_queue, in_read}
use androix_xcb_libxcb.In.Read.Loop.{read_packets_total}
use androix_xcb_libxcb.Out.Vector.{Iovec, Writev, wrote, again, broken, write_vec}
use androix_xcb_libxcb.Wait.{Turn, read_input, is_some, count_up, write_ready, polled, conn_wait}

in_read-failed :
    (k : ℕ) (c : Conn) (m : ℕ → Mallocs) (r : Bool × Conn)
    → in_read (suc (length (stream (fill_queue c).2))) k c m ≡ some r
    → r.0 ≡ false
    → r.1.has_error ≡ true
unfolding in_read
in_read-failed k c m r e f =
    let n = fill_queue c in
    let (c', t) = read_packets_total (suc (length (stream n.2))) k n.2 m (omega arith) in
    ground (arith, e, f, t)

read_input-failed :
    (k : ℕ) (c : Conn) (m : ℕ → Mallocs)
    → (read_input k c m).0 ≡ false
    → (read_input k c m).1.has_error ≡ true
unfolding read_input in_read
read_input-failed k c m f =
    let n = fill_queue c in
    let (c', t) = read_packets_total (suc (length (stream n.2))) k n.2 m (omega arith) in
    ground (arith, f, t)

write_ready-failed :
    (c : Conn) (v : Option (List Iovec)) (w : Writev)
    → (write_ready c v w).0 ≡ false
    → (write_ready c v w).2.has_error ≡ true
unfolding write_ready write_vec
write_ready-failed c none w f = cc f
write_ready-failed c (some v) again f = cc f
write_ready-failed c (some v) broken f = refl
write_ready-failed c (some v) (wrote n) f = ground (arith, f)

polled-failed :
    (k : ℕ) (c : Conn) (v : Option (List Iovec)) (t : Turn)
    → (polled k c v t).0 ≡ false
    → (polled k c v t).2.has_error ≡ true
unfolding polled
polled-failed k c v t f = elim (Option-cases t.ready) [
  | inl lost ↦ rw (lost, polled) refl
  | inr (r, found) ↦
      let read : Bool × Conn = if r.0 then read_input k c t.mallocs else (true, c) in
      let a = read_input-failed k c t.mallocs in
      let b = write_ready-failed read.1 v t.written in ground (arith, f, found, a, b)
]

-- A round of waiting fails only when the connection has been shut down: the socket or poll failed, or
-- the peer has closed the connection.
pub conn_wait-failed :
    (k : ℕ) (c : Conn) (v : Option (List Iovec)) (t : Turn)
    → (conn_wait k c v t).0 ≡ false
    → (conn_wait k c v t).2.has_error ≡ true
unfolding conn_wait
conn_wait-failed k c v t f =
    ground (arith, f, polled-failed k (t.others (count_up c (is_some v))) v t)
