-- ===== src/Wait/Laws.antt =====
-- What a round of waiting leaves alone, and what it sends.
use androix_xcb_libxcb.Base.{
  ℕ, zero, suc, ◌-◌, ◌≤◌, ◌≡◌, refl, ap, ◌∙◌, inl, inr, Bool, true, List, [], ◌++◌, Option, some,
  length, min, ltb, take, take-append-drop, append_assoc, if◌then◌else◌, ◌&&◌, arith, Bool-cases,
  Option-cases, List-cases, get_option,
}
use androix_xcb_libxcb.Conn.{Conn, Out, PendingReply, set_input}
use androix_xcb_libxcb.In.Block.{stream}
use androix_xcb_libxcb.In.Read.{
  Mallocs, deliver, receive, read_packet, read_packets, fill_queue, in_read,
}
use androix_xcb_libxcb.In.Read.Laws.{after_header, header, pend, len, eventlength}
use androix_xcb_libxcb.In.Read.Loop.{read_blocks-Kept}
use androix_xcb_libxcb.Out.Vector.{Iovec, joined, Writev, wrote, again, broken, write_vec, advance}
use androix_xcb_libxcb.Out.Vector.Laws.{advance-joined}
use androix_xcb_libxcb.Wait.{Turn, taken, read_input, count_up, write_ready, polled, conn_wait}

-- The output side is as it was.
pub record SameOutput (c c' : Conn) : Type 0 where
  pub output : c'.output ≡ c.output
  pub sent : c'.sent ≡ c.sent

receive-SameOutput :
    (c : Conn) (p : Option PendingReply) (rt n e : ℕ) (m : Bool)
    → SameOutput c (receive c p rt n e m).1
unfolding receive deliver
receive-SameOutput c p rt n e m = ground (arith, read_blocks-Kept c n e)

read_packet-SameOutput : (k : ℕ) (c : Conn) (m : Mallocs) → SameOutput c (read_packet k c m).1
unfolding read_packet
read_packet-SameOutput k c m = ground (
  arith,
  receive-SameOutput (set_input c (after_header k c m)) (pend k c m) (header k c m).response_type
      (len k c m) (eventlength k c m) m.entry,
)

read_packets-SameOutput :
    (fuel k : ℕ) (c c' : Conn) (m : ℕ → Mallocs)
    → read_packets fuel k c m ≡ some c'
    → SameOutput c c'
unfolding read_packets
read_packets-SameOutput zero k c c' m e = cc
read_packets-SameOutput (suc fuel) k c c' m e = ground (
  arith,
  read_packet-SameOutput k c (m fuel),
  read_packets-SameOutput fuel k (read_packet k c (m fuel)).1 c' m,
)

fill_queue-SameOutput : (c : Conn) → SameOutput c (fill_queue c).2
unfolding fill_queue
fill_queue-SameOutput c = elim (List-cases c.socket) [
  | inl e ↦ rw (e, fill_queue) (record { output = refl; sent = refl })
  | inr (r, s, e) ↦ ground (arith, e)
]

in_read-SameOutput :
    (fuel k : ℕ) (c : Conn) (m : ℕ → Mallocs) (r : Bool × Conn)
    → in_read fuel k c m ≡ some r
    → SameOutput c r.1
unfolding in_read
in_read-SameOutput fuel k c m r e =
    let n = fill_queue c in
    let f = fill_queue-SameOutput c in
    elim (Option-cases (read_packets fuel k n.2 m)) [
      | inl short ↦ absurd (ground (arith, e, short))
      | inr (c', found) ↦
          let s = read_packets-SameOutput fuel k n.2 c' m found in ground (arith, e, found, s, f)
    ]

pub read_input-SameOutput : (k : ℕ) (c : Conn) (m : ℕ → Mallocs) → SameOutput c (read_input k c m).1
unfolding read_input
read_input-SameOutput k c m =
    elim (Option-cases (in_read (suc (length (stream (fill_queue c).2))) k c m)) [
      | inl short ↦ rw (short, read_input) (record { output = refl; sent = refl })
      | inr (r, found) ↦
          rw (found, read_input)
            (in_read-SameOutput (suc (length (stream (fill_queue c).2))) k c m r found)
    ]

-- What is sent, with what is still in the vector, is what it was; the output side is as it was.
pub record Conveyed (c : Conn) (v : List Iovec) (c' : Conn) (v' : List Iovec) : Type 0 where
  pub bytes : c'.sent ++ joined v' ≡ c.sent ++ joined v
  pub output : c'.output ≡ c.output

write_vec_some :
    (c : Conn) (v : List Iovec) (m : ℕ)
    → m ≤ length (joined v)
    → let r = write_vec c v (wrote m) in Conveyed c v r.2 r.1
unfolding write_vec
write_vec_some c v zero h = record { bytes = refl; output = refl }
write_vec_some c v (suc m) h = record {
  bytes =
      append_assoc c.sent (take (suc m) (joined v)) (joined (advance v (suc m)).0)
      ∙ ap (λ l. c.sent ++ l)
          (ap (λ l. take (suc m) (joined v) ++ l) (advance-joined v (suc m) h).0
            ∙ take-append-drop (suc m) (joined v));
  output = refl;
}

write_vec-Conveyed :
    (c : Conn) (v : List Iovec) (w : Writev)
    → let r = write_vec c v (taken w v) in Conveyed c v r.2 r.1
unfolding write_vec
write_vec-Conveyed c v (wrote n) = write_vec_some c v (min n (length (joined v))) (omega arith)
write_vec-Conveyed c v again = record { bytes = refl; output = refl }
write_vec-Conveyed c v broken = record { bytes = refl; output = refl }

polled-Conveyed :
    (k : ℕ) (c : Conn) (v : List Iovec) (t : Turn)
    → let r = polled k c (some v) t in Conveyed c v r.2 (get_option r.1 [])
unfolding polled write_ready
polled-Conveyed k c v t = elim (Option-cases t.ready) [
  | inl lost ↦ rw (lost, polled) (record { bytes = refl; output = refl })
  | inr (r, found) ↦
      let read : Bool × Conn = if r.0 then read_input k c t.mallocs else (true, c) in
      let s : SameOutput c read.1 = ground (arith, read_input-SameOutput k c t.mallocs) in
      let w = write_vec-Conveyed read.1 v t.written in
      elim (Bool-cases (read.0 && r.1)) [
        | inl go ↦
            rw (found, polled, go)
              (record {
                bytes = w.bytes ∙ ap (λ l. l ++ joined v) s.sent;
                output = w.output ∙ s.output;
              })
        | inr stay ↦
            rw (found, polled, stay)
              (record { bytes = ap (λ l. l ++ joined v) s.sent; output = s.output })
      ]
]

-- Other threads leave the output side alone.
pub record IsPolite (t : Turn) : Type 0 where
  pub keeps : (c : Conn) → SameOutput c (t.others c)

pub conn_wait-Conveyed :
    (k : ℕ) (c : Conn) (v : List Iovec) (t : Turn)
    → IsPolite t
    → let r = conn_wait k c (some v) t in Conveyed c v r.2 (get_option r.1 [])
unfolding conn_wait
conn_wait-Conveyed k c v t p =
    let up = count_up c true in
    let o = p.keeps up in
    let d = polled-Conveyed k (t.others up) v t in
    elim (Bool-cases (ltb 0 c.output.writing)) [
      | inl busy ↦
          rw (busy, conn_wait)
            (record {
              bytes = ap (λ l. l ++ joined v) (p.keeps c).sent;
              output = (p.keeps c).output;
            })
      | inr free ↦
          rw (free, conn_wait)
            (record {
              bytes = d.bytes ∙ ap (λ l. l ++ joined v) o.sent;
              output =
                  ap (λ (x : Out). record x { writing = x.writing - 1 }) (d.output ∙ o.output)
                  ∙ ap (λ (n : ℕ). record c.output { writing = n }) (omega arith);
            })
    ]
