-- ===== src/Life/Reading.antt =====
-- Filling the input queue, and reading what is in it.
use androix_xcb_libxcb.Base.{
  ℕ, suc, ◌-◌, ◌≤◌, ◌≡◌, sym, ◌∙◌, inl, inr, Bool, [], some, length, take, append-nil,
  length-append, length-take, arith, Bool-cases, Option-cases, List-cases, ◌||◌,
}
use mathlib.Core.Path.{subst}
use androix_xcb_libxcb.Conn.{Conn, conn_shutdown}
use androix_xcb_libxcb.Conn.Socket.{got, would_block, failed}
use androix_xcb_libxcb.In.Block.{stream}
use androix_xcb_libxcb.In.Number.Laws.{IsValid}
use androix_xcb_libxcb.In.Read.{Mallocs, read_packets, fill_queue, in_read, in_queue_size}
use androix_xcb_libxcb.Wait.{read_input}
use androix_xcb_libxcb.Life.Octets.{fill_queue-IsOctets}
use androix_xcb_libxcb.Life.Evolves.{
  IsBounded, Evolves, Evolves-refl, Evolves-trans, Evolves-eq, conn_shutdown-Evolves,
  ReadKept-Evolves,
}
use androix_xcb_libxcb.Life.Packets.{read_packets-ReadKept}

-- One recv into the rest of the queue.
fill_queue_lem :
    (c : Conn)
    → let d = (fill_queue c).2 in
      (d.output ≡ c.output)
      × (d.sent ≡ c.sent)
      × (d.setup ≡ c.setup)
      × (d.has_error ≡ c.has_error)
      × (d.input ≡ record c.input { queue = d.input.queue })
      × (length c.input.queue ≤ in_queue_size → length d.input.queue ≤ in_queue_size)
unfolding fill_queue
fill_queue_lem c = elim (List-cases c.socket) [
  | inl e ↦ ground (arith, e)
  | inr (got bs, s, e) ↦ ground (
    arith,
    e,
    length-append c.input.queue (take (in_queue_size - length c.input.queue) bs),
    length-take (in_queue_size - length c.input.queue) bs,
  )
  | inr (would_block b, s, e) ↦ ground (arith, e)
  | inr (failed, s, e) ↦ ground (arith, e)
]

fill_queue-Evolves : (size : ℕ) (c : Conn) → Evolves size c (fill_queue c).2
fill_queue-Evolves size c =
    let (o, se, st, he, i, q) = fill_queue_lem c in
    record {
      sound = λ s.
          let z = fill_queue-IsOctets c s.bounded.0 s.socket in
          record {
            bounded = subst IsBounded (sym i) (z.0, s.bounded.1, s.bounded.2, s.bounded.3);
            socket = z.1;
            valid = subst IsValid (sym i) (record {
              current = s.valid.current;
              stored = s.valid.stored;
              events = s.valid.events;
              pending = s.valid.pending;
            });
            arrived = q s.arrived;
            queued = rw o s.queued;
            request = rw o s.request;
            written = rw o s.written;
          };
      shut = λ e. he ∙ e;
      setup = st;
      sent = ([], se ∙ sym (append-nil c.sent));
    }

pub in_read-Evolves :
    (size fuel k : ℕ) (c : Conn) (m : ℕ → Mallocs) (r : Bool × Conn)
    → in_read fuel k c m ≡ some r
    → Evolves size c r.1
unfolding in_read
in_read-Evolves size fuel k c m r e =
    let n = fill_queue c in
    elim (Option-cases (read_packets fuel k n.2 m)) [
      | inl short ↦ absurd (ground (arith, e, short))
      | inr (d, found) ↦
          let a =
            Evolves-trans size c n.2 d (fill_queue-Evolves size c)
              (ReadKept-Evolves size n.2 d (read_packets-ReadKept fuel k n.2 d m found)) in
          let b = Evolves-trans size c d (conn_shutdown d) a (conn_shutdown-Evolves size d) in
          elim (Bool-cases (n.0 || n.1)) [
            | inl ok ↦ let q : d ≡ r.1 = ground (arith, e, found, ok) in Evolves-eq size c d r.1 q a
            | inr bad ↦
                let q : conn_shutdown d ≡ r.1 = ground (arith, e, found, bad) in
                Evolves-eq size c (conn_shutdown d) r.1 q b
          ]
    ]

pub read_input-Evolves :
    (size k : ℕ) (c : Conn) (m : ℕ → Mallocs) → Evolves size c (read_input k c m).1
unfolding read_input
read_input-Evolves size k c m =
    let fuel : ℕ = suc (length (stream (fill_queue c).2)) in
    elim (Option-cases (in_read fuel k c m)) [
      | inl short ↦
          let q : c ≡ (read_input k c m).1 = ground (arith, short) in
          Evolves-eq size c c (read_input k c m).1 q (Evolves-refl size c)
      | inr (r, found) ↦
          let q : r.1 ≡ (read_input k c m).1 = ground (arith, found) in
          Evolves-eq size c r.1 (read_input k c m).1 q (in_read-Evolves size fuel k c m r found)
    ]
