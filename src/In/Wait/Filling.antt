-- ===== src/In/Wait/Filling.antt =====
-- One recv that fills the queue, and the packet in it.

use androix_xcb_libxcb.Base.{
  ℕ, suc, ◌-◌, ◌≤◌, ◌<◌, ◌≡◌, refl, ap, ◌∙◌, inl, inr, Bool, true, false, List, [], ◌∷◌, Option,
  some, length, take, drop, ltb, take-all, drop-all, arith, Option-cases,
}
use androix_xcb_libxcb.Chain.{append}
use androix_xcb_libxcb.Conn.{Conn, In, PendingReply}
use androix_xcb_libxcb.Conn.Socket.{got}
use androix_xcb_libxcb.In.Block.{in_read_block, in_read_block-Kept}
use androix_xcb_libxcb.In.Read.{
  wake_reader, deliver, read_blocks, receive, Mallocs, read_packet, read_packets, fill_queue,
  in_queue_size,
}
use androix_xcb_libxcb.In.Read.Deliver.{packet_of}

-- The connection once the bytes are in the queue.
abbrev pub filled : Conn → List ℕ → Conn
filled c bytes = record c { input = record c.input { queue = bytes }; socket = [] }

pub fill_queue-filled :
    (c : Conn) (bytes : List ℕ)
    → c.input.queue ≡ []
    → c.socket ≡ got bytes ∷ []
    → 32 ≤ length bytes
    → length bytes ≤ in_queue_size
    → fill_queue c ≡ (true, false, filled c bytes)
unfolding fill_queue
fill_queue-filled c bytes e s h r =
    let t : take (in_queue_size - length c.input.queue) bytes ≡ bytes =
      take-all (in_queue_size - length c.input.queue) bytes (omega (arith, ap length e, r)) in
    let d : drop (in_queue_size - length c.input.queue) bytes ≡ [] =
      drop-all (in_queue_size - length c.input.queue) bytes (omega (arith, ap length e, r)) in
    let l : ltb 0 (length bytes) ≡ true = ground (arith, h) in rw (s, fill_queue, t, d, l, e) refl

read_packet-short :
    (k : ℕ) (c : Conn) (m : Mallocs) → length c.input.queue < 32 → read_packet k c m ≡ (false, c)
unfolding read_packet
read_packet-short k c m short = ground (arith, short)

pub read_packets-one :
    (fuel k : ℕ) (c : Conn) (m : ℕ → Mallocs)
    → (read_packet k c (m (suc fuel))).0 ≡ true
    → length (read_packet k c (m (suc fuel))).1.input.queue < 32
    → read_packets (suc (suc fuel)) k c m ≡ some (read_packet k c (m (suc fuel))).1
unfolding read_packets
read_packets-one fuel k c m ok short =
    let r = (read_packet k c (m (suc fuel))).1 in rw (ok, read_packet-short k r (m fuel) short) refl

wake_reader_number : (i : In) → (wake_reader i).request_read ≡ i.request_read
unfolding wake_reader
wake_reader_number i = ground arith

deliver_number :
    (c : Conn) (p : Option PendingReply) (rt : ℕ) (bytes extra : List ℕ) (m : Bool)
    → (deliver c p rt bytes extra m).1.input.request_read ≡ c.input.request_read
unfolding deliver
deliver_number c p rt bytes extra m =
    let w = wake_reader_number (record c.input {
      current_reply = append c.input.current_reply (packet_of rt c.input.request_read bytes extra);
    }) in
    ground (arith, w)

pub receive_number :
    (c : Conn) (p : Option PendingReply) (rt n e : ℕ) (m : Bool)
    → (receive c p rt n e m).1.input.request_read ≡ c.input.request_read
unfolding receive read_blocks
receive_number c p rt n e m =
    let b = in_read_block c n in
    let d = read_blocks c n e in
    let x = ap (λ (i : In). i.request_read) (in_read_block-Kept c n).input in
    let y = ap (λ (i : In). i.request_read) (in_read_block-Kept b.1 e).input in
    let z : d.1.input.request_read ≡ c.input.request_read = ground (arith, x, y) in
    elim (Option-cases d.0) [
      | inl lost ↦ rw (lost, receive) z
      | inr (l, found) ↦ rw (found, receive) (deliver_number d.1 p rt l.0 l.1 m ∙ z)
    ]
