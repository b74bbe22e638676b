-- ===== src/In/Read/Loop.antt =====
-- The loop over read_packet ends, and keeps the input state well-formed; so does _xcb_in_read.
use androix_xcb_libxcb.Base.{
  ℕ, zero, suc, ◌<◌, ◌≡◌, Bool, true, List, Option, none, some, length, arith, Bool-cases,
  Option-cases, inl, inr, ◌⊎◌, ◌==◌, [],
}
use androix_xcb_libxcb.Chain.{append}
use androix_xcb_libxcb.Conn.{Conn, PendingReply, set_input}
use androix_xcb_libxcb.In.Number.Laws.{IsValid, number_packet-IsValid, number_packet_rest}
use androix_xcb_libxcb.In.Block.{
  in_read_block, stream, Kept, in_read_block-Kept, in_read_block_cases,
}
use androix_xcb_libxcb.In.Read.{Mallocs, deliver, read_blocks, receive, read_packet, read_packets}
use androix_xcb_libxcb.In.Read.Deliver.{wake_reader_rest, deliver-IsValid, packet_of}
use androix_xcb_libxcb.In.Read.Laws.{Kept-IsValid, len, eventlength, after_header, pend, header}

pub read_blocks-Kept : (c : Conn) (n e : ℕ) → Kept c (read_blocks c n e).1
unfolding read_blocks
read_blocks-Kept c n e =
    ground (arith, in_read_block-Kept c n, in_read_block-Kept (in_read_block c n).1 e)

receive-IsValid :
    (c : Conn) (pend : Option PendingReply) (rt n e : ℕ) (m : Bool)
    → IsValid c.input
    → IsValid (receive c pend rt n e m).1.input
unfolding receive
receive-IsValid c pend rt n e m v =
    let v' = Kept-IsValid c (read_blocks c n e).1 (read_blocks-Kept c n e) v in
    elim (Option-cases (read_blocks c n e).0) [
      | inl lost ↦ rw (lost, receive) v'
      | inr (b, found) ↦
          rw (found, receive) (deliver-IsValid (read_blocks c n e).1 pend rt b.0 b.1 m v')
    ]

-- Reading a packet keeps every tail pointer of the input state at its last link, whatever comes over
-- the socket and whichever call of malloc fails; a run in which a generic event overruns its buffer ends
-- there.
pub read_packet-IsValid :
    (k : ℕ) (c : Conn) (m : Mallocs) → IsValid c.input → IsValid (read_packet k c m).1.input
unfolding read_packet
read_packet-IsValid k c m v =
    let v' = number_packet-IsValid k c.input (header k c m) m.put v in
    ground (
      arith,
      v',
      receive-IsValid (set_input c (after_header k c m)) (pend k c m) (header k c m).response_type
          (len k c m) (eventlength k c m) m.entry v',
    )

deliver-stream :
    (c : Conn) (pend : Option PendingReply) (rt : ℕ) (b x : List ℕ) (m : Bool)
    → stream (deliver c pend rt b x m).1 ≡ stream c
unfolding deliver
deliver-stream c pend rt b x m = ground (
  arith,
  wake_reader_rest (record c.input {
    current_reply = append c.input.current_reply (packet_of rt c.input.request_read b x);
  }),
)

read_blocks_cases :
    (c : Conn) (n e : ℕ)
    → ((read_blocks c n e).0 ≡ none)
      ⊎ ((b : List ℕ × List ℕ) × ((read_blocks c n e).0 ≡ some b)
          × (length (stream (read_blocks c n e).1) < length (stream c)))
unfolding read_blocks
read_blocks_cases c n e = elim (in_read_block_cases c n) [
  | inl lost ↦ inl (rw (lost, read_blocks))
  | inr (b, found, less) ↦ elim (Bool-cases (e == 0)) [
    | inl z ↦ inr ((b, []), rw (found, read_blocks, z), rw (found, read_blocks, z) less)
    | inr nz ↦ elim (in_read_block_cases (in_read_block c n).1 e) [
      | inl lost ↦ inl (rw (found, read_blocks, nz, lost))
      | inr (x, found', less') ↦ inr (
        (b, x),
        rw (found, read_blocks, nz, found'),
        rw (found, read_blocks, nz, found') (omega arith),
      )
    ]
  ]
]

receive-consumes :
    (c : Conn) (pend : Option PendingReply) (rt n e : ℕ) (m : Bool)
    → (receive c pend rt n e m).0 ≡ true
    → length (stream (receive c pend rt n e m).1) < length (stream c)
unfolding receive
receive-consumes c pend rt n e m h = elim (read_blocks_cases c n e) [
  | inl lost ↦ absurd (ground (arith, lost))
  | inr (b, found, less) ↦
      rw (found, receive, deliver-stream (read_blocks c n e).1 pend rt b.0 b.1 m) less
]

-- read_packet succeeds only if it takes at least one byte off the stream.
pub read_packet-consumes :
    (k : ℕ) (c : Conn) (m : Mallocs)
    → (read_packet k c m).0 ≡ true
    → length (stream (read_packet k c m).1) < length (stream c)
unfolding read_packet
read_packet-consumes k c m h = ground (
  arith,
  receive-consumes (set_input c (after_header k c m)) (pend k c m) (header k c m).response_type
      (len k c m) (eventlength k c m) m.entry,
  number_packet_rest k c.input (header k c m) m.put,
)

-- The loop `while(read_packet(c));` ends: with more fuel than bytes to come it gives a result.
pub read_packets_total :
    (fuel k : ℕ) (c : Conn) (m : ℕ → Mallocs)
    → length (stream c) < fuel
    → (c' : Conn) × (read_packets fuel k c m ≡ some c')
unfolding read_packets
read_packets_total zero k c m h = absurd (omega arith)
read_packets_total (suc fuel) k c m h = elim (Bool-cases (read_packet k c (m fuel)).0) [
  | inl more ↦ rw more (
      read_packets_total fuel k (read_packet k c (m fuel)).1 m
        (omega (arith, read_packet-consumes k c (m fuel) more)))
  | inr stop ↦ ((read_packet k c (m fuel)).1, rw stop)
]

pub read_packets-IsValid :
    (fuel k : ℕ) (c c' : Conn) (m : ℕ → Mallocs)
    → IsValid c.input
    → read_packets fuel k c m ≡ some c'
    → IsValid c'.input
unfolding read_packets
read_packets-IsValid zero k c c' m v e = cc
read_packets-IsValid (suc fuel) k c c' m v e = ground (
  arith,
  read_packet-IsValid k c (m fuel) v,
  read_packets-IsValid fuel k (read_packet k c (m fuel)).1 c' m,
)
