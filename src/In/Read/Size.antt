-- ===== src/In/Read/Size.antt =====
-- The size of the buffer that read_packet asks for.
use androix_xcb_libxcb.Base.{
  ℕ, ◌+◌, ◌-◌, ◌%◌, ◌^◌, ◌≤◌, ◌≡◌, ◌⊎◌, List, Option, arith, ◌==◌, ◌&&◌, leb, if◌then◌else◌,
}
use androix_xcb_libxcb.Conn.{PendingReply}
use androix_xcb_libxcb.In.Number.{GenericReply, xcb_reply, xcb_xge_event}
use androix_xcb_libxcb.In.Read.{packet_length, event_length, buffer_size, overruns}

-- The bytes that a packet takes in its buffer: both its blocks, and the full sequence number between
-- them, which a reply does not have.
abbrev pub needed : GenericReply → ℕ → ℕ → ℕ
needed rep len eventlength = len + eventlength + (if rep.response_type == xcb_reply then 0 else 4)

-- The size asked for is what the packet needs, or is 2 ^ 63 or more; or the packet is a generic event
-- whose length field is, modulo 2 ^ 30, one of the nine largest numbers.
pub buffer_size_cases :
    (queue : List ℕ) (rep : GenericReply) (pend : Option PendingReply)
    → let len = packet_length queue rep pend in
      let eventlength = event_length rep in
      (buffer_size rep len eventlength ≡ needed rep len eventlength)
      ⊎ ((2 ^ 63 ≤ buffer_size rep len eventlength)
          ⊎ ((rep.response_type ≡ xcb_xge_event) × (2 ^ 30 - 9 ≤ rep.len % 2 ^ 30)))
unfolding buffer_size packet_length event_length
buffer_size_cases queue rep pend = ground arith

-- The packets for which read_packet leaves its buffer are the generic events whose length field is,
-- modulo 2 ^ 30, one of the nine largest numbers, and no others.
pub overruns_lem :
    (queue : List ℕ) (rep : GenericReply) (pend : Option PendingReply)
    → overruns rep (packet_length queue rep pend) (event_length rep)
      ≡ (rep.response_type == xcb_xge_event && leb (2 ^ 30 - 9) (rep.len % 2 ^ 30))
unfolding buffer_size packet_length event_length
overruns_lem queue rep pend = ground arith

-- A generic event whose length field is, modulo 2 ^ 30, one of the nine largest numbers gets a buffer
-- of at most 32 bytes, though its first block and the number after it take 36; and the length of its
-- second block is negative as an int.
pub buffer_size-overrun :
    (queue : List ℕ) (rep : GenericReply) (pend : Option PendingReply)
    → rep.response_type ≡ xcb_xge_event
    → 2 ^ 30 - 9 ≤ rep.len % 2 ^ 30
    → (buffer_size rep (packet_length queue rep pend) (event_length rep) ≤ 32)
      × (2 ^ 31 ≤ event_length rep)
unfolding buffer_size packet_length event_length
buffer_size-overrun queue rep pend xge large = ground (arith, xge, large)
