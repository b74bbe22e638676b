-- ===== src/In/Read/Overrun.antt =====
-- The packets with which read_packet leaves its buffer.
use androix_xcb_libxcb.Base.{
  ℕ, zero, suc, ◌-◌, ◌%◌, ◌^◌, ◌≡◌, ◌∙◌, Bool, true, false, Option, some, length, arith, inl, inr,
  Bool-cases, ◌==◌, ◌&&◌, ◌||◌, leb,
}
use androix_xcb_libxcb.Conn.{Conn, PendingReply}
use androix_xcb_libxcb.In.Block.{in_read_block}
use androix_xcb_libxcb.In.Number.{GenericReply, genrep, xcb_xge_event}
use androix_xcb_libxcb.In.Read.{Mallocs, deliver, read_blocks, receive, read_packet, read_packets}
use androix_xcb_libxcb.In.Read.Laws.{len, eventlength, pend, header, after_header}
use androix_xcb_libxcb.In.Read.Size.{overruns_lem}

in_read_block-overran : (c : Conn) (n : ℕ) → (in_read_block c n).1.overran ≡ c.overran
unfolding in_read_block
in_read_block-overran c n = ground arith

read_blocks-overran : (c : Conn) (n e : ℕ) → (read_blocks c n e).1.overran ≡ c.overran
unfolding read_blocks
read_blocks-overran c n e =
    ground (arith, in_read_block-overran c n, in_read_block-overran (in_read_block c n).1 e)

receive-overran :
    (c : Conn) (pend : Option PendingReply) (rt n e : ℕ) (m : Bool)
    → (receive c pend rt n e m).1.overran ≡ c.overran
unfolding receive deliver
receive-overran c pend rt n e m = ground (arith, read_blocks-overran c n e)

-- A generic event whose length field is, modulo 2 ^ 30, one of the nine largest numbers.
abbrev pub is_oversized : GenericReply → Bool
is_oversized rep = rep.response_type == xcb_xge_event && leb (2 ^ 30 - 9) (rep.len % 2 ^ 30)

-- read_packet leaves the mark of a buffer that is overrun just if the mark was there before, or a whole
-- header is in the queue, malloc gives the buffer, and the packet is a generic event whose length field
-- is, modulo 2 ^ 30, one of the nine largest numbers.
pub read_packet-overran :
    (k : ℕ) (c : Conn) (m : Mallocs)
    → (read_packet k c m).1.overran ≡ (
        c.overran
        || (leb 32 (length c.input.queue) && (m.buf && is_oversized (genrep c.input.queue))))
unfolding read_packet
read_packet-overran k c m = ground (
  arith,
  overruns_lem c.input.queue (header k c m) (pend k c m),
  receive-overran (record c { input = after_header k c m }) (pend k c m)
      (header k c m).response_type (len k c m) (eventlength k c m) m.entry,
)

-- No packet that the loop comes to is such an event.
abbrev pub IsSafe : ℕ → ℕ → Conn → (ℕ → Mallocs) → Type 0
IsSafe zero k c m = Unit
IsSafe (suc fuel) k c m =
    ((leb 32 (length c.input.queue) && is_oversized (genrep c.input.queue)) ≡ false)
    × ((read_packet k c (m fuel)).0 ≡ true → IsSafe fuel k (read_packet k c (m fuel)).1 m)

pub read_packets-overran :
    (fuel k : ℕ) (c c' : Conn) (m : ℕ → Mallocs)
    → IsSafe fuel k c m
    → read_packets fuel k c m ≡ some c'
    → c'.overran ≡ c.overran
unfolding read_packets
read_packets-overran zero k c c' m s e = absurd (ground (arith, e))
read_packets-overran (suc fuel) k c c' m s e =
    let r = read_packet k c (m fuel) in
    let kept : r.1.overran ≡ c.overran = ground (arith, s.0, read_packet-overran k c (m fuel)) in
    elim (Bool-cases r.0) [
      | inl more ↦ read_packets-overran fuel k r.1 c' m (s.1 more) (ground (arith, e, more)) ∙ kept
      | inr stop ↦ let q : r.1 ≡ c' = ground (arith, e, stop) in ground (arith, q, kept)
    ]
