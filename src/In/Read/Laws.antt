-- ===== src/In/Read/Laws.antt =====
-- One packet: how many bytes it takes from the stream, and which list it ends up in.
use androix_xcb_libxcb.Base.{
  ℕ, ◌+◌, ◌^◌, ◌≤◌, ◌<◌, ◌≡◌, refl, ap, ◌∙◌, drop-drop, le→ltb, lt→ltb, Bool, true, ◌++◌, Option,
  length, arith, take, drop,
}
use androix_xcb_libxcb.Conn.{Conn, In, PendingReply, Packet, set_input}
use androix_xcb_libxcb.Conn.Socket.{arriving}
use androix_xcb_libxcb.In.Number.{GenericReply, genrep, number_packet}
use androix_xcb_libxcb.In.Number.Laws.{IsValid, number_packet-IsValid, number_packet_rest}
use androix_xcb_libxcb.In.Block.{stream, Kept}
use androix_xcb_libxcb.In.Read.{
  Mallocs, packet_length, event_length, read_blocks, receive, pending_for, read_packet,
}
use androix_xcb_libxcb.In.Read.Deliver.{
  deliver-Delivered, destination, is_event_to, is_reply_to, packet_of, read_blocks-stream,
}

-- The effect of reading and delivering one packet, from the state after its header.
pub record Received (c : Conn) (pend : Option PendingReply) (response_type len eventlength : ℕ)
    (r : Bool × Conn) : Type 0 where
  pub packet : Packet
  pub contents :
      packet
      ≡ packet_of response_type c.input.request_read
          (take len (stream c))
          (take eventlength (drop len (stream c)))
  pub go_on : r.0 ≡ true
  pub rest : stream r.1 ≡ drop (len + eventlength) (stream c)
  pub has_error : r.1.has_error ≡ c.has_error
  pub current :
      r.1.input.current_reply.nodes
      ≡ c.input.current_reply.nodes ++ is_reply_to (destination response_type pend) packet
  pub events :
      r.1.input.events.nodes
      ≡ c.input.events.nodes ++ is_event_to (destination response_type pend) packet
  pub pending : r.1.input.pending_replies ≡ c.input.pending_replies
  pub replies : r.1.input.replies ≡ c.input.replies
  pub readers : r.1.input.readers ≡ c.input.readers
  pub expected : r.1.input.request_expected ≡ c.input.request_expected
  pub read : r.1.input.request_read ≡ c.input.request_read
  pub completed : r.1.input.request_completed ≡ c.input.request_completed

pub Kept-IsValid : (c c' : Conn) → Kept c c' → IsValid c.input → IsValid c'.input
Kept-IsValid c c' k v = ground (arith, k.input)

receive-Received :
    (c : Conn) (pend : Option PendingReply) (response_type len eventlength : ℕ)
    → IsValid c.input
    → 0 < len
    → len + eventlength ≤ length (stream c)
    → Received c pend response_type len eventlength
        (receive c pend response_type len eventlength true)
unfolding receive
receive-Received c pend response_type len eventlength v pos le =
    let b = read_blocks-stream c len eventlength pos le in
    let c' = (read_blocks c len eventlength).1 in
    let bytes = take len (stream c) in
    let extra = take eventlength (drop len (stream c)) in
    let d = deliver-Delivered c' pend response_type bytes extra (Kept-IsValid c c' b.3 v) in
    rw (b.0, receive)
      (record {
        packet = packet_of response_type c.input.request_read bytes extra;
        contents = refl;
        go_on = d.0;
        rest = ground (arith, d.2, d.3.queue, b.1, drop-drop len eventlength (stream c));
        has_error = d.1 ∙ b.2;
        current = ground (arith, d.3.current, b.3.input);
        events = ground (arith, d.3.events, b.3.input);
        pending = ground (arith, d.3.pending, b.3.input);
        replies = ground (arith, d.3.replies, b.3.input);
        readers = ground (arith, d.3.readers, b.3.input);
        expected = ground (arith, d.3.expected, b.3.input);
        read = ground (arith, d.3.read, b.3.input);
        completed = ground (arith, d.3.completed, b.3.input);
      })

-- What read_packet works with: the header, the input state after the header, the pending reply, and
-- the two lengths.
module _ (k : ℕ) (c : Conn) (m : Mallocs) where
  abbrev pub header : GenericReply
  header = genrep c.input.queue

  abbrev pub after_header : In
  after_header = number_packet k c.input header m.put

  abbrev pub pend : Option PendingReply
  pend = pending_for after_header header

  abbrev pub len : ℕ
  len = packet_length c.input.queue header pend

  abbrev pub eventlength : ℕ
  eventlength = event_length header

pub read_packet_lem :
    (k : ℕ) (c : Conn) (m : Mallocs)
    → IsValid c.input
    → 32 ≤ length c.input.queue
    → m.buf ≡ true
    → m.entry ≡ true
    → 0 < len k c m
    → len k c m + eventlength k c m < 2 ^ 31
    → len k c m + eventlength k c m ≤ length (stream c)
    → Received
        (set_input c (after_header k c m))
        (pend k c m)
        (header k c m).response_type
        (len k c m)
        (eventlength k c m)
        (read_packet k c m)
unfolding read_packet
read_packet_lem k c m v q buf entry pos small enough =
    let n = len k c m in
    let e = eventlength k c m in
    let rest = number_packet_rest k c.input (header k c m) m.put in
    let same : stream (set_input c (after_header k c m)) ≡ stream c =
      ap (λ l. l ++ arriving c.socket) rest.0 in
    rw (le→ltb (length c.input.queue) 32 q, buf, lt→ltb (n + e) (2 ^ 31) small, entry)
      (receive-Received (set_input c (after_header k c m)) (pend k c m) (header k c m).response_type
        n e (number_packet-IsValid k c.input (header k c m) m.put v) pos (rw same enough))
