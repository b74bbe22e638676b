-- ===== src/In/Read/Deliver.antt =====
-- The blocks of a packet, and the list that takes it.
use androix_xcb_libxcb.Base.{
  ℕ, ◌+◌, ◌%◌, ◌≤◌, ◌<◌, ◌≡◌, append-nil, Bool, true, List, [], ◌∷◌, ◌++◌, Option, none, some,
  length, arith, ◌==◌, if◌then◌else◌, take, drop, length-drop,
}
use native.Mathlib.Decide.{ℕ_discrete}
use androix_xcb_libxcb.Sequence.{u32}
use androix_xcb_libxcb.Chain.{append}
use androix_xcb_libxcb.Chain.Laws.{append-nodes, append-IsLinked}
use androix_xcb_libxcb.Conn.{Conn, In, PendingReply, Packet}
use androix_xcb_libxcb.In.Number.{xcb_error, xcb_reply}
use androix_xcb_libxcb.In.Number.Laws.{IsValid}
use androix_xcb_libxcb.In.Block.{
  in_read_block, stream, Kept, in_read_block-Kept, in_read_block-stream,
}
use androix_xcb_libxcb.In.Read.{discards, checks, is_answer, wake_reader, deliver, read_blocks}

-- The bytes of a packet: `len` of them, then `eventlength` more.
pub read_blocks-stream :
    (c : Conn) (len eventlength : ℕ)
    → 0 < len
    → len + eventlength ≤ length (stream c)
    → let r = read_blocks c len eventlength in
      (r.0 ≡ some (take len (stream c), take eventlength (drop len (stream c))))
      × (stream r.1 ≡ drop eventlength (drop len (stream c)))
      × (r.1.has_error ≡ c.has_error)
      × Kept c r.1
unfolding read_blocks
read_blocks-stream c len eventlength h le =
    let a = in_read_block-stream c len h (omega arith) in
    let c' = (in_read_block c len).1 in
    let k = in_read_block-Kept c len in
    let b = in_read_block-stream c' eventlength in
    let k' = in_read_block-Kept c' eventlength in
    elim (ℕ_discrete eventlength 0) [
      | yes nothing ↦ ground (arith, nothing, a.0, a.1, a.2, k)
      | no more ↦ ground (
        arith,
        a.0,
        a.1,
        a.2,
        k,
        k',
        b (omega arith) (rw a.1 (omega (arith, length-drop len (stream c)))),
      )
    ]

pub wake_reader_rest :
    (i : In)
    → let j = wake_reader i in
      (j.current_reply ≡ i.current_reply)
      × (j.events ≡ i.events)
      × (j.replies ≡ i.replies)
      × (j.pending_replies ≡ i.pending_replies)
      × (j.queue ≡ i.queue)
      × (j.readers ≡ i.readers)
      × (j.request_expected ≡ i.request_expected)
      × (j.request_read ≡ i.request_read)
      × (j.request_completed ≡ i.request_completed)
unfolding wake_reader
wake_reader_rest i = ground arith

-- Where a packet belongs.
pub data Destination : Type 0 where
  nowhere to_reply to_events : Destination

-- Answers to a request whose reply is discarded are dropped; replies and checked errors go to the
-- current reply; events and unchecked errors go to the event queue.
abbrev pub destination : ℕ → Option PendingReply → Destination
destination response_type pend =
    if discards pend
    then nowhere
    else (if response_type == xcb_reply
        then to_reply
        else (if response_type == xcb_error
            then (if checks pend then to_reply else to_events)
            else to_events))

abbrev pub is_reply_to : Destination → Packet → List Packet
is_reply_to to_reply p = p ∷ []
is_reply_to _ p = []

abbrev pub is_event_to : Destination → Packet → List Packet
is_event_to to_events p = p ∷ []
is_event_to _ p = []

-- The packet with the bytes read, beside the full number of its request, unless it is a reply.
abbrev pub packet_of : ℕ → ℕ → List ℕ → List ℕ → Packet
packet_of response_type request_read bytes extra = record {
  bytes = bytes;
  full_sequence = if response_type == xcb_reply then none else some (request_read % u32);
  extra = extra;
}

pub record Delivered (i : In) (pend : Option PendingReply) (response_type : ℕ) (p : Packet)
    (i' : In) : Type 0 where
  pub current :
      i'.current_reply.nodes
      ≡ i.current_reply.nodes ++ is_reply_to (destination response_type pend) p
  pub events : i'.events.nodes ≡ i.events.nodes ++ is_event_to (destination response_type pend) p
  pub pending : i'.pending_replies ≡ i.pending_replies
  pub replies : i'.replies ≡ i.replies
  pub queue : i'.queue ≡ i.queue
  pub readers : i'.readers ≡ i.readers
  pub expected : i'.request_expected ≡ i.request_expected
  pub read : i'.request_read ≡ i.request_read
  pub completed : i'.request_completed ≡ i.request_completed

pub deliver-Delivered :
    (c : Conn) (pend : Option PendingReply) (response_type : ℕ) (bytes extra : List ℕ)
    → IsValid c.input
    → let r = deliver c pend response_type bytes extra true in
      (r.0 ≡ true)
      × (r.1.has_error ≡ c.has_error)
      × (r.1.socket ≡ c.socket)
      × Delivered c.input pend response_type
          (packet_of response_type c.input.request_read bytes extra)
          r.1.input
unfolding deliver is_answer
deliver-Delivered c pend response_type bytes extra v =
    let p = packet_of response_type c.input.request_read bytes extra in
    let w = wake_reader_rest (record c.input { current_reply = append c.input.current_reply p }) in
    ground (
      arith,
      w,
      append-nodes c.input.current_reply p v.current,
      append-nodes c.input.events p v.events,
      append-nil c.input.current_reply.nodes,
      append-nil c.input.events.nodes,
    )

pub deliver-IsValid :
    (c : Conn) (pend : Option PendingReply) (response_type : ℕ) (bytes extra : List ℕ) (m : Bool)
    → IsValid c.input
    → IsValid (deliver c pend response_type bytes extra m).1.input
unfolding deliver
deliver-IsValid c pend response_type bytes extra m v =
    let p = packet_of response_type c.input.request_read bytes extra in
    let w = wake_reader_rest (record c.input { current_reply = append c.input.current_reply p }) in
    ground (
      arith,
      w,
      append-IsLinked c.input.current_reply p v.current,
      append-IsLinked c.input.events p v.events,
    )
