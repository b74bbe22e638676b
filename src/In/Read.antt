-- ===== src/In/Read.antt =====
-- read_packet, from the header to the queue that takes the packet, and _xcb_in_read.
pub mod Laws
pub mod Deliver
pub mod Loop
pub mod Size
pub mod Overrun
use androix_xcb_libxcb.Base.{
  ℕ, zero, suc, ◌+◌, ◌-◌, ◌*◌, ◌%◌, ◌^◌, Bool, true, false, List, [], ◌∷◌, ◌++◌, Option, none, some,
  take, drop, length, leb, ltb, ◌==◌, if◌then◌else◌, ◌&&◌, ◌||◌, not,
}
use androix_xcb_libxcb.Sequence.{u64, u32, seq_le32, seq_eq32}
use androix_xcb_libxcb.Chain.{append}
use androix_xcb_libxcb.Conn.{
  Conn, In, Packet, PendingReply, Workaround, glx_get_fb_configs_bug, Reader, Wake, reader, event,
  conn_shutdown, set_input, signal,
}
use androix_xcb_libxcb.Conn.Socket.{Recv, got, would_block, failed}
use androix_xcb_libxcb.In.Number.{
  GenericReply, genrep, card32, xcb_error, xcb_reply, xcb_xge_event, number_packet, pending_now,
}
use androix_xcb_libxcb.In.Block.{in_read_block}

-- Which of the calls of malloc in one run of read_packet succeed: the node of _xcb_map_put, the
-- packet's buffer, and the entry of the list that takes the packet.
pub record Mallocs : Type 0 where
  pub put : Bool
  pub buf : Bool
  pub entry : Bool

abbrev pub is_glx : Option PendingReply → Bool
is_glx none = false
is_glx (some p) = elim p.workaround [ glx_get_fb_configs_bug ↦ true | _ ↦ false ]

abbrev pub discards : Option PendingReply → Bool
discards none = false
discards (some p) = p.flags.discard_reply

abbrev pub checks : Option PendingReply → Bool
checks none = false
checks (some p) = p.flags.checked

-- Lines 145 to 154: `length`, as the 32 bits of an int.
unfoldable pub packet_length : List ℕ → GenericReply → Option PendingReply → ℕ
packet_length queue rep pend =
    let units : ℕ = if is_glx pend then card32 queue 8 * card32 queue 12 * 2 % u32 else rep.len in
    if rep.response_type == xcb_reply then (32 + units * 4) % u32 else 32

-- Lines 157 and 158.
unfoldable pub event_length : GenericReply → ℕ
event_length rep = if rep.response_type == xcb_xge_event then rep.len * 4 % u32 else 0

-- Lines 160 and 161: the argument of malloc. The two ints are added as ints, and the sum is widened
-- with its sign.
unfoldable pub buffer_size : GenericReply → ℕ → ℕ → ℕ
buffer_size rep len eventlength =
    let sum : ℕ = (len + eventlength) % u32 in
    let wide : ℕ = if ltb sum (2 ^ 31) then sum else sum + (u64 - u32) in
    (wide + (if rep.response_type == xcb_reply then 0 else 4)) % u64

-- Lines 209 to 219: the condition of the reader that is signalled.
unfoldable pub find_reader : List Reader → ℕ → Option ℕ
find_reader [] request_read = none
find_reader (r ∷ readers) request_read =
    let rest = find_reader readers request_read in
    if seq_le32 r.request request_read
    then (if seq_eq32 r.request request_read then some r.cond else rest)
    else none

unfoldable pub wake_reader : In → In
unfolding find_reader
wake_reader i = elim (find_reader i.readers i.request_read) [
  | none ↦ i
  | some cond ↦ signal i (reader cond)
]

-- Lines 184 to 236: the packet is dropped, or goes to the current reply, or to the events.
unfoldable pub is_answer : ℕ → Option PendingReply → Bool
is_answer response_type pend =
    response_type == xcb_reply || (response_type == xcb_error && checks pend)

unfoldable pub deliver : Conn → Option PendingReply → ℕ → List ℕ → List ℕ → Bool → Bool × Conn
deliver c pend response_type bytes extra allocated =
    let i = c.input in
    let packet : Packet = record {
      bytes = bytes;
      full_sequence = if response_type == xcb_reply then none else some (i.request_read % u32);
      extra = extra;
    } in
    let reply = wake_reader (record i { current_reply = append i.current_reply packet }) in
    let queued = signal (record i { events = append i.events packet }) event in
    if discards pend
    then (true, c)
    else (if allocated
        then (true, set_input c (if is_answer response_type pend then reply else queued))
        else (false, conn_shutdown c))

-- Lines 168 to 182: the two blocks of a packet. An event length of 0 reads no second block.
unfoldable pub read_blocks : Conn → ℕ → ℕ → Option (List ℕ × List ℕ) × Conn
read_blocks c len eventlength =
    let first = in_read_block c len in
    let second = in_read_block first.1 eventlength in
    elim first.0 [
      | none ↦ (none, first.1)
      | some bytes ↦ if eventlength == 0 then (some (bytes, []), first.1) else elim second.0 [
        | none ↦ (none, second.1)
        | some extra ↦ (some (bytes, extra), second.1)
      ]
    ]

-- Lines 168 to 236.
unfoldable pub receive : Conn → Option PendingReply → ℕ → ℕ → ℕ → Bool → Bool × Conn
receive c pend response_type len eventlength allocated =
    let blocks = read_blocks c len eventlength in
    elim blocks.0 [
      | none ↦ (false, blocks.1)
      | some (bytes, extra) ↦ deliver blocks.1 pend response_type bytes extra allocated
    ]

-- Lines 135 to 143.
unfoldable pub pending_for : In → GenericReply → Option PendingReply
unfolding pending_now
pending_for i rep =
    if rep.response_type == xcb_error || rep.response_type == xcb_reply then pending_now i else none

-- A packet whose buffer is smaller than what is read into it: the lengths, added as ints, go past
-- 2 ^ 31, and the size asked for is still one that malloc can give. The C function writes behind the
-- buffer then, and hands a negative length to memcpy.
abbrev pub overruns : GenericReply → ℕ → ℕ → Bool
overruns rep len eventlength =
    not (ltb (len + eventlength) (2 ^ 31)) && ltb (buffer_size rep len eventlength) (2 ^ 63)

-- read_packet. malloc gives no block of 2 ^ 63 bytes or more, whatever `m.buf` says. The run ends with
-- its mark where the buffer is overrun.
unfoldable pub read_packet : ℕ → Conn → Mallocs → Bool × Conn
unfolding buffer_size
read_packet keymap_notify c m =
    let rep = genrep c.input.queue in
    let i = number_packet keymap_notify c.input rep m.put in
    let pend = pending_for i rep in
    let len : ℕ = packet_length c.input.queue rep pend in
    let eventlength : ℕ = event_length rep in
    let c' = set_input c i in
    let received = receive c' pend rep.response_type len eventlength m.entry in
    if ltb (length c.input.queue) 32
    then (false, c)
    else (if m.buf && ltb (len + eventlength) (2 ^ 31)
        then received
        else (if m.buf && overruns rep len eventlength
            then (false, record (conn_shutdown c') { overran = true })
            else (false, conn_shutdown c')))

-- `while(read_packet(c));` with fuel, and the results of malloc in each round.
unfoldable pub read_packets : ℕ → ℕ → Conn → (ℕ → Mallocs) → Option Conn
read_packets zero keymap_notify c m = none
read_packets (suc fuel) keymap_notify c m =
    let r = read_packet keymap_notify c (m fuel) in
    let rest = read_packets fuel keymap_notify r.1 m in if r.0 then rest else some r.1

abbrev pub in_queue_size : ℕ
in_queue_size = 4096

-- One recv into the rest of the queue: whether it gave bytes, whether it failed with EAGAIN.
unfoldable pub fill_queue : Conn → Bool × Bool × Conn
fill_queue c = elim c.socket [
  | [] ↦ (false, false, c)
  | got bs ∷ s ↦
      let room : ℕ = in_queue_size - length c.input.queue in
      let n = take room bs in
      let left = drop room bs in
      let c' = record (set_input c (record c.input { queue = c.input.queue ++ n })) {
        socket = elim left [ [] ↦ s | b ∷ r ↦ got (b ∷ r) ∷ s ];
      } in
      (ltb 0 (length n), false, c')
  | would_block _ ∷ s ↦ (false, true, record c { socket = s })
  | failed ∷ s ↦ (false, false, record c { socket = s })
]

-- _xcb_in_read
unfoldable pub in_read : ℕ → ℕ → Conn → (ℕ → Mallocs) → Option (Bool × Conn)
in_read fuel keymap_notify c m =
    let n = fill_queue c in
    elim (read_packets fuel keymap_notify n.2 m) [
      | none ↦ none
      | some c' ↦ if n.0 || n.1 then some (true, c') else some (false, conn_shutdown c')
    ]
