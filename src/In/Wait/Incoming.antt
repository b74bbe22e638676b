-- ===== src/In/Wait/Incoming.antt =====
-- One packet that comes while a thread waits for the request that it answers.
use mathlib.Core.Path.{subst}
use androix_xcb_libxcb.Base.{
  ℕ, suc, ◌+◌, ◌-◌, ◌%◌, ◌^◌, ◌≤◌, ◌<◌, ◌≡◌, ◌≢◌, refl, sym, ap, ◌∙◌, Bool, true, false, List, [],
  ◌∷◌, ◌++◌, Option, none, some, length, take, drop, ltb, take-all, drop-all, append-nil,
  drop_while, arith, if◌then◌else◌, ◌&&◌, ◌==◌, length-append, lt→ltb, le→ltb,
}
use androix_xcb_libxcb.Conn.{Conn, In, Packet, PendingReply, set_input}
use androix_xcb_libxcb.Conn.Socket.{got, arriving}
use androix_xcb_libxcb.In.Block.{stream}
use androix_xcb_libxcb.In.Number.{covers, pending_now, genrep}
use androix_xcb_libxcb.In.Number.Laws.{
  completed_at, is_over, IsValid, Numbered, number_packet_lem, number_packet_rest,
}
use androix_xcb_libxcb.In.Poll.{has_current}
use androix_xcb_libxcb.In.Read.{
  Mallocs, packet_length, event_length, pending_for, read_packet, read_packets, fill_queue, in_read,
  in_queue_size,
}
use androix_xcb_libxcb.In.Read.Deliver.{destination, to_reply, is_reply_to, packet_of}
use androix_xcb_libxcb.In.Read.Laws.{
  Received, read_packet_lem, after_header, pend, len, eventlength,
}
use androix_xcb_libxcb.Sequence.{u64}
use androix_xcb_libxcb.Wait.{read_input}
use androix_xcb_libxcb.In.Wait.Filling.{filled, fill_queue-filled, read_packets-one, receive_number}

-- All calls of malloc succeed.
abbrev pub granted : Mallocs
granted = record { put = true; buf = true; entry = true }

-- The pending reply that a packet with the full number `s` belongs to: the first that is not over,
-- if it covers `s`.
abbrev pub expecting : In → ℕ → Option PendingReply
expecting i s = elim (drop_while (is_over (completed_at i s)) i.pending_replies.nodes) [
  | [] ↦ none
  | p ∷ _ ↦ if covers s p then some p else none
]

-- The next recv gives the bytes of just one packet, for the request with the full number `s`, into the
-- empty queue; and it is one that is kept for the caller.
pub record IsArriving (k : ℕ) (i : In) (s : ℕ) (bytes : List ℕ) : Type 0 where
  pub valid : IsValid i
  pub empty : i.queue ≡ []
  pub head : 32 ≤ length bytes
  pub room : length bytes ≤ in_queue_size
  pub numbered : (genrep bytes).response_type % 0x80 ≢ k
  pub sequence : (genrep bytes).sequence ≡ s % 0x10000
  pub from : i.request_read ≤ s
  pub to : s < i.request_read + 0x10000
  pub low : s < u64
  pub expected : i.request_expected < u64
  pub near : s < i.request_expected + 2 ^ 63
  pub behind : i.request_expected < s + 2 ^ 63
  pub whole : packet_length bytes (genrep bytes) (expecting i s) ≡ length bytes
  pub kept : destination (genrep bytes).response_type (expecting i s) ≡ to_reply

module _ (k s : ℕ) (c : Conn) (bytes : List ℕ) (a : IsArriving k c.input s bytes) where
  -- The input state once the header has been read, and the pending reply for the packet.
  abbrev headed : In
  headed = after_header k (filled c bytes) granted

  abbrev packet : Packet
  packet = packet_of (genrep bytes).response_type s bytes []

  pub filled-IsValid : IsValid (filled c bytes).input
  filled-IsValid = record {
    current = a.valid.current;
    stored = a.valid.stored;
    events = a.valid.events;
    pending = a.valid.pending;
  }

  packet-Numbered : Numbered (filled c bytes).input s (genrep bytes).response_type true headed
  packet-Numbered =
      number_packet_lem k (filled c bytes).input s (genrep bytes) true filled-IsValid a.numbered
        a.sequence a.from a.to a.low a.expected a.near a.behind

  pend_is : pend k (filled c bytes) granted ≡ expecting c.input s
  unfolding pending_for pending_now
  pend_is = ground (arith, packet-Numbered.read, packet-Numbered.pending, a.kept)

  whole_is : len k (filled c bytes) granted ≡ length bytes
  whole_is = ap (packet_length bytes (genrep bytes)) pend_is ∙ a.whole

  kept_is : destination (genrep bytes).response_type (pend k (filled c bytes) granted) ≡ to_reply
  kept_is = ap (destination (genrep bytes).response_type) pend_is ∙ a.kept

  no_extra : event_length (genrep bytes) ≡ 0
  unfolding event_length
  no_extra = ground (arith, a.kept)

  -- What read_packet leaves.
  packet_read :
      Received
        (set_input (filled c bytes) headed)
        (pend k (filled c bytes) granted)
        (genrep bytes).response_type
        (len k (filled c bytes) granted)
        (eventlength k (filled c bytes) granted)
        (read_packet k (filled c bytes) granted)
  packet_read =
      let b : length (stream (filled c bytes)) ≡ length bytes =
        omega (arith, ap length (append-nil bytes)) in
      read_packet_lem k (filled c bytes) granted filled-IsValid a.head refl refl
        (omega (arith, whole_is, a.head)) (omega (arith, whole_is, a.room, no_extra))
        (omega (arith, whole_is, b, no_extra))

  all_bytes : stream (set_input (filled c bytes) headed) ≡ bytes
  all_bytes =
      ap (λ l. l ++ []) (number_packet_rest k (filled c bytes).input (genrep bytes) true).0
      ∙ append-nil bytes

  packet_is : packet_read.packet ≡ packet
  packet_is =
      let st = stream (set_input (filled c bytes) headed) in
      let n = len k (filled c bytes) granted in
      let b : take n st ≡ bytes =
        ap (take n) all_bytes ∙ take-all n bytes (omega (arith, whole_is)) in
      let x : take (event_length (genrep bytes)) (drop n st) ≡ [] =
        ap (λ e. take e (drop n st)) no_extra in
      packet_read.contents
      ∙ (ap
            (λ q.
              packet_of (genrep bytes).response_type q (take n st)
                (take (event_length (genrep bytes)) (drop n st)))
            packet-Numbered.read
          ∙ (ap
                (λ l.
                  packet_of (genrep bytes).response_type s l
                    (take (event_length (genrep bytes)) (drop n st)))
                b
              ∙ ap (λ l. packet_of (genrep bytes).response_type s bytes l) x))

  -- The packet is the only one of the current reply.
  pub current_is :
      (c.input.request_read == s && has_current c.input) ≡ false
      → (read_packet k (filled c bytes) granted).1.input.current_reply.nodes ≡ packet ∷ []
  current_is fresh =
      let closed : headed.current_reply.nodes ≡ [] =
        ground (arith, packet-Numbered.current, fresh) in
      packet_read.current
      ∙ (ap
            (λ l.
              l
              ++ is_reply_to
                  (destination (genrep bytes).response_type (pend k (filled c bytes) granted))
                  packet_read.packet)
            closed
          ∙ (ap (λ d. is_reply_to d packet_read.packet) kept_is ∙ ap (λ x. x ∷ []) packet_is))

  short_after : length (read_packet k (filled c bytes) granted).1.input.queue < 32
  short_after =
      let d = (read_packet k (filled c bytes) granted).1 in
      let n : ℕ = len k (filled c bytes) granted + eventlength k (filled c bytes) granted in
      let st = stream (set_input (filled c bytes) headed) in
      let none_left : stream d ≡ [] =
        packet_read.rest ∙ drop-all n st (omega (arith, whole_is, no_extra, ap length all_bytes)) in
      omega (arith, ap length none_left, length-append d.input.queue (arriving d.socket))

  -- What _xcb_in_read leaves.
  pub read_input_lem :
      (m : ℕ → Mallocs)
      → ((n : ℕ) → m n ≡ granted)
      → c.socket ≡ got bytes ∷ []
      → read_input k c m ≡ (true, (read_packet k (filled c bytes) granted).1)
  unfolding read_input in_read
  read_input_lem m g come =
      let f = fill_queue-filled c bytes a.empty come a.head a.room in
      let fuel : ℕ = length bytes - 2 in
      let n : length (stream (filled c bytes)) ≡ suc (suc fuel) =
        omega (arith, ap length (append-nil bytes), a.head) in
      let one =
        read_packets-one (suc fuel) k (filled c bytes) m (rw (g (suc (suc fuel))) packet_read.go_on)
          (rw (g (suc (suc fuel))) short_after) in
      let r = (read_packet k (filled c bytes) granted).1 in
      let whole : read_packets (suc (length (stream (filled c bytes)))) k (filled c bytes) m
          ≡ some r =
        subst (λ x. read_packets (suc x) k (filled c bytes) m ≡ some r) (sym n)
          (one ∙ ap (λ x. some (read_packet k (filled c bytes) x).1) (g (suc (suc fuel)))) in
      let f2 = ap (λ (x : Bool × Bool × Conn). x.2) f in
      let f0 = ap (λ (x : Bool × Bool × Conn). x.0) f in
      let whole' : read_packets (suc (length (stream (fill_queue c).2))) k (fill_queue c).2 m
          ≡ some r =
        subst (λ (d : Conn). read_packets (suc (length (stream d))) k d m ≡ some r) (sym f2)
          whole in
      ground (arith, whole', f0)

  pub read_number_is : (read_packet k (filled c bytes) granted).1.input.request_read ≡ s
  unfolding read_packet
  read_number_is =
      let n =
        receive_number (set_input (filled c bytes) headed) (pend k (filled c bytes) granted)
          (genrep bytes).response_type (len k (filled c bytes) granted)
          (eventlength k (filled c bytes) granted) true in
      let small : ltb (len k (filled c bytes) granted + eventlength k (filled c bytes) granted)
            (2 ^ 31)
          ≡ true =
        lt→ltb (len k (filled c bytes) granted + eventlength k (filled c bytes) granted) (2 ^ 31)
          (omega (arith, whole_is, a.room, no_extra)) in
      rw (le→ltb (length bytes) 32 a.head, small) n ∙ packet-Numbered.read
