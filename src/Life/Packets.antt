-- ===== src/Life/Packets.antt =====
-- Reading packets.
use androix_xcb_libxcb.Base.{
  ℕ, zero, suc, ◌-◌, ◌≡◌, refl, ap, ◌∙◌, inl, inr, Bool, List, Option, some, length, min,
  length-drop, arith, Bool-cases, Option-cases,
}
use mathlib.Core.Path.{subst}
use androix_xcb_libxcb.Chain.{append}
use androix_xcb_libxcb.Conn.{Conn, PendingReply, conn_shutdown, set_input}
use androix_xcb_libxcb.In.Block.{in_read_block, in_read_block-Kept}
use androix_xcb_libxcb.In.Number.Laws.{number_packet-IsValid, number_packet_rest}
use androix_xcb_libxcb.In.Read.{Mallocs, deliver, read_blocks, receive, read_packet, read_packets}
use androix_xcb_libxcb.In.Read.Deliver.{wake_reader_rest, deliver-IsValid, packet_of}
use androix_xcb_libxcb.In.Read.Laws.{Kept-IsValid, len, eventlength, after_header, pend, header}
use androix_xcb_libxcb.Life.Octets.{
  All-drop, read_block-IsBytes, number_packet-IsBounded, header-lt, deliver-IsBounded,
}
use androix_xcb_libxcb.Life.Evolves.{Evolves, ReadKept, ReadKept-Evolves}

ReadKept-trans : (a b c : Conn) → ReadKept a b → ReadKept b c → ReadKept a c
ReadKept-trans a b c f g = record {
  input = record {
    valid = λ v. g.input.valid (f.input.valid v);
    bounded = λ b. g.input.bounded (f.input.bounded b);
    queue = omega (arith, f.input.queue, g.input.queue);
  };
  output = g.output ∙ f.output;
  socket = λ h. g.socket (f.socket h);
  sent = g.sent ∙ f.sent;
  setup = g.setup ∙ f.setup;
  shut = λ e. g.shut (f.shut e);
}

in_read_block-ReadKept : (c : Conn) (n : ℕ) → ReadKept c (in_read_block c n).1
unfolding in_read_block
in_read_block-ReadKept c n =
    let k = in_read_block-Kept c n in
    record {
      input = record {
        valid = Kept-IsValid c (in_read_block c n).1 k;
        bounded = λ b. ground (arith, b, All-drop (min n (length c.input.queue)) c.input.queue b.0);
        queue = ground (arith, length-drop (min n (length c.input.queue)) c.input.queue);
      };
      output = k.output;
      socket =
          λ h. ground (arith, h, read_block-IsBytes c.socket (n - min n (length c.input.queue)) h);
      sent = k.sent;
      setup = ground arith;
      shut = λ e. ground (arith, e);
    }

pub in_read_block-Evolves : (size : ℕ) (c : Conn) (n : ℕ) → Evolves size c (in_read_block c n).1
in_read_block-Evolves size c n =
    ReadKept-Evolves size c (in_read_block c n).1 (in_read_block-ReadKept c n)

ReadKept-refl : (c : Conn) → ReadKept c c
ReadKept-refl c = record {
  input = record { valid = λ v. v; bounded = λ b. b; queue = omega arith };
  output = refl;
  socket = λ h. h;
  sent = refl;
  setup = refl;
  shut = λ e. e;
}

read_blocks-ReadKept : (c : Conn) (n e : ℕ) → ReadKept c (read_blocks c n e).1
unfolding read_blocks
read_blocks-ReadKept c n e =
    let a = in_read_block-ReadKept c n in
    let b = in_read_block-ReadKept (in_read_block c n).1 e in
    let both =
      ReadKept-trans c (in_read_block c n).1 (in_read_block (in_read_block c n).1 e).1 a b in
    ground (arith, a, both)

deliver-ReadKept :
    (c : Conn) (p : Option PendingReply) (rt : ℕ) (bytes extra : List ℕ) (m : Bool)
    → ReadKept c (deliver c p rt bytes extra m).1
unfolding deliver
deliver-ReadKept c p rt bytes extra m =
    let w = wake_reader_rest (record c.input {
      current_reply = append c.input.current_reply (packet_of rt c.input.request_read bytes extra);
    }) in
    record {
      input = record {
        valid = deliver-IsValid c p rt bytes extra m;
        bounded = deliver-IsBounded c p rt bytes extra m;
        queue = ground (arith, w);
      };
      output = ground arith;
      socket = λ h. ground (arith, h);
      sent = ground arith;
      setup = ground arith;
      shut = λ e. ground (arith, e);
    }

receive-ReadKept :
    (c : Conn) (p : Option PendingReply) (rt n e : ℕ) (m : Bool)
    → ReadKept c (receive c p rt n e m).1
unfolding receive
receive-ReadKept c p rt n e m =
    let blocks = read_blocks c n e in
    let a = read_blocks-ReadKept c n e in
    elim (Option-cases blocks.0) [
      | inl lost ↦ rw (lost, receive) a
      | inr (b, found) ↦
          rw (found, receive)
            (ReadKept-trans c blocks.1 (deliver blocks.1 p rt b.0 b.1 m).1 a
              (deliver-ReadKept blocks.1 p rt b.0 b.1 m))
    ]

numbered-ReadKept : (k : ℕ) (c : Conn) (m : Mallocs) → ReadKept c (set_input c (after_header k c m))
numbered-ReadKept k c m = record {
  input = record {
    valid = number_packet-IsValid k c.input (header k c m) m.put;
    bounded =
        λ b. number_packet-IsBounded k c.input (header k c m) m.put (header-lt c.input.queue b.0) b;
    queue = omega (arith, ap length (number_packet_rest k c.input (header k c m) m.put).0);
  };
  output = refl;
  socket = λ h. h;
  sent = refl;
  setup = refl;
  shut = λ e. e;
}

shutdown-ReadKept : (c c' : Conn) → ReadKept c c' → ReadKept c (conn_shutdown c')
shutdown-ReadKept c c' k = record {
  input = k.input;
  output = k.output;
  socket = k.socket;
  sent = k.sent;
  setup = k.setup;
  shut = λ e. refl;
}

read_packet-ReadKept : (k : ℕ) (c : Conn) (m : Mallocs) → ReadKept c (read_packet k c m).1
unfolding read_packet
read_packet-ReadKept k c m =
    let c' = set_input c (after_header k c m) in
    let a = numbered-ReadKept k c m in
    let r =
      receive c' (pend k c m) (header k c m).response_type (len k c m) (eventlength k c m)
        m.entry in
    let b =
      receive-ReadKept c' (pend k c m) (header k c m).response_type (len k c m) (eventlength k c m)
        m.entry in
    ground (arith, ReadKept-refl c, ReadKept-trans c c' r.1 a b, shutdown-ReadKept c c' a)

pub read_packets-ReadKept :
    (fuel k : ℕ) (c c' : Conn) (m : ℕ → Mallocs) → read_packets fuel k c m ≡ some c' → ReadKept c c'
unfolding read_packets
read_packets-ReadKept zero k c c' m e = absurd (ground (arith, e))
read_packets-ReadKept (suc fuel) k c c' m e =
    let r = read_packet k c (m fuel) in
    let a = read_packet-ReadKept k c (m fuel) in
    elim (Bool-cases r.0) [
      | inl more ↦
          ReadKept-trans c r.1 c' a
            (read_packets-ReadKept fuel k r.1 c' m (ground (arith, e, more)))
      | inr stop ↦ let q : r.1 ≡ c' = ground (arith, e, stop) in subst (ReadKept c) q a
    ]
