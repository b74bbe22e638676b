-- ===== src/Tests/Reading.antt =====
-- Sequence numbers, the socket, and packets.
use androix_xcb_libxcb.Base.{◌%◌, ◌^◌, ◌≡◌, refl, true, [], ◌∷◌, ◌≤◌, none, arith, drop}
use androix_xcb_libxcb.Sequence.{widen16}
use androix_xcb_libxcb.Sequence.Laws.{widen16_recovers}
use androix_xcb_libxcb.Conn.{Conn}
use androix_xcb_libxcb.Conn.Socket.{got}
use androix_xcb_libxcb.In.Number.{GenericReply, number_packet}
use androix_xcb_libxcb.In.Number.Laws.{IsValid, Numbered, number_packet_lem}
use androix_xcb_libxcb.In.Read.{read_packet, packet_length, event_length, buffer_size}
use androix_xcb_libxcb.In.Read.Size.{buffer_size-overrun}
use androix_xcb_libxcb.In.Read.Overrun.{read_packet-overran}
use androix_xcb_libxcb.Tests.Data.{start, quiet, replying, mallocs, error_bytes}

widen16_recovers_example : widen16 0x1ffff (0x20003 % 0x10000) ≡ 0x20003
widen16_recovers_example =
    widen16_recovers 0x1ffff 0x20003 (omega arith) (omega arith) (omega arith)

replying-IsValid : IsValid replying.input
replying-IsValid = record { current = refl; stored = refl; events = refl; pending = refl }

abbrev reply_header : GenericReply
reply_header = record { response_type = 1; sequence = 3; len = 1 }

number_packet_lem_example :
    Numbered replying.input 3 1 true (number_packet 11 replying.input reply_header true)
number_packet_lem_example =
    number_packet_lem 11 replying.input 3 reply_header true replying-IsValid (omega arith) refl
      (omega arith) (omega arith) (omega arith) (omega arith) (omega arith) (omega arith)

abbrev error_coming : Conn
error_coming = record start { socket = got error_bytes ∷ [] }

-- A generic event whose length field counts all but 4 bytes of 2 ^ 32.
abbrev huge_event : GenericReply
huge_event = record { response_type = 35; sequence = 1; len = 0x3fff_ffff }

buffer_size-overrun_example :
    (buffer_size huge_event 32 (event_length huge_event) ≤ 32) × (2 ^ 31 ≤ event_length huge_event)
unfolding packet_length
buffer_size-overrun_example = buffer_size-overrun [] huge_event none refl (omega arith)

-- The header of such an event.
abbrev huge_coming : Conn
huge_coming = record start {
  input = record quiet { queue = 35 ∷ 0 ∷ 1 ∷ 0 ∷ 0xff ∷ 0xff ∷ 0xff ∷ 0x3f ∷ drop 8 error_bytes };
}

read_packet-overran_example : (read_packet 11 huge_coming mallocs).1.overran ≡ true
read_packet-overran_example = read_packet-overran 11 huge_coming mallocs
