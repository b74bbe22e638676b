-- ===== src/Tests/Life.antt =====
-- A connection from its beginning through some calls.
use mathlib.Core.Path.{subst}
use androix_xcb_libxcb.Base.{
  ℕ, zero, suc, ◌≡◌, refl, true, false, [], ◌∷◌, none, some, arith, get_elem?, ◌||◌,
}
use androix_xcb_libxcb.Conn.{Conn, event, writers}
use androix_xcb_libxcb.Conn.Socket.{got}
use androix_xcb_libxcb.Connect.{Means, connect_to_fd, established, set_up, exchange, out_init}
use androix_xcb_libxcb.Connect.Greeting.{SetupFormat, write_setup, read_setup}
use androix_xcb_libxcb.In.Block.{in_read_block}
use androix_xcb_libxcb.Conn.Socket.{read_block}
use androix_xcb_libxcb.In.Expect.{expect_reply, in_init, wake_up_next_reader}
use androix_xcb_libxcb.Map.{map_new}
use androix_xcb_libxcb.Out.Send.{wait_writing, out_send, send_loop, finish_send}
use androix_xcb_libxcb.Out.Vector.{write_block, copy_parts, write_vec, advance}
use androix_xcb_libxcb.Wait.{conn_wait, polled, write_ready}
use androix_xcb_libxcb.Xid.{xid_init}
use androix_xcb_libxcb.In.Discard.{xcb_discard_reply}
use androix_xcb_libxcb.Life.Calls.{Reach, stays, follows, piece, discards, sends_request}
use androix_xcb_libxcb.Life.Calls.Laws.{connect_to_fd-Reach, Reach-Extends}
use androix_xcb_libxcb.Life.Evolves.{IsSound, Extends}
use androix_xcb_libxcb.Life.Pieces.{starts_poll}
use androix_xcb_libxcb.Out.Length.{bytes, prepare, length_fields, add_prefix, workaround_of}
use androix_xcb_libxcb.Out.Number.{number_request, sync_loop, needs_sync, expect}
use androix_xcb_libxcb.Out.Request.{
  send_request, fill_header, claim_socket, get_socket_back, wait_moving, transmit, write_all,
}
use androix_xcb_libxcb.Out.Vector.{wrote}
use androix_xcb_libxcb.Tests.Connecting.{granted}
use androix_xcb_libxcb.Tests.Data.{start, quiet, no_flags}
use androix_xcb_libxcb.Tests.Waiting.{two_bytes, small_server, core_request, results}
use androix_xcb_libxcb.Wait.{Turn, count_up}

-- The socket takes all, and no other thread does anything.
abbrev roomy : Turn
roomy = record two_bytes { written = wrote 99 }

idle_rounds :
    (i : ℕ) (t : Turn) → get_elem? (roomy ∷ []) i ≡ some t → (d : Conn) → Reach 4 11 d (t.others d)
idle_rounds zero t e d =
    let q : roomy ≡ t = ground (arith, e) in
    subst (λ (u : Turn). Reach 4 11 d (u.others d)) q (stays d)
idle_rounds (suc i) t e d = absurd (ground (arith, e))

no_rounds :
    (i : ℕ) (t : Turn) → get_elem? {A = Turn} [] i ≡ some t → (d : Conn) → Reach 4 11 d (t.others d)
no_rounds i t e d = absurd (ground (arith, e))

-- A setup of 12 bytes, and a byte of what follows.
abbrev short_format : SetupFormat
short_format = record {
  layout = λ r. r.byte_order ∷ [];
  fields =
      λ b. record { maximum_request_length = 16; resource_id_base = 64; resource_id_mask = 15 };
}

abbrev means : Means
means = record granted {
  socket = got (1 ∷ 0 ∷ 11 ∷ 0 ∷ 0 ∷ 0 ∷ 1 ∷ 0 ∷ 5 ∷ 5 ∷ 5 ∷ 5 ∷ 9 ∷ []) ∷ [];
  turns = roomy ∷ [];
}

-- The connection that is returned.
abbrev connected : Conn
connected = record start {
  setup = short_format.fields [];
  sent = 0x6c ∷ [];
  socket = got (9 ∷ []) ∷ [];
  input = record quiet { wakes = event ∷ writers ∷ [] };
  xid = record { last = 0; max = 0; base = 64; inc = 1 };
}

connects : connect_to_fd short_format 11 3 none means ≡ some (some connected, [])
unfolding connect_to_fd established set_up exchange in_init map_new out_init write_setup out_send
    send_loop conn_wait polled write_ready write_vec advance finish_send wake_up_next_reader
    read_setup in_read_block read_block xid_init
connects = refl

-- A request is queued.
abbrev requested : Conn
requested = record connected {
  input = record connected.input { request_expected = 1 };
  output = record connected.output { request = 1; queue = 43 ∷ 0 ∷ 1 ∷ 0 ∷ [] };
}

requests :
    send_request 4 11 small_server [] connected no_flags
      (bytes (0 ∷ 0 ∷ 0 ∷ 0 ∷ []) ∷ [])
      core_request
      results
    ≡ some (1, requested, [])
unfolding send_request fill_header prepare length_fields claim_socket wait_writing get_socket_back
    wait_moving transmit number_request sync_loop needs_sync write_all write_block copy_parts
    add_prefix expect workaround_of expect_reply
requests = refl

-- The request is sent, a thread begins to poll, and the reply is discarded meanwhile.
abbrev polling : Conn
polling = count_up requested false

used : Reach 4 11 connected (xcb_discard_reply polling 1 true)
used =
    follows
      (sends_request connected requested small_server [] [] no_flags
        (bytes (0 ∷ 0 ∷ 0 ∷ 0 ∷ []) ∷ []) core_request results 1 (λ d. stays d) (λ d. stays d)
        (λ d n. stays d) (λ ext d e. absurd (ground (arith, e))) no_rounds requests)
      (follows (piece (starts_poll requested false)) (discards polling 1 true))

connect_to_fd-Reach_example : IsSound 4 (xcb_discard_reply polling 1 true)
connect_to_fd-Reach_example =
    connect_to_fd-Reach 4 11 3 short_format none means connected (xcb_discard_reply polling 1 true)
      [] idle_rounds (ground arith) connects used

Reach-Extends_example :
    ((connected.has_error || (xcb_discard_reply polling 1 true).has_error)
      ≡ (xcb_discard_reply polling 1 true).has_error)
    × ((xcb_discard_reply polling 1 true).setup ≡ connected.setup)
    × Extends connected.sent (xcb_discard_reply polling 1 true).sent
Reach-Extends_example = Reach-Extends 4 11 connected (xcb_discard_reply polling 1 true) used
