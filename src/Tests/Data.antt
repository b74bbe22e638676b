-- ===== src/Tests/Data.antt =====
-- Connections for the tests.
use androix_xcb_libxcb.Base.{ℕ, true, false, List, [], ◌∷◌, none, replicate}
use androix_xcb_libxcb.Chain.{new}
use androix_xcb_libxcb.Chain.Laws.{chain_of}
use androix_xcb_libxcb.Conn.{Conn, In, PendingReply, Packet, Flags, no_workaround, lazy_none}
use androix_xcb_libxcb.Conn.Socket.{got, would_block}
use androix_xcb_libxcb.In.Read.{Mallocs}

abbrev pub no_flags : Flags
no_flags = record { checked = false; raw = false; discard_reply = false }

abbrev pub checked_flag : Flags
checked_flag = record { checked = true; raw = false; discard_reply = false }

abbrev pub mallocs : Mallocs
mallocs = record { put = true; buf = true; entry = true }

abbrev pub quiet : In
quiet = record {
  reading = 0;
  queue = [];
  request_expected = 0;
  request_read = 0;
  request_completed = 0;
  current_reply = new;
  replies = new;
  events = new;
  readers = [];
  pending_replies = new;
  wakes = [];
}

abbrev pub start : Conn
start = record {
  has_error = false;
  overran = false;
  setup = record {
    maximum_request_length = 16;
    resource_id_base = 0x400000;
    resource_id_mask = 0x1fffff;
  };
  socket = [];
  sent = [];
  input = quiet;
  output = record {
    writing = 0;
    return_socket = none;
    socket_closure = none;
    socket_moving = false;
    queue = [];
    request = 0;
    request_written = 0;
    maximum_request_length = lazy_none;
  };
  xid = record { last = 0; base = 0; max = 0; inc = 0 };
}

abbrev pub with_input : In → Conn
with_input i = record start { input = i }

abbrev pub packet_with : List ℕ → Packet
packet_with b = record { bytes = b; full_sequence = none; extra = [] }

-- A checked error for the request 3: the header and 28 more bytes.
abbrev pub error_bytes : List ℕ
error_bytes = 0 ∷ 8 ∷ 3 ∷ 0 ∷ replicate 28 0

-- A reply of 36 bytes for the request 3.
abbrev pub reply_bytes : List ℕ
reply_bytes = 1 ∷ 0 ∷ 3 ∷ 0 ∷ 1 ∷ 0 ∷ 0 ∷ 0 ∷ replicate 24 0

abbrev pub pending : ℕ → PendingReply
pending n = record {
  first_request = n;
  last_request = n;
  workaround = no_workaround;
  flags = checked_flag;
}

-- The reply's header is in the queue, its last 4 bytes come over the socket after an EAGAIN.
abbrev pub replying : Conn
replying = record start {
  input = record quiet {
    queue = reply_bytes;
    request_read = 2;
    request_completed = 1;
    request_expected = 3;
    current_reply = chain_of (packet_with (1 ∷ 7 ∷ []) ∷ []);
    pending_replies = chain_of (pending 1 ∷ pending 3 ∷ []);
  };
  socket = would_block true ∷ got (9 ∷ 9 ∷ []) ∷ got (8 ∷ 8 ∷ 5 ∷ []) ∷ [];
}
